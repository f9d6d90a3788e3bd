-- ===== src/Evidence/Closing.antt =====
-- The end of a trace that was closed.
use lofi_bot.Prelude.{
  ℕ, ◌+◌, ◌-◌, ◌≡◌, refl, sym, ap, ◌∙◌, arith, Bool, true, false, List, [], ◌∷◌, Option, none, some,
  ltb, if◌then◌else◌, length,
}
use lofi_bot.Prelude.Text.{Text}
use lofi_bot.Evidence.Records.{Reason, Record}
use lofi_bot.Evidence.Writer.{
  WriteError, Written, written, refused, FileWrite, took_line, took_part, put_line, TraceWriter,
  new_trace_writer, stamped, write_encoded, write_locked, write, write_version, write_header,
  write_integrity_failure, stopped_record, close, header_record, header_fits, print_version,
}
use lofi_bot.Evidence.Records.{normalize_obs_websocket_version}
use lofi_bot.Evidence.Sound.{some-injective}
use lofi_bot.Evidence.Checks.{is_stopped}
use lofi_bot.Evidence.Verify.{stop_ok}
use lofi_bot.Evidence.Bookkeeping.{
  total, Books, Use, writes_header, writes, writes_integrity_failure, closes, use_once, use_all,
  use_all-Books,
}

module _ (encode : Record → Option Text) (format_time : ℕ → Text) where
  closed_once :
      (w : TraceWriter) (u : FileWrite × ℕ × Use)
      → w.closed ≡ true
      → use_once encode format_time w u ≡ w
  unfolding use_once write write_integrity_failure write_locked write_header close
  closed_once w (file, at, writes_header h) closed =
      go (normalize_obs_websocket_version h.obs_websocket_version)
    where
      by_fit :
          (version : Text) (fits : Bool)
          → (if◌then◌else◌ {A = TraceWriter × Written} fits
              (write_locked encode format_time file at (header_record h version) w)
              (w, refused WriteError.invalid_config)).0
            ≡ w
      by_fit version true = rw closed refl
      by_fit version false = refl

      go : (o : Option (ℕ × ℕ × ℕ)) → (write_version encode format_time file at h o w).0 ≡ w
      go none = refl
      go (some version) = by_fit (print_version version) (header_fits encode format_time h)
  closed_once w (file, at, writes r) closed = rw closed refl
  closed_once w (file, at, writes_integrity_failure) closed = rw closed refl
  closed_once w (file, at, closes reason) closed = rw closed refl

  -- A closed writer writes nothing.
  pub closed_all :
      (w : TraceWriter) (us : List (FileWrite × ℕ × Use))
      → w.closed ≡ true
      → use_all encode format_time w us ≡ w
  unfolding use_all
  closed_all w [] closed = refl
  closed_all w (u ∷ us) closed =
      ap (λ x. use_all encode format_time x us) (closed_once w u closed) ∙ closed_all w us closed

  -- The last line of a trace that was closed.
  pub record IsStop (w w' : TraceWriter) (r : Record) : Type 0 where
    pub line : Text
    pub last_line : w'.lines ≡ (r, line) ∷ w.lines
    pub no_stray : w'.stray ≡ 0
    pub is_stop : is_stopped r.kind ≡ true
    pub passes_check : stop_ok r (total encode format_time w.lines) true ≡ true
    pub no_more : (us : List (FileWrite × ℕ × Use)) → use_all encode format_time w' us ≡ w'

  -- A write that succeeds has added its record's line.
  record Adds (w w' : TraceWriter) (r stamped_r : Record) : Type 0 where
    pub line : Text
    pub was_open : w.closed ≡ false
    pub same : r ≡ stamped_r
    pub last_line : w'.lines ≡ (r, line) ∷ w.lines
    pub no_stray : w'.stray ≡ w.stray

  write_locked-Adds :
      (file : FileWrite) (at : ℕ) (given : Record) (w : TraceWriter) (r : Record)
      → (write_locked encode format_time file at given w).1 ≡ written r
      → Adds w
          (write_locked encode format_time file at given w).0
          r
          (stamped encode format_time at given w)
  unfolding write_locked
  write_locked-Adds file at given w r h =
      go w.closed refl (encode (stamped encode format_time at given w)) h
    where
      Says : TraceWriter × Written → Type 0
      Says p = p.1 ≡ written r

      After : TraceWriter × Written → Type 0
      After p = Adds w p.0 r (stamped encode format_time at given w)

      outcome : Text → Bool → FileWrite → TraceWriter × Written
      outcome line over file =
          if over
          then (w, refused WriteError.trace_limit)
          else put_line encode format_time file (stamped encode format_time at given w) line w

      written-injective : {x y : Record} → written x ≡ written y → x ≡ y
      written-injective e = cc

      taken :
          (line : Text)
          → w.closed ≡ false
          → (over : Bool) → (file : FileWrite) → Says (outcome line over file)
          → After (outcome line over file)
      taken line o true file f = cc
      taken line o false took_line f =
          let same = written-injective f in
          record {
            line = line;
            was_open = o;
            same = sym same;
            last_line = ap (λ x. (x, line) ∷ w.lines) same;
            no_stray = refl;
          }
      taken line o false (took_part n) f = cc

      go :
          (closed : Bool)
          → w.closed ≡ closed
          → (o : Option Text)
          → Says (
              if closed
              then (w, refused WriteError.trace_closed)
              else write_encoded encode format_time file
                  (stamped encode format_time at given w)
                  o
                  w)
          → After (
              if closed
              then (w, refused WriteError.trace_closed)
              else write_encoded encode format_time file
                  (stamped encode format_time at given w)
                  o
                  w)
      go true e o f = cc
      go false e none f = cc
      go false e (some line) f = taken line e (ltb (w.max_bytes - w.bytes) (length line + 1)) file f

  stops :
      (w : TraceWriter)
      → Books encode format_time w
      → w.stray ≡ 0
      → (file : FileWrite) (at : ℕ) (reason : Reason) (r : Record)
      → (close encode format_time file at reason w).1 ≡ some (written r)
      → IsStop w (close encode format_time file at reason w).0 r
  unfolding close
  stops w books clean file at reason r h =
      go w.closed refl h
        (λ e. write_locked-Adds file at (stopped_record encode format_time reason w) w r e)
    where
      inner : TraceWriter × Written
      inner = write_locked encode format_time file at (stopped_record encode format_time reason w) w

      Says : TraceWriter × Option Written → Type 0
      Says p = p.1 ≡ some (written r)

      After : TraceWriter × Option Written → Type 0
      After p = IsStop w p.0 r

      Added : Type 0
      Added =
          Adds w inner.0 r
            (stamped encode format_time at (stopped_record encode format_time reason w) w)

      go :
          (closed : Bool)
          → w.closed ≡ closed
          → Says (if closed then (w, none) else (record (inner.0) { closed = true }, some inner.1))
          → (inner.1 ≡ written r → Added)
          → After (if closed then (w, none) else (record (inner.0) { closed = true }, some inner.1))
      go true e f rest = cc
      go false e f rest =
          let added = rest (some-injective f) in
          record {
            line = added.line;
            last_line = added.last_line;
            no_stray = added.no_stray ∙ clean;
            is_stop = rw added.same refl;
            passes_check = rw added.same (ground (arith, books.summed));
            no_more = λ us. closed_all (record (inner.0) { closed = true }) us refl;
          }

  -- If closing a TraceWriter that was used in any way, where no failed write left a part of its
  -- line in the file, writes its record, that record is the file's last line, it passes the check
  -- of a stop that VerifyTrace makes at the bytes before it, and no later use of the writer
  -- changes it.
  pub close-IsStop :
      (start max_bytes : ℕ) (opened : TraceWriter) (us : List (FileWrite × ℕ × Use))
      (file : FileWrite) (at : ℕ) (reason : Reason) (r : Record)
      → new_trace_writer start max_bytes ≡ some opened
      → (use_all encode format_time opened us).stray ≡ 0
      → (close encode format_time file at reason (use_all encode format_time opened us)).1
        ≡ some (written r)
      → IsStop
          (use_all encode format_time opened us)
          (close encode format_time file at reason (use_all encode format_time opened us)).0
          r
  close-IsStop start max_bytes opened us file at reason r made clean h =
      stops (use_all encode format_time opened us)
        (use_all-Books encode format_time start max_bytes opened us made) clean file at reason r h
