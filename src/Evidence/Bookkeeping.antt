-- ===== src/Evidence/Bookkeeping.antt =====
-- What a writer counts is what the verification of its trace asks for.
use lofi_bot.Prelude.{
  ℕ, ◌+◌, ◌-◌, ◌≤◌, ◌<◌, ◌≡◌, refl, subst, arith, Bool, true, false, ◌||◌, List, [], ◌∷◌, Option,
  none, some, ltb, if◌then◌else◌, length,
}
use lofi_bot.Prelude.Text.{Text}
use lofi_bot.Evidence.Records.{
  min_max_trace_bytes, max_max_trace_bytes, integrity_failure, Reason, Record,
}
use lofi_bot.Evidence.Writer.{
  WriteError, Written, refused, FileWrite, took_line, took_part, put_line, Header, TraceWriter,
  new_trace_writer, stamped, write_encoded, write_locked, write, write_version, write_header,
  write_integrity_failure, stopped_record, close, bare, header_record, header_fits, print_version,
}
use lofi_bot.Evidence.Records.{normalize_obs_websocket_version}
use lofi_bot.Evidence.Sound.{some-injective}

-- What happens to a writer.
pub data Use : Type 0 where
  writes_header : Header → Use
  writes : Record → Use
  writes_integrity_failure : Use
  closes : Reason → Use

module _ (encode : Record → Option Text) (format_time : ℕ → Text) where
  -- The bytes of lines, each with its end.
  abbrev pub total : List (Record × Text) → ℕ
  total [] = 0
  total ((r, line) ∷ lines) = length line + 1 + total lines

  -- The newest line has the last number, and each is the encoding of its record.
  abbrev pub Counted : ℕ → List (Record × Text) → Type 0
  Counted n [] = n ≡ 0
  Counted n ((r, line) ∷ lines) =
      (r.seq ≡ n) × (encode r ≡ some line) × (0 < n) × Counted (n - 1) lines

  pub record Books (w : TraceWriter) : Type 0 where
    pub counted : Counted w.seq w.lines
    pub summed : w.bytes ≡ total w.lines
    pub fits : w.bytes ≤ w.max_bytes
    pub limited : w.max_bytes ≤ max_max_trace_bytes

  unfoldable pub use_once : TraceWriter → FileWrite × ℕ × Use → TraceWriter
  use_once w (file, at, writes_header h) = (write_header encode format_time file at h w).0
  use_once w (file, at, writes r) = (write encode format_time file at r w).0
  use_once w (file, at, writes_integrity_failure) =
      write_integrity_failure encode format_time file at w
  use_once w (file, at, closes reason) = (close encode format_time file at reason w).0

  unfoldable pub use_all : TraceWriter → List (FileWrite × ℕ × Use) → TraceWriter
  unfolding use_once
  use_all w [] = w
  use_all w (u ∷ us) = use_all (use_once w u) us

  write_locked-Books :
      (file : FileWrite) (at : ℕ) (r : Record) (w : TraceWriter)
      → Books w
      → Books (write_locked encode format_time file at r w).0
  unfolding write_locked
  write_locked-Books file at r w books =
      go w.closed (encode (stamped encode format_time at r w)) refl
    where
      After : TraceWriter × Written → Type 0
      After p = Books p.0

      taken :
          (line : Text)
          → encode (stamped encode format_time at r w) ≡ some line
          → (over : Bool) → ltb (w.max_bytes - w.bytes) (length line + 1) ≡ over
          → (file : FileWrite)
          → After (
              if over
              then (w, refused WriteError.trace_limit)
              else put_line encode format_time file (stamped encode format_time at r w) line w)
      taken line e true f file = books
      taken line e false f took_line = record {
        counted =
            (refl, e, omega arith, subst (λ n. Counted n w.lines) (omega arith) books.counted);
        summed = omega (arith, books.summed);
        fits = ground (arith, f, books.fits);
        limited = books.limited;
      }
      taken line e false f (took_part n) = record {
        counted = books.counted;
        summed = books.summed;
        fits = books.fits;
        limited = books.limited;
      }

      go :
          (closed : Bool) (o : Option Text)
          → encode (stamped encode format_time at r w) ≡ o
          → After (
              if closed
              then (w, refused WriteError.trace_closed)
              else write_encoded encode format_time file (stamped encode format_time at r w) o w)
      go true o e = books
      go false none e = books
      go false (some line) e = taken line e _ refl file

  close-Books :
      (file : FileWrite) (at : ℕ) (reason : Reason) (w : TraceWriter)
      → Books w
      → Books (close encode format_time file at reason w).0
  unfolding close
  close-Books file at reason w books =
      go w.closed (write_locked-Books file at (stopped_record encode format_time reason w) w books)
    where
      After : TraceWriter × Option Written → Type 0
      After p = Books p.0

      go :
          (closed : Bool)
          → Books
              (write_locked encode format_time file at
                (stopped_record encode format_time reason w)
                w).0
          → After (
              if closed then (w, none) else (
                record ((write_locked encode format_time file at
                    (stopped_record encode format_time reason w)
                    w).0) { closed = true },
                some
                    (write_locked encode format_time file at
                      (stopped_record encode format_time reason w)
                      w).1,
              ))
      go true later = books
      go false later = record {
        counted = later.counted;
        summed = later.summed;
        fits = later.fits;
        limited = later.limited;
      }

  write_header-Books :
      (file : FileWrite) (at : ℕ) (h : Header) (w : TraceWriter)
      → Books w
      → Books (write_header encode format_time file at h w).0
  unfolding write_header write
  write_header-Books file at h w books =
      go (normalize_obs_websocket_version h.obs_websocket_version)
    where
      After : TraceWriter × Written → Type 0
      After p = Books p.0

      by_fit :
          (version : Text) (fits : Bool)
          → After (
              if fits
              then write_locked encode format_time file at (header_record h version) w
              else (w, refused WriteError.invalid_config))
      by_fit version true = write_locked-Books file at (header_record h version) w books
      by_fit version false = books

      go : (o : Option (ℕ × ℕ × ℕ)) → After (write_version encode format_time file at h o w)
      go none = books
      go (some version) = by_fit (print_version version) (header_fits encode format_time h)

  pub use_once-Books : (w : TraceWriter) (u : FileWrite × ℕ × Use) → Books w → Books (use_once w u)
  unfolding use_once write write_integrity_failure
  use_once-Books w (file, at, writes_header h) books = write_header-Books file at h w books
  use_once-Books w (file, at, writes r) books = write_locked-Books file at r w books
  use_once-Books w (file, at, writes_integrity_failure) books =
      write_locked-Books file at (bare integrity_failure) w books
  use_once-Books w (file, at, closes reason) books = close-Books file at reason w books

  then_Books : (us : List (FileWrite × ℕ × Use)) (w : TraceWriter) → Books w → Books (use_all w us)
  unfolding use_all
  then_Books [] w books = books
  then_Books (u ∷ us) w books = then_Books us (use_once w u) (use_once-Books w u books)

  -- From a new TraceWriter, whatever is written to it, and whether or not the encoder and the file
  -- take it, the lines that the file took are numbered from 1 and are the encodings of their
  -- records, and the bytes that the writer counts are theirs, at most its limit and so at most the
  -- 4 MiB that the verification reads.
  pub use_all-Books :
      (start max_bytes : ℕ) (w : TraceWriter) (us : List (FileWrite × ℕ × Use))
      → new_trace_writer start max_bytes ≡ some w
      → Books (use_all w us)
  unfolding new_trace_writer
  use_all-Books start max_bytes w us h =
      then_Books us w
        (go (ltb max_bytes min_max_trace_bytes || ltb max_max_trace_bytes max_bytes) refl h)
    where
      opened : TraceWriter
      opened = record {
        start = start;
        max_bytes = max_bytes;
        bytes = 0;
        seq = 0;
        closed = false;
        lines = [];
        stray = 0;
      }

      go :
          (b : Bool)
          → (ltb max_bytes min_max_trace_bytes || ltb max_max_trace_bytes max_bytes) ≡ b
          → (if b then none else some opened) ≡ some w
          → Books w
      go true e f = cc
      go false e f = subst Books (some-injective f) (record {
        counted = refl;
        summed = refl;
        fits = omega arith;
        limited = ground (arith, e);
      })
