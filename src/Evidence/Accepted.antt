-- ===== src/Evidence/Accepted.antt =====
-- A trace that passes: its lines are records in order, and they hold a correlation.
use lofi_bot.Prelude.{
  ℕ, ◌+◌, ◌≡◌, refl, sym, ap, subst, ◌∙◌, arith, Bool, true, false, ◌&&◌, List, [], ◌∷◌, ◌++◌,
  Option, none, some, if◌then◌else◌, length,
}
use lofi_bot.Prelude.Text.{Text}
use lofi_bot.Evidence.Records.{Record, split_on}
use lofi_bot.Evidence.Search.{Verdict, find_correlation}
use lofi_bot.Evidence.Checks.{validate_header}
use lofi_bot.Evidence.Verify.{
  reversed_onto, Progress, line_ok, sequence_ok, restarts, begin_with, then_lines, check_lines,
  last_is_stopped, passes, invalid_trace, outcome_of, conclude, check_trace, without_newline,
  on_lines, verify_trace,
}
use lofi_bot.Evidence.Correlation.{Correlation, Ascending, Numbered}
use lofi_bot.Evidence.Sound.{some-injective}
use lofi_bot.Evidence.Found.{find_correlation-Correlation}
use lofi_bot.Evidence.Reading.{without_newline_lem, Decodes, Reads, check_lines-Reads}

module _ (decode : Text → Option (Record × List Text)) (is_time : Text → Bool) where
  -- The file's records, the first of them its header, and the correlation among them.
  pub record IsAccepted (data_ : Text) (v : Verdict) : Type 0 where
    pub content : Text
    pub first : Record
    pub others : List Record
    pub ends_line : data_ ≡ content ++ (10 ∷ [])
    pub decoded : Decodes decode is_time (split_on 10 content) (first ∷ others)
    pub numbered : Numbered 1 (first ∷ others)
    pub ascending : Ascending 0 (first ∷ others)
    pub valid : validate_header first (length data_) ≡ true
    pub correlation : Correlation (first ∷ others) first.a_basename first.b_basename v

  -- The first line.
  record Opens (line : Text) (file_size : ℕ) (p : Progress) : Type 0 where
    pub keys : List Text
    pub decoded : decode line ≡ some (p.first, keys)
    pub next_seq : p.first.seq ≡ 1
    pub valid : validate_header p.first file_size ≡ true
    pub count : p.count ≡ 1
    pub elapsed : p.previous_elapsed ≡ p.first.elapsed_ns
    pub records : p.records ≡ p.first ∷ []

  begin_with-Opens :
      (line : Text) (file_size : ℕ) (p : Progress)
      → begin_with decode is_time line false file_size (decode line) ≡ some p
      → Opens line file_size p
  unfolding line_ok
  begin_with-Opens line file_size p h = go (decode line) refl h
    where
      went :
          (r : Record) (keys : List Text)
          → decode line ≡ some (r, keys)
          → (b : Bool)
          → (line_ok decode is_time 1 0 line r keys
              && (validate_header r file_size && sequence_ok (restarts r) 0 false r))
            ≡ b
          → if◌then◌else◌ {A = Option Progress} b
              (some (record {
                count = 1;
                first = r;
                previous_elapsed = r.elapsed_ns;
                seen_restart = restarts r;
                offset = length line + 1;
                records = r ∷ [];
              }))
              none
            ≡ some p
          → Opens line file_size p
      went r keys e true f g = subst (Opens line file_size) (some-injective g) (record {
        keys = keys;
        decoded = e;
        next_seq = ground (arith, f);
        valid = ground (arith, f);
        count = refl;
        elapsed = refl;
        records = refl;
      })
      went r keys e false f g = cc

      go :
          (o : Option (Record × List Text))
          → decode line ≡ o
          → begin_with decode is_time line false file_size o ≡ some p
          → Opens line file_size p
      go none e f = cc
      go (some (r, keys)) e f = went r keys e _ refl f

  accepted :
      (data_ content line next : Text) (lines : List Text) (v : Verdict)
      → data_ ≡ content ++ (10 ∷ [])
      → split_on 10 content ≡ line ∷ (next ∷ lines)
      → (p q : Progress) → Opens line (length data_) p
      → Reads decode is_time (next ∷ lines) p q
      → conclude (some q) ≡ passes v
      → IsAccepted data_ v
  accepted data_ content line next lines v ends same p q opens reads h =
      let in_order : reversed_onto q.records [] ≡ p.first ∷ reads.added =
        reads.joined ∙ ap (λ rs. reversed_onto rs reads.added) opens.records in
      let up : Ascending 0 (p.first ∷ reads.added) =
        (omega arith, subst (λ n. Ascending n reads.added) opens.elapsed reads.ascending) in
      record {
        content = content;
        first = p.first;
        others = reads.added;
        ends_line = ends;
        decoded =
            subst (λ ls. Decodes decode is_time ls (p.first ∷ reads.added)) (sym same)
              ((opens.keys, opens.decoded), reads.decoded);
        numbered =
            (opens.next_seq, subst (λ n. Numbered (n + 1) reads.added) opens.count reads.numbered);
        ascending = up;
        valid = opens.valid;
        correlation =
            find_correlation-Correlation (p.first ∷ reads.added) p.first.a_basename
              p.first.b_basename v up
              (subst (λ rs. find_correlation rs p.first.a_basename p.first.b_basename ≡ some v)
                in_order
                (subst
                  (λ (r : Record).
                    find_correlation (reversed_onto q.records []) r.a_basename r.b_basename
                    ≡ some v)
                  reads.same_first
                  (found (last_is_stopped q.records)
                    (find_correlation (reversed_onto q.records []) q.first.a_basename
                      q.first.b_basename)
                    h)));
      }
    where
      found :
          (b : Bool) (o : Option Verdict)
          → (if b then outcome_of o else invalid_trace) ≡ passes v
          → o ≡ some v
      found true (some w) e = cc
      found true none e = cc
      found false o e = cc

  -- If VerifyTrace passes a file with a verdict, whatever the decoder and the test of timestamps,
  -- then the file is lines that decode to records, the first a valid header, numbered from 1 with
  -- times that do not fall, and the records hold the correlation that the verdict names: a
  -- confirmed restart of A, a clean change to B and its confirmed restart, the end of that
  -- playback of B within two seconds, and two successful snapshots after it that show B, with no
  -- switch away from B up to the second one's response.
  pub verify_trace-IsAccepted :
      (data_ : Text) (v : Verdict)
      → verify_trace decode is_time (some data_) ≡ passes v
      → IsAccepted data_ v
  unfolding verify_trace check_trace
  verify_trace-IsAccepted data_ v h = go (without_newline data_) refl h
    where
      read :
          (content line next : Text) (lines : List Text)
          → without_newline data_ ≡ some content
          → split_on 10 content ≡ line ∷ (next ∷ lines)
          → (p : Progress) → Opens line (length data_) p
          → (o : Option Progress) → check_lines decode is_time (next ∷ lines) p ≡ o
          → conclude o ≡ passes v
          → IsAccepted data_ v
      read content line next lines e f p opens (some q) g k =
          accepted data_ content line next lines v (without_newline_lem data_ content e) f p q opens
            (check_lines-Reads decode is_time (next ∷ lines) p q g) k
      read content line next lines e f p opens none g k = cc

      open_ :
          (content line next : Text) (lines : List Text)
          → without_newline data_ ≡ some content
          → split_on 10 content ≡ line ∷ (next ∷ lines)
          → (o : Option Progress)
          → begin_with decode is_time line false (length data_) (decode line) ≡ o
          → conclude (then_lines (λ p. check_lines decode is_time (next ∷ lines) p) o) ≡ passes v
          → IsAccepted data_ v
      open_ content line next lines e f (some p) g k =
          read content line next lines e f p (begin_with-Opens line (length data_) p g)
            (check_lines decode is_time (next ∷ lines) p) refl k
      open_ content line next lines e f none g k = cc

      by_lines :
          (content : Text)
          → without_newline data_ ≡ some content
          → (ls : List Text) → split_on 10 content ≡ ls
          → conclude (check_trace decode is_time ls (length data_)) ≡ passes v
          → IsAccepted data_ v
      by_lines content e [] f k = cc
      by_lines content e (line ∷ []) f k = cc
      by_lines content e (line ∷ next ∷ lines) f k =
          open_ content line next lines e f
            (begin_with decode is_time line false (length data_) (decode line)) refl k

      go :
          (o : Option Text)
          → without_newline data_ ≡ o
          → on_lines decode is_time (length data_) o ≡ passes v
          → IsAccepted data_ v
      go none e k = cc
      go (some content) e k = by_lines content e (split_on 10 content) refl k
