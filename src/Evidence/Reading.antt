-- ===== src/Evidence/Reading.antt =====
-- The records that the loop over the lines has read.
use lofi_bot.Prelude.{
  ◌+◌, ◌≤◌, ◌≡◌, refl, sym, ap, subst, ◌∙◌, arith, Bool, true, false, ◌&&◌, ◌||◌, List, [], ◌∷◌,
  ◌++◌, Option, none, some, ◌==◌, if◌then◌else◌, length,
}
use lofi_bot.Prelude.Text.{Text}
use lofi_bot.Evidence.Records.{Record}
use lofi_bot.Evidence.Checks.{validate_body_record}
use lofi_bot.Evidence.Verify.{
  reversed_onto, Progress, line_ok, sequence_ok, restarts, continue_with, check_line, is_last_line,
  then_lines, check_lines, prepend, without_newline,
}
use lofi_bot.Evidence.Correlation.{Ascending, Numbered}
use lofi_bot.Evidence.Sound.{some-injective}

pub without_newline_lem : (d s : Text) → without_newline d ≡ some s → d ≡ s ++ (10 ∷ [])
unfolding without_newline
without_newline_lem [] s h = cc
without_newline_lem (c ∷ []) s h = go (c == 10) refl h
  where
    go :
        (b : Bool)
        → (c == 10) ≡ b
        → if◌then◌else◌ {A = Option Text} b (some []) none ≡ some s
        → c ∷ [] ≡ s ++ (10 ∷ [])
    go true e f =
        let same : c ≡ 10 = ground (arith, e) in
        ap (λ x. x ∷ []) same ∙ ap (λ (t : Text). t ++ (10 ∷ [])) (some-injective f)
    go false e f = cc
without_newline_lem (c ∷ d ∷ cs) s h =
    go (without_newline (d ∷ cs)) refl h (λ t e. without_newline_lem (d ∷ cs) t e)
  where
    go :
        (o : Option Text)
        → without_newline (d ∷ cs) ≡ o
        → prepend c o ≡ some s
        → ((t : Text) → without_newline (d ∷ cs) ≡ some t → d ∷ cs ≡ t ++ (10 ∷ []))
        → c ∷ d ∷ cs ≡ s ++ (10 ∷ [])
    go none e f rest = cc
    go (some t) e f rest =
        ap (λ (x : Text). c ∷ x) (rest t e) ∙ ap (λ (x : Text). x ++ (10 ∷ [])) (some-injective f)

module _ (decode : Text → Option (Record × List Text)) (is_time : Text → Bool) where
  -- Each line is decoded to the record in its place.
  abbrev pub Decodes : List Text → List Record → Type 0
  Decodes [] [] = Unit {0}
  Decodes [] (r ∷ rs) = ⊥
  Decodes (line ∷ lines) [] = ⊥
  Decodes (line ∷ lines) (r ∷ rs) =
      ((keys : List Text) × (decode line ≡ some (r, keys))) × Decodes lines rs

  -- The records that the loop has added.
  pub record Reads (lines : List Text) (p q : Progress) : Type 0 where
    pub added : List Record
    pub joined : reversed_onto q.records [] ≡ reversed_onto p.records added
    pub decoded : Decodes lines added
    pub numbered : Numbered (p.count + 1) added
    pub ascending : Ascending p.previous_elapsed added
    pub same_first : q.first ≡ p.first

  -- One line.
  record Step (line : Text) (p q : Progress) : Type 0 where
    pub read : Record
    pub keys : List Text
    pub decoded : decode line ≡ some (read, keys)
    pub next_seq : read.seq ≡ p.count + 1
    pub not_earlier : p.previous_elapsed ≤ read.elapsed_ns
    pub count : q.count ≡ p.count + 1
    pub elapsed : q.previous_elapsed ≡ read.elapsed_ns
    pub records : q.records ≡ read ∷ p.records
    pub same_first : q.first ≡ p.first

  check_line-Step :
      (line : Text) (is_last : Bool) (p q : Progress)
      → check_line decode is_time line is_last p ≡ some q
      → Step line p q
  unfolding check_line line_ok
  check_line-Step line is_last p q h = go (decode line) refl h
    where
      went :
          (r : Record) (keys : List Text)
          → decode line ≡ some (r, keys)
          → (b : Bool)
          → (line_ok decode is_time (p.count + 1) p.previous_elapsed line r keys
              && (validate_body_record r p.first
                  && sequence_ok (p.seen_restart || restarts r) p.offset is_last r))
            ≡ b
          → if◌then◌else◌ {A = Option Progress} b
              (some (record p {
                count = p.count + 1;
                previous_elapsed = r.elapsed_ns;
                seen_restart = p.seen_restart || restarts r;
                offset = p.offset + (length line + 1);
                records = r ∷ p.records;
              }))
              none
            ≡ some q
          → Step line p q
      went r keys e true f g = subst (Step line p) (some-injective g) (record {
        read = r;
        keys = keys;
        decoded = e;
        next_seq = ground (arith, f);
        not_earlier = ground (arith, f);
        count = refl;
        elapsed = refl;
        records = refl;
        same_first = refl;
      })
      went r keys e false f g = cc

      go :
          (o : Option (Record × List Text))
          → decode line ≡ o
          → continue_with decode is_time line is_last p o ≡ some q
          → Step line p q
      go none e f = cc
      go (some (r, keys)) e f = went r keys e _ refl f

  pub check_lines-Reads :
      (lines : List Text) (p q : Progress)
      → check_lines decode is_time lines p ≡ some q
      → Reads lines p q
  unfolding check_lines
  check_lines-Reads [] p q h = record {
    added = [];
    joined = ap (λ (s : Progress). reversed_onto s.records []) (sym (some-injective h));
    decoded = tt;
    numbered = tt;
    ascending = tt;
    same_first = ap (λ (s : Progress). s.first) (sym (some-injective h));
  }
  check_lines-Reads (line ∷ lines) p q h =
      go (check_line decode is_time line (is_last_line lines) p) refl h
        (λ s e. check_lines-Reads lines s q e)
    where
      go :
          (o : Option Progress)
          → check_line decode is_time line (is_last_line lines) p ≡ o
          → then_lines (λ s. check_lines decode is_time lines s) o ≡ some q
          → ((s : Progress) → check_lines decode is_time lines s ≡ some q → Reads lines s q)
          → Reads (line ∷ lines) p q
      go none e f rest = cc
      go (some s) e f rest =
          let step = check_line-Step line (is_last_line lines) p s e in
          let later = rest s f in
          record {
            added = step.read ∷ later.added;
            joined = later.joined ∙ ap (λ rs. reversed_onto rs later.added) step.records;
            decoded = ((step.keys, step.decoded), later.decoded);
            numbered = (
              step.next_seq,
              subst (λ n. Numbered (n + 1) later.added) step.count later.numbered,
            );
            ascending = (
              step.not_earlier,
              subst (λ n. Ascending n later.added) step.elapsed later.ascending,
            );
            same_first = later.same_first ∙ step.same_first;
          }
