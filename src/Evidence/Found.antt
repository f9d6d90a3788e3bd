-- ===== src/Evidence/Found.antt =====
-- A verdict is that of a correlation of the trace.
use lofi_bot.Prelude.{
  ℕ, ◌<◌, ◌≡◌, refl, ap, subst, ◌∙◌, arith, Bool, true, false, ◌&&◌, List, [], ◌∷◌, ◌++◌, Option,
  none, some, ltb, leb, if◌then◌else◌,
}
use lofi_bot.Prelude.Text.{Text}
use lofi_bot.Evidence.Records.{Record}
use lofi_bot.Evidence.Search.{
  Snapshots, restart_snapshots, confirmed_restart, snapshot_seq, preceding_confirmed_a_restart,
  clean_changes, clean_a_to_b_transition, is_one, first_record, switched_away, in_order,
  ended_snapshots, immediate_for, settled_for, Verdict, snapshot_between, or_else, find_end, from_a,
  from_b, find_from, find_correlation,
}
use lofi_bot.Evidence.Verify.{reversed_onto}
use lofi_bot.Evidence.Correlation.{Among, IsConfirmed, IsClean, Correlation, Ascending}
use lofi_bot.Evidence.Sound.{
  some-injective, FromTrace, restart_snapshots-FromTrace, first_record_lem, preceding_lem,
  clean_changes_lem, switched_away_lem,
}
use lofi_bot.Evidence.Ends.{confirmed_restart_lem, EndIn, find_end-EndIn}

reversed_onto_lem : (xs ys : List Record) → reversed_onto xs ys ≡ reversed_onto xs [] ++ ys
reversed_onto_lem xs ys = go xs [] ys
  where
    go : (xs zs ys : List Record) → reversed_onto xs (zs ++ ys) ≡ reversed_onto xs zs ++ ys
    go [] zs ys = refl
    go (x ∷ xs) zs ys = go xs (x ∷ zs) ys

Ascending-rest :
    (low : ℕ) (xs ys : List Record) → Ascending low (xs ++ ys) → (l : ℕ) × Ascending l ys
Ascending-rest low [] ys up = (low, up)
Ascending-rest low (x ∷ xs) ys up = Ascending-rest x.elapsed_ns xs ys up.1

module _ (rs : List Record) (m : Snapshots) (from_trace : FromTrace rs m) where
  confirmed_first :
      (r : Record) (basename : Text) (c : IsConfirmed rs r basename) (n : ℕ)
      → m r.seq ≡ some c.snapshot
      → snapshot_seq (m r.seq) < n
      → c.snapshot.seq < n
  confirmed_first r basename c n e h = subst (λ o. snapshot_seq o < n) e h

  between_first :
      (r ended : Record) (basename : Text) (c : IsConfirmed rs r basename)
      → m r.seq ≡ some c.snapshot
      → snapshot_between r ended (m r.seq) ≡ true
      → c.snapshot.seq < ended.seq
  between_first r ended basename c e h =
      let here : snapshot_between r ended (some c.snapshot) ≡ true =
        subst (λ o. snapshot_between r ended o ≡ true) e h in
      ground (arith, here)

  -- The two snapshots stand after the end, in their order.
  ended_snapshots_lem :
      (rest : List Record) (ended : Record) (b : Text) (immediate settled : Record)
      → ended_snapshots rest ended b ≡ some (immediate, settled)
      → (Among immediate rest × (immediate_for ended b immediate ≡ true))
        × (Among settled rest × (settled_for ended b settled ≡ true))
        × (immediate.seq < settled.seq)
  unfolding ended_snapshots
  ended_snapshots_lem rest ended b immediate settled h =
      go (first_record (immediate_for ended b) rest) refl (first_record (settled_for ended b) rest)
        refl h
    where
      Two : Record → Record → Type 0
      Two i s =
          (Among i rest × (immediate_for ended b i ≡ true))
          × (Among s rest × (settled_for ended b s ≡ true))
          × (i.seq < s.seq)

      ordered :
          (i s : Record)
          → (c : Bool)
          → (ltb i.seq s.seq && leb i.response_elapsed_ns s.request_sent_elapsed_ns) ≡ c
          → if◌then◌else◌ {A = Option (Record × Record)} c (some (i, s)) none
            ≡ some (immediate, settled)
          → (Among i rest × (immediate_for ended b i ≡ true))
          → (Among s rest × (settled_for ended b s ≡ true))
          → Two immediate settled
      ordered i s true e f x y =
          subst (λ (p : Record × Record). Two p.0 p.1) (some-injective f) (x, y, ground (arith, e))
      ordered i s false e f x y = cc

      go :
          (o : Option Record)
          → first_record (immediate_for ended b) rest ≡ o
          → (o' : Option Record) → first_record (settled_for ended b) rest ≡ o'
          → in_order o o' ≡ some (immediate, settled)
          → Two immediate settled
      go none e o' f g = cc
      go (some i) e none f g = cc
      go (some i) e (some s) f g =
          ordered i s (ltb i.seq s.seq && leb i.response_elapsed_ns s.request_sent_elapsed_ns) refl
            g (first_record_lem (immediate_for ended b) rest i e)
            (first_record_lem (settled_for ended b) rest s f)

  clean_a_to_b_transition-IsClean :
      (between : List Record) (a_restart : Record) (a b : Text)
      → clean_a_to_b_transition between a_restart a b ≡ true
      → IsClean between b
  unfolding clean_a_to_b_transition
  clean_a_to_b_transition-IsClean between a_restart a b h =
      go (clean_changes between a_restart a b 0) refl h
    where
      go :
          (o : Option ℕ)
          → clean_changes between a_restart a b 0 ≡ o
          → is_one o ≡ true
          → IsClean between b
      go none e f = cc
      go (some k) e f =
          let (no_action, only_b, count) = clean_changes_lem between a_restart a b 0 k e in
          record { no_action = no_action; only_b = only_b; one_change = ground (arith, f, count) }

  module _ (up : Ascending 0 rs) where
    correlated :
        (before after : List Record) (b_restart a_restart : Record) (between : List Record)
        (a b : Text) (v : Verdict)
        → rs ≡ reversed_onto before (b_restart ∷ after)
        → confirmed_restart b_restart b m ≡ true
        → preceding_confirmed_a_restart before a m b_restart.seq [] ≡ some (a_restart, between)
        → clean_a_to_b_transition between a_restart a b ≡ true
        → EndIn rs m from_trace after a_restart b_restart b after v
        → Correlation rs a b v
    correlated before after b_restart a_restart between a b v split b_ok a_found clean end =
        let (earlier, joined, a_ok, a_first) =
          preceding_lem before a m b_restart.seq [] a_restart between a_found in
        let (a_confirmed, a_snapshot) = confirmed_restart_lem rs m from_trace a_restart a a_ok in
        let (b_confirmed, b_snapshot) = confirmed_restart_lem rs m from_trace b_restart b b_ok in
        let found = end.found in
        let (immediate, settled, one_by_one) =
          ended_snapshots_lem end.rest end.ended b end.immediate end.settled found.snapshots in
        let whole : rs
            ≡ reversed_onto earlier [] ++ (a_restart ∷ (between ++ (b_restart ∷ after))) =
          split
          ∙ (joined (b_restart ∷ after)
              ∙ reversed_onto_lem earlier (a_restart ∷ (between ++ (b_restart ∷ after)))) in
        let (low, up_a) =
          Ascending-rest 0 (reversed_onto earlier []) (a_restart ∷ (between ++ (b_restart ∷ after)))
            (subst (Ascending 0) whole up) in
        let (low', up_b) = Ascending-rest a_restart.elapsed_ns between (b_restart ∷ after) up_a.1 in
        record {
          before = reversed_onto earlier [];
          between = between;
          middle = end.middle;
          rest = end.rest;
          a_restart = a_restart;
          b_restart = b_restart;
          ended = end.ended;
          immediate = end.immediate;
          settled = end.settled;
          split =
              whole
              ∙ ap
                  (λ (xs : List Record).
                    reversed_onto earlier [] ++ (a_restart ∷ (between ++ (b_restart ∷ xs))))
                  end.split;
          a_confirmed = a_confirmed;
          a_confirmed_first =
              confirmed_first a_restart a a_confirmed b_restart.seq a_snapshot a_first;
          clean = clean_a_to_b_transition-IsClean between a_restart a b clean;
          b_confirmed = b_confirmed;
          b_confirmed_first =
              between_first b_restart end.ended b b_confirmed b_snapshot found.between;
          end_kind = found.end_kind;
          end_named = found.end_named;
          end_of_b = found.end_of_b;
          not_before = found.not_before;
          within = found.within;
          immediate_after = immediate.0;
          immediate_shows = immediate.1;
          settled_after = settled.0;
          settled_shows = settled.1;
          one_by_one = one_by_one;
          unswitched =
              switched_away_lem (end.middle ++ (end.ended ∷ end.rest)) b_restart.elapsed_ns
                end.settled.response_elapsed_ns b end.ended.seq b_restart.elapsed_ns
                (subst (Ascending b_restart.elapsed_ns) end.split up_b.1)
                (subst
                  (λ xs.
                    switched_away xs b_restart.elapsed_ns end.settled.response_elapsed_ns b
                      end.ended.seq
                    ≡ false)
                  end.split found.stayed);
          verdict = end.verdict;
        }

    from_b-Correlation :
        (before after : List Record) (r : Record) (a b : Text) (v : Verdict)
        → rs ≡ reversed_onto before (r ∷ after)
        → from_b before after m r a b ≡ some v
        → Correlation rs a b v
    unfolding from_b
    from_b-Correlation before after r a b v split h =
        go (confirmed_restart r b m) refl (preceding_confirmed_a_restart before a m r.seq []) refl h
      where
        cleaned :
            (a_restart : Record) (between : List Record)
            → confirmed_restart r b m ≡ true
            → preceding_confirmed_a_restart before a m r.seq [] ≡ some (a_restart, between)
            → (c : Bool) → clean_a_to_b_transition between a_restart a b ≡ c
            → (if c then find_end after m a_restart r b after else none) ≡ some v
            → Correlation rs a b v
        cleaned a_restart between e f true g k =
            correlated before after r a_restart between a b v split e f g
              (find_end-EndIn rs m from_trace after a_restart r b after v k)
        cleaned a_restart between e f false g k = cc

        go :
            (c : Bool)
            → confirmed_restart r b m ≡ c
            → (o : Option (Record × List Record))
            → preceding_confirmed_a_restart before a m r.seq [] ≡ o
            → (if c then from_a after m r a b o else none) ≡ some v
            → Correlation rs a b v
        go true e (some (a_restart, between)) f g =
            cleaned a_restart between e f (clean_a_to_b_transition between a_restart a b) refl g
        go true e none f g = cc
        go false e o f g = cc

    find_from-Correlation :
        (before todo : List Record) (a b : Text) (v : Verdict)
        → rs ≡ reversed_onto before todo
        → find_from before todo m a b ≡ some v
        → Correlation rs a b v
    unfolding find_from
    find_from-Correlation before [] a b v split h = cc
    find_from-Correlation before (r ∷ todo) a b v split h =
        go (from_b before todo m r a b) refl h
          (λ e. find_from-Correlation (r ∷ before) todo a b v split e)
      where
        go :
            (o : Option Verdict)
            → from_b before todo m r a b ≡ o
            → or_else o (find_from (r ∷ before) todo m a b) ≡ some v
            → (find_from (r ∷ before) todo m a b ≡ some v → Correlation rs a b v)
            → Correlation rs a b v
        go (some w) e f rest = from_b-Correlation before todo r a b v split (e ∙ f)
        go none e f rest = rest f

pub find_correlation-Correlation :
    (rs : List Record) (a b : Text) (v : Verdict)
    → Ascending 0 rs
    → find_correlation rs a b ≡ some v
    → Correlation rs a b v
unfolding find_correlation
find_correlation-Correlation rs a b v up h =
    find_from-Correlation rs (restart_snapshots rs (λ seq. none))
      (restart_snapshots-FromTrace rs rs (λ seq. none) (λ r i. i) (λ seq s e. cc)) up [] rs a b v
      refl h
