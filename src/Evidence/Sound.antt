-- ===== src/Evidence/Sound.antt =====
-- Each search step finds what it looks for.
use lofi_bot.Prelude.{
  ℕ, ◌+◌, ◌<◌, ◌≡◌, ◌⊎◌, inl, inr, refl, sym, ap, subst, ◌∙◌, arith, Bool, true, false, not, ◌&&◌,
  ◌||◌, List, [], ◌∷◌, ◌++◌, All, ltb→lt, none, some, ltb, ◌==◌, if◌then◌else◌,
}
use lofi_bot.Prelude.Text.{Text, text_eq, text_eq→eq}
use lofi_bot.Evidence.Records.{
  Kind, header, settings_changed, media_action, settings_snapshot, playback_ended,
  integrity_failure, stopped, other_kind, Record,
}
use lofi_bot.Evidence.Search.{
  is_restart_trigger, is_restart_snapshot, Snapshots, restart_snapshots, confirmed_restart,
  snapshot_seq, preceding_confirmed_a_restart, is_media_action, clean_changes, first_record,
  switches, switched_away,
}
use lofi_bot.Evidence.Verify.{reversed_onto}
use lofi_bot.Evidence.Correlation.{Among, is_change, count_changes, Ascending}

pub some-injective {ℓ} : {A : Type ℓ} {a b : A} → some a ≡ some b → a ≡ b
some-injective e = cc

-- Every snapshot of the map is one of the trace's, for its number.
abbrev pub FromTrace : List Record → Snapshots → Type 0
FromTrace rs m =
    (seq : ℕ) (s : Record)
    → m seq ≡ some s
    → Among s rs × (is_restart_snapshot s ≡ true) × (s.related_seq ≡ seq)

pub restart_snapshots-FromTrace :
    (all : List Record) (rs : List Record) (m : Snapshots)
    → ((r : Record) → Among r rs → Among r all)
    → FromTrace all m
    → FromTrace all (restart_snapshots rs m)
unfolding restart_snapshots
restart_snapshots-FromTrace all [] m within h = h
restart_snapshots-FromTrace all (r ∷ rs) m within h =
    restart_snapshots-FromTrace all rs _ (λ s i. within s (inr i))
      (λ seq s e. go seq s (is_restart_snapshot r) refl (r.related_seq == seq) refl e)
  where
    go :
        (seq : ℕ) (s : Record) (b : Bool)
        → is_restart_snapshot r ≡ b
        → (c : Bool) → (r.related_seq == seq) ≡ c
        → (if b && c then some r else m seq) ≡ some s
        → Among s all × (is_restart_snapshot s ≡ true) × (s.related_seq ≡ seq)
    go seq s true e true f g =
        let same : r ≡ s = some-injective g in
        (
          subst (λ x. Among x all) same (within r (inl refl)),
          rw (← same) e,
          rw (← same) (ground (arith, f)),
        )
    go seq s true e false f g = h seq s g
    go seq s false e c f g = h seq s g

pub first_record_lem :
    (p : Record → Bool) (rs : List Record) (r : Record)
    → first_record p rs ≡ some r
    → Among r rs × (p r ≡ true)
unfolding first_record
first_record_lem p [] r h = cc
first_record_lem p (s ∷ rs) r h = go (p s) refl h (λ e. first_record_lem p rs r e)
  where
    go :
        (b : Bool)
        → p s ≡ b
        → (if b then some s else first_record p rs) ≡ some r
        → (first_record p rs ≡ some r → Among r rs × (p r ≡ true))
        → Among r (s ∷ rs) × (p r ≡ true)
    go true e f rest = let same : s ≡ r = some-injective f in (inl (sym same), rw (← same) e)
    go false e f rest = let (i, t) = rest f in (inr i, t)

-- What lies before A's restart, and the records between, make up the records before.
pub preceding_lem :
    (before : List Record) (a : Text) (m : Snapshots) (seq : ℕ) (between : List Record) (r : Record)
    (mid : List Record)
    → preceding_confirmed_a_restart before a m seq between ≡ some (r, mid)
    → (earlier : List Record) × ((tail : List Record)
        → reversed_onto before (between ++ tail) ≡ reversed_onto earlier (r ∷ (mid ++ tail)))
      × (confirmed_restart r a m ≡ true)
      × (snapshot_seq (m r.seq) < seq)
unfolding preceding_confirmed_a_restart
preceding_lem [] a m seq between r mid h = cc
preceding_lem (s ∷ before) a m seq between r mid h =
    go (confirmed_restart s a m) refl (ltb (snapshot_seq (m s.seq)) seq) refl h
      (λ e. preceding_lem before a m seq (s ∷ between) r mid e)
  where
    Found : List Record → List Record → Type 0
    Found before between =
        (earlier : List Record) × ((tail : List Record)
          → reversed_onto before (between ++ tail) ≡ reversed_onto earlier (r ∷ (mid ++ tail)))
        × (confirmed_restart r a m ≡ true)
        × (snapshot_seq (m r.seq) < seq)

    go :
        (b : Bool)
        → confirmed_restart s a m ≡ b
        → (c : Bool) → ltb (snapshot_seq (m s.seq)) seq ≡ c
        → (if b && c
            then some (s, between)
            else preceding_confirmed_a_restart before a m seq (s ∷ between))
          ≡ some (r, mid)
        → (preceding_confirmed_a_restart before a m seq (s ∷ between) ≡ some (r, mid)
            → Found before (s ∷ between))
        → Found (s ∷ before) between
    go true e true f g rest =
        let same : (s, between) ≡ (r, mid) = some-injective g in
        let is_r : s ≡ r = ap (λ (p : Record × List Record). p.0) same in
        let is_mid : between ≡ mid = ap (λ (p : Record × List Record). p.1) same in
        (
          before,
          (λ tail.
              ap (λ x. reversed_onto before (x ∷ (between ++ tail))) is_r
              ∙ ap (λ ms. reversed_onto before (r ∷ (ms ++ tail))) is_mid),
          subst (λ x. confirmed_restart x a m ≡ true) is_r e,
          subst (λ x. snapshot_seq (m x.seq) < seq) is_r (ltb→lt _ _ f),
        )
    go true e false f g rest = rest g
    go false e c f g rest = rest g

pub clean_changes_lem :
    (rs : List Record) (a_restart : Record) (a b : Text) (n k : ℕ)
    → clean_changes rs a_restart a b n ≡ some k
    → All (λ r. is_media_action r.kind ≡ false) rs
      × All (λ r. (is_change r.kind ≡ false) ⊎ (r.basename ≡ b)) rs
      × (k ≡ n + count_changes rs)
unfolding clean_changes
clean_changes_lem [] a_restart a b n k h = (tt, tt, omega (arith, some-injective h))
clean_changes_lem (r ∷ rs) a_restart a b n k h =
    go r.kind refl (text_eq r.basename b) refl (ltb 1 (n + 1))
      (is_restart_trigger r.trigger
        && (not (r.related_seq == a_restart.seq) || not (text_eq r.basename a)))
      h (λ n e. clean_changes_lem rs a_restart a b n k e)
  where
    Clean : List Record → ℕ → Type 0
    Clean rs n =
        All (λ r. is_media_action r.kind ≡ false) rs
        × All (λ r. (is_change r.kind ≡ false) ⊎ (r.basename ≡ b)) rs
        × (k ≡ n + count_changes rs)

    pass : is_media_action r.kind ≡ false → is_change r.kind ≡ false → Clean rs n → Clean (r ∷ rs) n
    pass f g (p, q, e) = ((f, p), (inl g, q), rw g e)

    go :
        (kind : Kind)
        → r.kind ≡ kind
        → (to_b : Bool) → text_eq r.basename b ≡ to_b
        → (many bad : Bool)
        → (elim kind [
          | settings_changed ↦
              if not to_b
              then none
              else if many
              then none
              else clean_changes rs a_restart a b (n + 1)
          | media_action ↦ none
          | settings_snapshot ↦ if bad then none else clean_changes rs a_restart a b n
          | _ ↦ clean_changes rs a_restart a b n
        ])
          ≡ some k
        → ((n : ℕ) → clean_changes rs a_restart a b n ≡ some k → Clean rs n)
        → Clean (r ∷ rs) n
    go settings_changed e true f false bad g rest =
        let (p, q, c) = rest (n + 1) g in
        ((rw e refl, p), (inr (text_eq→eq r.basename b f), q), rw e (omega (arith, c)))
    go settings_changed e true f true bad g rest = cc
    go settings_changed e false f many bad g rest = cc
    go media_action e to_b f many bad g rest = cc
    go settings_snapshot e to_b f many true g rest = cc
    go settings_snapshot e to_b f many false g rest = pass (rw e refl) (rw e refl) (rest n g)
    go header e to_b f many bad g rest = pass (rw e refl) (rw e refl) (rest n g)
    go playback_ended e to_b f many bad g rest = pass (rw e refl) (rw e refl) (rest n g)
    go integrity_failure e to_b f many bad g rest = pass (rw e refl) (rw e refl) (rest n g)
    go stopped e to_b f many bad g rest = pass (rw e refl) (rw e refl) (rest n g)
    go other_kind e to_b f many bad g rest = pass (rw e refl) (rw e refl) (rest n g)

later_ones :
    (through low : ℕ) (rs : List Record) (P : Record → Type 0)
    → through < low
    → Ascending low rs
    → All (λ r. (through < r.elapsed_ns) ⊎ P r) rs
later_ones through low [] P h up = tt
later_ones through low (r ∷ rs) P h (le, up) =
    (inl (omega (arith, h, le)), later_ones through r.elapsed_ns rs P (omega (arith, h, le)) up)

pub switched_away_lem :
    (rs : List Record) (from_ns through_ns : ℕ) (b : Text) (seq low : ℕ)
    → Ascending low rs
    → switched_away rs from_ns through_ns b seq ≡ false
    → All (λ r. (through_ns < r.elapsed_ns) ⊎ (switches from_ns b seq r ≡ false)) rs
unfolding switched_away
switched_away_lem [] from_ns through_ns b seq low up h = tt
switched_away_lem (r ∷ rs) from_ns through_ns b seq low (le, up) h =
    go (ltb through_ns r.elapsed_ns) refl (switches from_ns b seq r) refl h
      (λ e. switched_away_lem rs from_ns through_ns b seq r.elapsed_ns up e)
  where
    Apart : Record → Type 0
    Apart r = (through_ns < r.elapsed_ns) ⊎ (switches from_ns b seq r ≡ false)

    go :
        (over : Bool)
        → ltb through_ns r.elapsed_ns ≡ over
        → (switched : Bool) → switches from_ns b seq r ≡ switched
        → (if over
            then false
            else if switched
            then true
            else switched_away rs from_ns through_ns b seq)
          ≡ false
        → (switched_away rs from_ns through_ns b seq ≡ false → All Apart rs)
        → All Apart (r ∷ rs)
    go true e switched f g rest =
        (inl (ground (arith, e)), later_ones through_ns r.elapsed_ns rs _ (ground (arith, e)) up)
    go false e true f g rest = cc
    go false e false f g rest = (inr f, rest g)
