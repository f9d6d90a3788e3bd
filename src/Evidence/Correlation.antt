-- ===== src/Evidence/Correlation.antt =====
-- What a verdict claims of the trace.
use lofi_bot.Prelude.{
  ℕ, ◌+◌, ◌-◌, ◌≤◌, ◌<◌, ◌≡◌, ◌⊎◌, Bool, true, false, List, [], ◌∷◌, ◌++◌, All, if◌then◌else◌,
}
use lofi_bot.Prelude.Text.{Text}
use lofi_bot.Evidence.Records.{correlation_window, Kind, settings_changed, Record}
use lofi_bot.Evidence.Search.{
  is_restart_snapshot, is_media_action, is_restart, is_ended, switches, immediate_for, settled_for,
  Verdict,
}

-- The record is one of the list.
abbrev pub Among : Record → List Record → Type 0
Among r [] = ⊥
Among r (s ∷ ss) = (r ≡ s) ⊎ Among r ss

abbrev pub is_change : Kind → Bool
is_change settings_changed = true
is_change _ = false

abbrev pub count_changes : List Record → ℕ
count_changes [] = 0
count_changes (r ∷ rs) = let rest = count_changes rs in if is_change r.kind then 1 + rest else rest

-- A restart of the source that a later snapshot of the trace confirms.
pub record IsConfirmed (rs : List Record) (r : Record) (basename : Text) : Type 0 where
  pub action_kind : is_media_action r.kind ≡ true
  pub restarted : is_restart r.action ≡ true
  pub named : r.basename ≡ basename
  pub snapshot : Record
  pub in_trace : Among snapshot rs
  pub is_its : is_restart_snapshot snapshot ≡ true
  pub related : snapshot.related_seq ≡ r.seq
  pub later : r.seq < snapshot.seq
  pub shows : snapshot.basename ≡ basename

-- Between the restarts of A and B nothing acts on the media, and one change sets B.
pub record IsClean (between : List Record) (b : Text) : Type 0 where
  pub no_action : All (λ r. is_media_action r.kind ≡ false) between
  pub only_b : All (λ r. (is_change r.kind ≡ false) ⊎ (r.basename ≡ b)) between
  pub one_change : count_changes between ≡ 1

-- The verdict's restart of A, restart of B, end of the playback and two snapshots.
pub record Correlation (rs : List Record) (a b : Text) (v : Verdict) : Type 0 where
  pub before : List Record
  pub between : List Record
  pub middle : List Record
  pub rest : List Record
  pub a_restart : Record
  pub b_restart : Record
  pub ended : Record
  pub immediate : Record
  pub settled : Record
  pub split : rs ≡ before ++ (a_restart ∷ (between ++ (b_restart ∷ (middle ++ (ended ∷ rest)))))
  pub a_confirmed : IsConfirmed rs a_restart a
  pub a_confirmed_first : a_confirmed.snapshot.seq < b_restart.seq
  pub clean : IsClean between b
  pub b_confirmed : IsConfirmed rs b_restart b
  pub b_confirmed_first : b_confirmed.snapshot.seq < ended.seq
  pub end_kind : is_ended ended.kind ≡ true
  pub end_named : ended.basename ≡ b
  pub end_of_b : ended.last_restart_seq ≡ b_restart.seq
  pub not_before : b_restart.elapsed_ns ≤ ended.elapsed_ns
  pub within : ended.elapsed_ns < b_restart.elapsed_ns + correlation_window
  pub immediate_after : Among immediate rest
  pub immediate_shows : immediate_for ended b immediate ≡ true
  pub settled_after : Among settled rest
  pub settled_shows : settled_for ended b settled ≡ true
  pub one_by_one : immediate.seq < settled.seq
  -- Up to the second snapshot's response the source is not switched away from B.
  pub unswitched :
      All
        (λ r.
          (settled.response_elapsed_ns < r.elapsed_ns)
          ⊎ (switches b_restart.elapsed_ns b ended.seq r ≡ false))
        (middle ++ (ended ∷ rest))
  pub verdict : v ≡ record {
    a_restart_seq = a_restart.seq;
    b_restart_seq = b_restart.seq;
    ended_seq = ended.seq;
    immediate_seq = immediate.seq;
    settled_seq = settled.seq;
    delta_ns = ended.elapsed_ns - b_restart.elapsed_ns;
  }

-- The times do not fall, from a first one.
abbrev pub Ascending : ℕ → List Record → Type 0
Ascending low [] = Unit {0}
Ascending low (r ∷ rs) = (low ≤ r.elapsed_ns) × Ascending r.elapsed_ns rs

-- The sequence numbers count on from a first one.
abbrev pub Numbered : ℕ → List Record → Type 0
Numbered n [] = Unit {0}
Numbered n (r ∷ rs) = (r.seq ≡ n) × Numbered (n + 1) rs
