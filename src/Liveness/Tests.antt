-- ===== src/Liveness/Tests.antt =====
-- A worker that copies a file while it probes it, and a registry that is filled and sealed.
use lofi_bot.Prelude.{
  ℕ, length, ◌^◌, find_key, ◌+◌, ◌*◌, ◌≤◌, ◌≡◌, ◌-◌, refl, arith, false, List, [], ◌∷◌, none, some,
  true, min, Member, All, ◌⊎◌,
}
use lofi_bot.Prelude.Int.{pos}
use lofi_bot.Liveness.Worker.{
  Snapshot, WorkerState, ScopeHandle, phase_of, sequence_of, advance, scope, close, checkpoint,
  phase_operation, sequence_size,
}
use lofi_bot.Liveness.Invariant.{Inv, Call, advances, opens, closes, checks, run, run-Inv}
use lofi_bot.Liveness.Progress.{run_monotone}
use lofi_bot.Liveness.Scopes.{close-scope, close_outer, close_twice, advance_invalidates}
use lofi_bot.Liveness.Registry.{new_registry, incomplete_binding, seal, snapshots}
use lofi_bot.Liveness.Registry.Owners.{IsBound, IsUnbound, Matches, seal_lem, snapshots-Matches}
use lofi_bot.Prelude.Text.{Text}
use lofi_bot.Liveness.Frames.{encode_frame, encoded, max_frame_bytes, encode_frame_lem}
use lofi_bot.Liveness.Registry as Registry

-- Two scopes are open: the copy, and within it a probe.
abbrev busy : WorkerState
busy = record {
  id = 4;
  owner = 4;
  value = 8 * sequence_size + 12;
  scope_base = phase_operation;
  next_scope_token = 2;
  active = record { token = 2; phase = 8 } ∷ record { token = 1; phase = 7 } ∷ [];
}

busy-Inv : Inv busy
busy-Inv = record {
  value_fits = omega arith;
  token_fits = omega arith;
  few = omega arith;
  tokens = (omega arith, omega arith, (omega arith, omega arith, tt));
  specials = (refl, (refl, tt));
  shown = (omega arith, refl);
}

abbrev copying : ScopeHandle
copying = record { token = 1; phase = 7 }

abbrev calls : List Call
calls = opens 9 ∷ closes copying ∷ checks copying ∷ advances 4 ∷ closes copying ∷ []

run-Inv_example : Inv (run busy calls)
run-Inv_example = run-Inv busy calls busy-Inv

run_monotone_example : sequence_of busy ≤ sequence_of (run busy calls)
run_monotone_example = run_monotone busy calls

close-scope_example :
    (s' : WorkerState) × (h : ScopeHandle) × (scope 9 busy ≡ some (s', h))
    × (phase_of s' ≡ 9)
    × ((close h s').active ≡ busy.active)
    × (phase_of (close h s') ≡ 8)
close-scope_example = close-scope 9 busy busy-Inv refl (omega arith) (omega arith)

close_twice_example : close copying (close copying busy) ≡ close copying busy
close_twice_example = close_twice copying busy busy-Inv

close_outer_example : phase_of (close copying busy) ≡ 8
close_outer_example =
    close_outer copying busy (record { token = 2; phase = 8 })
      (record { token = 1; phase = 7 } ∷ []) busy-Inv refl (omega arith)

advance_invalidates_example :
    (s' : WorkerState) × (advance 4 busy ≡ some (s', sequence_of s'))
    × (phase_of s' ≡ 4)
    × (sequence_of s' ≡ min (sequence_of busy + 1) (2 ^ 56 - 1))
    × (close copying s' ≡ s')
    × ((checkpoint copying s').0 ≡ s')
advance_invalidates_example = advance_invalidates 4 busy copying refl

abbrev start : List Registry.Call
start = Registry.binds 1 1 ∷ Registry.binds 5 4 ∷ Registry.binds 2 2 ∷ []

start_unsealed : (Registry.run (new_registry (pos 0)) start).sealed ≡ false
unfolding Registry.run Registry.step Registry.bind new_registry find_key
start_unsealed = refl

seal_lem_example :
    let r = Registry.run (new_registry (pos 0)) start in
    (All (λ id. IsBound id r.workers) (1 ∷ 2 ∷ 3 ∷ 4 ∷ 5 ∷ [])
      × (seal r ≡ (record r { sealed = true }, none)))
    ⊎ ((id : ℕ) × Member id (1 ∷ 2 ∷ 3 ∷ 4 ∷ 5 ∷ [])
        × IsUnbound id r.workers
        × (seal r ≡ (r, some incomplete_binding)))
seal_lem_example = seal_lem (pos 0) start start_unsealed

snapshots-Matches_example :
    let r = Registry.run (new_registry (pos 0)) start in
    Matches r.workers (1 ∷ 2 ∷ 3 ∷ 4 ∷ 5 ∷ []) (snapshots r)
snapshots-Matches_example = snapshots-Matches (pos 0) start

abbrev shown : ℕ → Snapshot
shown id = record { id = id; owner = id; phase = 10; sequence = 2 ^ 60 }

encode_frame_lem_example :
    (bytes : Text) × (encode_frame 7 (shown 1 ∷ shown 2 ∷ shown 3 ∷ shown 4 ∷ shown 5 ∷ [])
      ≡ encoded bytes)
    × (length bytes ≤ max_frame_bytes)
unfolding Registry.valid_binding
encode_frame_lem_example =
    let ready : (id : ℕ) → 10 ≤ 10 = λ id. omega arith in
    encode_frame_lem 7 (shown 1 ∷ shown 2 ∷ shown 3 ∷ shown 4 ∷ shown 5 ∷ []) (omega arith) (
      (refl, refl, ready 1),
      (
        (refl, refl, ready 2),
        ((refl, refl, ready 3), ((refl, refl, ready 4), ((refl, refl, ready 5), tt))),
      ),
    )
