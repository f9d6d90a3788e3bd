-- ===== src/Liveness/Registry/Owners.antt =====
-- Every worker keeps its single owner, and a seal finds all of them.
use lofi_bot.Prelude.{
  ℕ, zero, suc, ◌≡◌, refl, arith, Bool, true, false, not, List, [], ◌∷◌, Option, none, some,
  if◌then◌else◌, All, Member, find_key, ◌⊎◌, inl, inr, ==_iff, ap, ◌∙◌, ◌≢◌, ◌==◌, ◌&&◌,
}
use lofi_bot.Prelude.Int.{ℤ, pos, negsuc}
use lofi_bot.Liveness.Worker.{WorkerState, Snapshot, snapshot_state, phase_of, sequence_of}
use lofi_bot.Liveness.Registry.{
  worker_id, Registry, BindError, invalid_binding, duplicate_binding, incomplete_binding,
  registry_sealed, new_registry, find_worker, is_bound, valid_binding, new_worker, bind, all_bound,
  owned_by, seal, snapshot_of, snapshots_in, snapshots, Call, binds, seals, step, run,
  required_worker_ids, worker_playback, owner_library_scheduler,
}

-- Every worker has the one owner that may advance it.
pub record Inv (r : Registry) : Type 0 where
  pub owners : All (λ w. valid_binding w.id w.owner ≡ true) r.workers

step-Inv : (r : Registry) (c : Call) → Inv r → Inv (step r c)
unfolding step bind seal new_worker
step-Inv r (binds id owner) v =
    go (valid_binding id owner) r.sealed (is_bound (find_worker id r.workers)) refl
  where
    next : Registry
    next = record r { workers = new_worker id owner ∷ r.workers }

    Keeps : Registry × Option BindError → Type 0
    Keeps p = Inv p.0

    go :
        (a b c : Bool)
        → valid_binding id owner ≡ a
        → Keeps (
            if not a
            then (r, some invalid_binding)
            else if b
            then (r, some registry_sealed)
            else if c
            then (r, some duplicate_binding)
            else (next, none))
    go false b c e = v
    go true true c e = v
    go true false true e = v
    go true false false e = record { owners = (e, v.owners) }
step-Inv r seals v =
    go r.sealed (all_bound required_worker_ids r.workers)
      (owned_by owner_library_scheduler (find_worker worker_playback r.workers))
  where
    Keeps : Registry × Option BindError → Type 0
    Keeps p = Inv p.0

    go :
        (a b c : Bool)
        → Keeps (
            if a
            then (r, some registry_sealed)
            else if not b
            then (r, some incomplete_binding)
            else if not c
            then (r, some invalid_binding)
            else (record r { sealed = true }, none))
    go true b c = v
    go false false c = v
    go false true false = v
    go false true true = record { owners = v.owners }

run-Inv : (r : Registry) (cs : List Call) → Inv r → Inv (run r cs)
unfolding run
run-Inv r [] v = v
run-Inv r (c ∷ cs) v = run-Inv (step r c) cs (step-Inv r c v)

new_registry-Inv : (interval : ℤ) → Inv (new_registry interval)
unfolding new_registry
new_registry-Inv (pos zero) = record { owners = tt }
new_registry-Inv (pos (suc n)) = record { owners = tt }
new_registry-Inv (negsuc n) = record { owners = tt }

find_owner :
    (id : ℕ) (workers : List WorkerState) (w : WorkerState)
    → All (λ w. valid_binding w.id w.owner ≡ true) workers
    → find_worker id workers ≡ some w
    → (w.id ≡ id) × (w.owner ≡ id)
unfolding find_worker find_key valid_binding
find_owner id [] w h e = cc
find_owner id (x ∷ workers) w h e = ground (arith, h.0, find_owner id workers w h.1)

-- The test of the playback owner never refuses.
playback_owner :
    (r : Registry)
    → Inv r
    → all_bound required_worker_ids r.workers ≡ true
    → owned_by owner_library_scheduler (find_worker worker_playback r.workers) ≡ true
unfolding all_bound
playback_owner r v bound = go (find_worker 5 r.workers) refl
  where
    go : (o : Option WorkerState) → find_worker 5 r.workers ≡ o → owned_by 5 o ≡ true
    go none e = absurd (ground (arith, bound, e))
    go (some w) e = (==_iff w.owner 5).1 (find_owner 5 r.workers w v.owners e).1

-- A seal that is decided by whether all required workers are bound.
abbrev sealed_if : Bool → Registry → Registry × Option BindError
sealed_if true r = (record r { sealed = true }, none)
sealed_if false r = (r, some incomplete_binding)

decided :
    (a b c : Bool) (r : Registry)
    → a ≡ false
    → (b ≡ true → c ≡ true)
    → (if a
        then (r, some registry_sealed)
        else if not b
        then (r, some incomplete_binding)
        else if not c
        then (r, some invalid_binding)
        else (record r { sealed = true }, none))
      ≡ sealed_if b r
decided true b c r h k = cc
decided false false c r h k = refl
decided false true true r h k = refl
decided false true false r h k = absurd (contradiction (k refl))
  where
    contradiction : false ≡ true → ⊥
    contradiction e = cc

-- A worker of the list has the id.
abbrev pub IsBound : ℕ → List WorkerState → Type 0
IsBound id workers = (w : WorkerState) × Member w workers × (w.id ≡ id)

abbrev pub IsUnbound : ℕ → List WorkerState → Type 0
IsUnbound id workers = All (λ w. w.id ≢ id) workers

-- What a search for a worker finds.
abbrev Finds : ℕ → List WorkerState → Option WorkerState → Type 0
Finds id workers none = IsUnbound id workers
Finds id workers (some w) = Member w workers × (w.id ≡ id)

find_worker-Finds :
    (id : ℕ) (workers : List WorkerState) → Finds id workers (find_worker id workers)
unfolding find_worker find_key
find_worker-Finds id [] = tt
find_worker-Finds id (x ∷ workers) =
    go (x.id == id) refl (find_key worker_id id workers) (find_worker-Finds id workers)
  where
    go :
        (b : Bool)
        → (x.id == id) ≡ b
        → (o : Option WorkerState) → Finds id workers o
        → Finds id (x ∷ workers) (if b then some x else o)
    go true e o found = (inl refl, (==_iff x.id id).0 e)
    go false e none found = (ground (arith, e), found)
    go false e (some w) found = (inr found.0, found.1)

all_bound-IsBound :
    (ids : List ℕ) (workers : List WorkerState)
    → (All (λ id. IsBound id workers) ids × (all_bound ids workers ≡ true))
      ⊎ ((id : ℕ) × Member id ids × IsUnbound id workers × (all_bound ids workers ≡ false))
unfolding all_bound
all_bound-IsBound [] workers = inl (tt, refl)
all_bound-IsBound (id ∷ ids) workers =
    go (find_worker id workers) (find_worker-Finds id workers) (all_bound ids workers)
      (all_bound-IsBound ids workers)
  where
    go :
        (o : Option WorkerState)
        → Finds id workers o
        → (b : Bool)
        → (All (λ id. IsBound id workers) ids × (b ≡ true))
          ⊎ ((id : ℕ) × Member id ids × IsUnbound id workers × (b ≡ false))
        → (All (λ id. IsBound id workers) (id ∷ ids) × ((is_bound o && b) ≡ true))
          ⊎ ((i : ℕ) × Member i (id ∷ ids) × IsUnbound i workers × ((is_bound o && b) ≡ false))
    go none found b rest = inr (id, inl refl, found, refl)
    go (some w) found b (inl (all, e)) = inl (((w, found.0, found.1), all), e)
    go (some w) found b (inr (i, mem, missing, e)) = inr (i, inr mem, missing, e)

-- In a registry that any history of binds and seals leaves unsealed, either each of the five ids 1
-- to 5 has a worker in its list, and a seal succeeds and does nothing but set the seal, or one of
-- these ids has none, and it is refused as incomplete with the registry as it was; its test of the
-- playback owner never refuses.
pub seal_lem :
    (interval : ℤ) (cs : List Call)
    → (run (new_registry interval) cs).sealed ≡ false
    → let r = run (new_registry interval) cs in
      (All (λ id. IsBound id r.workers) (1 ∷ 2 ∷ 3 ∷ 4 ∷ 5 ∷ [])
        × (seal r ≡ (record r { sealed = true }, none)))
      ⊎ ((id : ℕ) × Member id (1 ∷ 2 ∷ 3 ∷ 4 ∷ 5 ∷ [])
          × IsUnbound id r.workers
          × (seal r ≡ (r, some incomplete_binding)))
unfolding seal
seal_lem interval cs unsealed =
    let r = run (new_registry interval) cs in
    let decision =
      decided r.sealed (all_bound required_worker_ids r.workers)
        (owned_by owner_library_scheduler (find_worker worker_playback r.workers)) r unsealed
        (playback_owner r (run-Inv (new_registry interval) cs (new_registry-Inv interval))) in
    elim (all_bound-IsBound required_worker_ids r.workers) [
      | inl (all, e) ↦ inl (all, decision ∙ ap (λ b. sealed_if b r) e)
      | inr (id, mem, missing, e) ↦ inr (id, mem, missing, decision ∙ ap (λ b. sealed_if b r) e)
    ]

-- A snapshot of an id: what the worker of that id shows, under the owner of that id, or nothing but
-- the id where no worker has it.
abbrev pub IsSnapshotOf : ℕ → List WorkerState → Snapshot → Type 0
IsSnapshotOf id workers s =
    (s.id ≡ id)
    × (((w : WorkerState) × Member w workers
          × (w.id ≡ id)
          × (s.owner ≡ id)
          × (s.phase ≡ phase_of w)
          × (s.sequence ≡ sequence_of w))
        ⊎ (IsUnbound id workers × (s.owner ≡ 0) × (s.phase ≡ 0) × (s.sequence ≡ 0)))

pub Matches : List WorkerState → List ℕ → List Snapshot → Type 0
Matches workers [] [] = Unit
Matches workers [] (s ∷ ss) = ⊥
Matches workers (id ∷ ids) [] = ⊥
Matches workers (id ∷ ids) (s ∷ ss) = IsSnapshotOf id workers s × Matches workers ids ss

snapshots_in-Matches :
    (ids : List ℕ) (r : Registry) → Inv r → Matches r.workers ids (snapshots_in ids r.workers)
unfolding Matches snapshots_in snapshot_state
snapshots_in-Matches [] r v = tt
snapshots_in-Matches (id ∷ ids) r v = (
  one (find_worker id r.workers) refl (find_worker-Finds id r.workers),
  snapshots_in-Matches ids r v,
)
  where
    one :
        (o : Option WorkerState)
        → find_worker id r.workers ≡ o
        → Finds id r.workers o
        → IsSnapshotOf id r.workers (snapshot_of id o)
    one none e missing = (refl, inr (missing, refl, refl, refl))
    one (some w) e (mem, same) =
        let (_, owner) = find_owner id r.workers w v.owners e in
        (same, inl (w, mem, same, owner, refl, refl))

-- After any history of binds and seals of a new registry, the snapshots are five, for the ids 1 to
-- 5 in this order: each shows the phase and the sequence of a worker with its id, under the owner
-- of that id, or, only where no worker has the id, the unknown owner with phase and sequence 0.
pub snapshots-Matches :
    (interval : ℤ) (cs : List Call)
    → let r = run (new_registry interval) cs in
      Matches r.workers (1 ∷ 2 ∷ 3 ∷ 4 ∷ 5 ∷ []) (snapshots r)
unfolding snapshots
snapshots-Matches interval cs =
    snapshots_in-Matches required_worker_ids (run (new_registry interval) cs)
      (run-Inv (new_registry interval) cs (new_registry-Inv interval))
