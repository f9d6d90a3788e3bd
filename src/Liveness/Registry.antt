-- ===== src/Liveness/Registry.antt =====
-- internal/liveness/liveness.go: Registry, which gives each mandatory worker its single owner.
-- A nil registry is not modelled.
pub mod Owners
use lofi_bot.Prelude.{
  ℕ, zero, suc, ◌+◌, ◌*◌, ◌≤◌, ◌<◌, ◌≡◌, refl, ap, sym, ◌∙◌, arith, Bool, true, false, not, ◌&&◌,
  ◌||◌, List, [], ◌∷◌, Option, none, some, ltb, leb, ◌==◌, if◌then◌else◌, All, find_key,
  find_key-id, ◌⊎◌, inl, inr, ==_iff,
}
use lofi_bot.Prelude.Int.{ℤ, pos, negsuc}
use lofi_bot.Liveness.Worker.{WorkerState, Snapshot, snapshot_state}

abbrev pub default_progress_interval : ℕ
default_progress_interval = 10000000000

-- The constants of WorkerID and of Owner are numbered alike, 0 for an unknown one.
abbrev pub worker_playback : ℕ
worker_playback = 5

abbrev pub owner_library_scheduler : ℕ
owner_library_scheduler = 5

abbrev pub required_worker_ids : List ℕ
required_worker_ids = 1 ∷ 2 ∷ 3 ∷ 4 ∷ 5 ∷ []

pub data BindError : Type 0 where
  invalid_binding duplicate_binding incomplete_binding registry_sealed : BindError

pub record Registry : Type 0 where
  pub workers : List WorkerState
  pub progress_interval : ℕ
  pub sealed : Bool

unfoldable pub new_registry : ℤ → Registry
new_registry (pos zero) = record {
  workers = [];
  progress_interval = default_progress_interval;
  sealed = false;
}
new_registry (pos (suc n)) = record { workers = []; progress_interval = suc n; sealed = false }
new_registry (negsuc n) = record {
  workers = [];
  progress_interval = default_progress_interval;
  sealed = false;
}

abbrev pub worker_id : WorkerState → ℕ
worker_id w = w.id

unfoldable pub find_worker : ℕ → List WorkerState → Option WorkerState
find_worker id workers = find_key worker_id id workers

abbrev pub is_bound : Option WorkerState → Bool
is_bound none = false
is_bound (some w) = true

unfoldable pub valid_binding : ℕ → ℕ → Bool
valid_binding id owner =
    (id == 1 && owner == 1)
    || ((id == 2 && owner == 2)
        || ((id == 3 && owner == 3) || ((id == 4 && owner == 4) || (id == 5 && owner == 5))))

unfoldable pub new_worker : ℕ → ℕ → WorkerState
new_worker id owner = record {
  id = id;
  owner = owner;
  value = 0;
  scope_base = 0;
  next_scope_token = 0;
  active = [];
}

-- The error, if there is one.
unfoldable pub bind : ℕ → ℕ → Registry → Registry × Option BindError
unfolding valid_binding find_worker new_worker
bind id owner r =
    if not (valid_binding id owner)
    then (r, some invalid_binding)
    else if r.sealed
    then (r, some registry_sealed)
    else if is_bound (find_worker id r.workers)
    then (r, some duplicate_binding)
    else (record r { workers = new_worker id owner ∷ r.workers }, none)

unfoldable pub all_bound : List ℕ → List WorkerState → Bool
unfolding find_worker
all_bound [] workers = true
all_bound (id ∷ ids) workers =
    let rest = all_bound ids workers in is_bound (find_worker id workers) && rest

abbrev owned_by : ℕ → Option WorkerState → Bool
owned_by owner none = false
owned_by owner (some w) = w.owner == owner

unfoldable pub seal : Registry → Registry × Option BindError
unfolding all_bound
seal r =
    if r.sealed
    then (r, some registry_sealed)
    else if not (all_bound required_worker_ids r.workers)
    then (r, some incomplete_binding)
    else if not (owned_by owner_library_scheduler (find_worker worker_playback r.workers))
    then (r, some invalid_binding)
    else (record r { sealed = true }, none)

abbrev pub snapshot_of : ℕ → Option WorkerState → Snapshot
snapshot_of id none = record { id = id; owner = 0; phase = 0; sequence = 0 }
snapshot_of id (some w) = snapshot_state w

pub snapshots_in : List ℕ → List WorkerState → List Snapshot
snapshots_in [] workers = []
snapshots_in (id ∷ ids) workers = snapshot_of id (find_worker id workers) ∷ snapshots_in ids workers

pub snapshots : Registry → List Snapshot
unfolding snapshots_in
snapshots r = snapshots_in required_worker_ids r.workers

pub data Call : Type 0 where
  binds : ℕ → ℕ → Call
  seals : Call

unfoldable pub step : Registry → Call → Registry
unfolding bind seal
step r (binds id owner) = (bind id owner r).0
step r seals = (seal r).0

unfoldable pub run : Registry → List Call → Registry
unfolding step
run r [] = r
run r (c ∷ cs) = run (step r c) cs
