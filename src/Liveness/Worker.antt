-- ===== src/Liveness/Worker.antt =====
-- internal/liveness/liveness.go: workerState, its scopes, and the methods of Worker and ScopeHandle.
-- A method that panics returns `none`, and its state is as it was. (The source has set the base
-- phase by the time it panics because all 2 ^ 64 tokens are used up.) A handle or a worker with no
-- state does nothing in the source, and is not modelled.
use lofi_bot.Prelude.{
  ℕ, ◌+◌, ◌-◌, ◌*◌, ◌/◌, ◌%◌, ◌^◌, ◌||◌, ◌&&◌, Bool, false, not, List, [], ◌∷◌, Option, none, some,
  ltb, leb, ◌==◌, if◌then◌else◌, length,
}

-- The type Phase is a byte; these are its constants.
abbrev pub phase_unknown : ℕ
phase_unknown = 0

abbrev pub phase_starting : ℕ
phase_starting = 1

abbrev pub phase_operation : ℕ
phase_operation = 2

abbrev pub phase_media_copy : ℕ
phase_media_copy = 7

abbrev pub phase_library_scan : ℕ
phase_library_scan = 10

abbrev pub is_valid : ℕ → Bool
is_valid phase = leb phase_starting phase && leb phase phase_library_scan

-- The four special phases stand at the end of the list.
abbrev pub is_special : ℕ → Bool
is_special phase = leb phase_media_copy phase && leb phase phase_library_scan

abbrev pub sequence_size : ℕ
sequence_size = 2 ^ 56

abbrev pub sequence_mask : ℕ
sequence_mask = 2 ^ 56 - 1

abbrev pub max_active_scopes : ℕ
max_active_scopes = 16

pub record ActiveScope : Type 0 where
  pub token : ℕ
  pub phase : ℕ

-- The active scopes are listed with the newest first; the free slots of the array are left out.
-- The value holds the phase above 56 bits of sequence.
pub record WorkerState : Type 0 where
  pub id : ℕ
  pub owner : ℕ
  pub value : ℕ
  pub scope_base : ℕ
  pub next_scope_token : ℕ
  pub active : List ActiveScope

pub record Snapshot : Type 0 where
  pub id : ℕ
  pub owner : ℕ
  pub phase : ℕ
  pub sequence : ℕ

abbrev pub phase_of : WorkerState → ℕ
phase_of s = s.value / sequence_size

abbrev pub sequence_of : WorkerState → ℕ
sequence_of s = s.value % sequence_size

unfoldable pub snapshot_state : WorkerState → Snapshot
snapshot_state s = record {
  id = s.id;
  owner = s.owner;
  phase = phase_of s;
  sequence = sequence_of s;
}

-- The sequence saturates.
abbrev pub next_sequence : ℕ → ℕ
next_sequence sequence = if ltb sequence sequence_mask then sequence + 1 else sequence

-- The phase and the sequence have no bit in common: their union is their sum.
unfoldable pub publish : ℕ → WorkerState → WorkerState
publish phase s = record s {
  value = phase * sequence_size % 2 ^ 64 + next_sequence (sequence_of s);
}

unfoldable pub clear_scopes : WorkerState → WorkerState
clear_scopes s = record s { scope_base = phase_unknown; active = [] }

-- The result is the sequence that was published.
unfoldable pub advance : ℕ → WorkerState → Option (WorkerState × ℕ)
unfolding publish clear_scopes
advance phase s =
    let s' = publish phase (clear_scopes s) in
    if is_valid phase then some (s', sequence_of s') else none

pub record ScopeHandle : Type 0 where
  pub token : ℕ
  pub phase : ℕ

-- The phase that the last close returns to.
abbrev pub base_phase : ℕ → ℕ
base_phase phase = if is_valid phase && not (is_special phase) then phase else phase_operation

abbrev pub entered_base : WorkerState → List ActiveScope → ℕ
entered_base s [] = base_phase (phase_of s)
entered_base s (a ∷ as') = s.scope_base

unfoldable pub scope : ℕ → WorkerState → Option (WorkerState × ScopeHandle)
unfolding publish
scope phase s =
    let token = (s.next_scope_token + 1) % 2 ^ 64 in
    let entered = record s {
      scope_base = entered_base s s.active;
      next_scope_token = token;
      active = record { token = token; phase = phase } ∷ s.active;
    } in
    if not (is_special phase)
    then none
    else if length s.active == max_active_scopes
    then none
    else if token == 0
    then none
    else some (publish phase entered, record { token = token; phase = phase })

unfoldable pub holds_token : ℕ → List ActiveScope → Bool
holds_token token [] = false
holds_token token (a ∷ as') = let rest = holds_token token as' in a.token == token || rest

unfoldable pub without_token : ℕ → List ActiveScope → List ActiveScope
without_token token [] = []
without_token token (a ∷ as') =
    let rest = without_token token as' in if a.token == token then as' else a ∷ rest

-- The newest scope that is left is in effect, or else the base.
abbrev pub restored : WorkerState → List ActiveScope → WorkerState
restored s [] = publish s.scope_base (record s { scope_base = phase_unknown; active = [] })
restored s (a ∷ as') = publish a.phase (record s { active = a ∷ as' })

unfoldable pub restore_scope : ℕ → WorkerState → WorkerState
unfolding holds_token without_token publish
restore_scope token s =
    if holds_token token s.active then restored s (without_token token s.active) else s

unfoldable pub close : ScopeHandle → WorkerState → WorkerState
unfolding restore_scope
close h s = if h.token == 0 then s else restore_scope h.token s

abbrev pub in_effect : ScopeHandle → List ActiveScope → Bool
in_effect h [] = false
in_effect h (a ∷ as') = a.token == h.token && a.phase == h.phase

-- The result is the sequence, published or not.
unfoldable pub checkpoint : ScopeHandle → WorkerState → WorkerState × ℕ
unfolding publish
checkpoint h s =
    let s' = publish h.phase s in
    if h.token == 0
    then (s, 0)
    else if in_effect h s.active
    then (s', sequence_of s')
    else (s, sequence_of s)
