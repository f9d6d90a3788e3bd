-- ===== src/Telegram/Handling.antt =====
-- internal/telegram/service.go: one update's handler within its time, its leases, and the offsets.
-- What the concurrent handler and the clocks did is data: which branch each select of
-- `handleUpdateBounded` took, and what the contexts said when they were asked.
use lofi_bot.Prelude.{
  ℕ, zero, suc, ◌+◌, ◌-◌, ◌*◌, ◌%◌, ◌^◌, Bool, true, false, List, [], ◌∷◌, Option, none, some, ltb,
  ◌==◌, if◌then◌else◌, length, take,
}
use lofi_bot.Prelude.Int.{ℤ, pos, negsuc}
use lofi_bot.Prelude.Text.{Text}

abbrev pub second : ℕ
second = 1000000000

abbrev pub default_update_processing_timeout : ℕ
default_update_processing_timeout = 300 * second

abbrev pub default_update_handler_stop_grace : ℕ
default_update_handler_stop_grace = 5 * second

abbrev pub default_update_lease_buffer : ℕ
default_update_lease_buffer = 30 * second

abbrev pub default_stuck_owner_lease : ℕ
default_stuck_owner_lease = 10 * second

abbrev pub max_update_handler_failures : ℕ
max_update_handler_failures = 3

abbrev pub max_journal_error_bytes : ℕ
max_journal_error_bytes = 1024

abbrev pub max_update_id : ℕ
max_update_id = 2 ^ 63 - 1

-- The service's durations, which may be unset or negative.
pub record Timeouts : Type 0 where
  pub update_processing_timeout : ℤ
  pub update_handler_stop_grace : ℤ
  pub update_lease_buffer : ℤ
  pub stuck_owner_lease : ℤ

abbrev pub or_default : ℕ → ℤ → ℕ
or_default default (pos zero) = default
or_default default (pos (suc n)) = suc n
or_default default (negsuc n) = default

-- The sum of the three durations, before it wraps.
abbrev pub lease_length : Timeouts → ℕ
lease_length t =
    or_default default_update_processing_timeout t.update_processing_timeout
    + or_default default_update_handler_stop_grace t.update_handler_stop_grace
    + or_default default_update_lease_buffer t.update_lease_buffer

-- The sum is a signed number of 64 bits; a time before 1970 is taken as 1970.
unfoldable pub update_lease_until : Timeouts → ℕ → ℕ
update_lease_until t now =
    let wrapped = lease_length t % 2 ^ 64 in
    if ltb wrapped (2 ^ 63) then now + wrapped else now - (2 ^ 64 - wrapped)

unfoldable pub effective_stuck_owner_lease : Timeouts → ℕ
effective_stuck_owner_lease t = or_default default_stuck_owner_lease t.stuck_owner_lease

-- What the handler came back with: nothing, an error, or a panic that was recovered.
pub data HandlerResult : Type 0 where
  succeeded : HandlerResult
  reported panicked : Text → HandlerResult

-- What a select of `handleUpdateBounded` saw: the handler's result, or that it still runs.
pub data Observed : Type 0 where
  returned : HandlerResult → Observed
  still_running : Observed

pub record Handling : Type 0 where
  pub first : Observed
  pub second_chance : Observed
  -- The parent context is cancelled when the handler is done, and when `Run` looks.
  pub cancelled : Bool
  pub cancelled_later : Bool
  pub deadline_exceeded : Bool

pub data UpdateError : Type 0 where
  update_cancelled update_stuck : UpdateError
  update_failed update_panicked : Text → UpdateError

abbrev pub handler_error : HandlerResult → Option UpdateError
handler_error succeeded = none
handler_error (reported e) = some (update_failed e)
handler_error (panicked e) = some (update_panicked e)

abbrev pub handler_done : Bool → Bool → HandlerResult → Bool × Option UpdateError
handler_done true deadline_exceeded r = (false, some update_cancelled)
handler_done false deadline_exceeded r = (deadline_exceeded, handler_error r)

abbrev pub after_stop : Bool → Bool → Observed → Bool × Option UpdateError
after_stop cancelled deadline_exceeded (returned r) = handler_done cancelled deadline_exceeded r
after_stop cancelled deadline_exceeded still_running = (false, some update_stuck)

abbrev pub bounded : Observed → Handling → Bool × Option UpdateError
bounded (returned r) h = handler_done h.cancelled h.deadline_exceeded r
bounded still_running h = after_stop h.cancelled h.deadline_exceeded h.second_chance

-- Whether the time ran out, and the error.
unfoldable pub handle_update_bounded : Handling → Bool × Option UpdateError
handle_update_bounded h = bounded h.first h

unfoldable pub next_telegram_offset : ℤ → Option ℕ
next_telegram_offset (negsuc n) = none
next_telegram_offset (pos id) = if id == max_update_id then none else some (id + 1)

module _ {Update : Type 0} (update_id : Update → ℤ) where
  pub record Actionable : Type 0 where
    pub update : Update
    pub next_offset : ℕ

  abbrev pub keep_actionable :
      Option ℕ → Bool → Update → Option (List Actionable) → Option (List Actionable)
  keep_actionable none old u rest = none
  keep_actionable (some next) old u none = none
  keep_actionable (some next) true u (some rest) = some rest
  keep_actionable (some next) false u (some rest) =
      some (record { update = u; next_offset = next } ∷ rest)

  abbrev pub is_below : ℤ → ℕ → Bool
  is_below (negsuc n) offset = true
  is_below (pos id) offset = ltb id offset

  -- One update that cannot be followed refuses the whole response.
  unfoldable pub validate_actionable_updates : List Update → ℕ → Option (List Actionable)
  unfolding next_telegram_offset
  validate_actionable_updates [] offset = some []
  validate_actionable_updates (u ∷ us) offset =
      let rest = validate_actionable_updates us offset in
      keep_actionable (next_telegram_offset (update_id u)) (is_below (update_id u) offset) u rest

-- The width in bytes of the last rune of a text, as utf8.DecodeLastRuneInString gives it.
module _ (last_rune_width : Text → ℕ) where
  -- The loop that drops last runes, with the bytes that may be dropped as fuel.
  unfoldable pub drop_runes : ℕ → Text → Text
  drop_runes zero raw = raw
  drop_runes (suc fuel) raw =
      let rest = drop_runes fuel (take (length raw - last_rune_width raw) raw) in
      if ltb max_journal_error_bytes (length raw)
      then if last_rune_width raw == 0 then raw else rest
      else raw

  unfoldable pub bounded_journal_error : Text → Text
  unfolding drop_runes
  bounded_journal_error raw = drop_runes (length raw) raw
