-- ===== src/Journal/Labels.antt =====
-- internal/journalstore/journal.go: the checks of an operation's arguments.
use lofi_bot.Prelude.{
  ℕ, ◌+◌, ◌-◌, ◌^◌, Bool, true, false, not, ◌&&◌, ◌||◌, [], ◌∷◌, ltb, leb, ◌==◌, if◌then◌else◌,
  length,
}
use lofi_bot.Prelude.Int.{ℤ, pos, negsuc}
use lofi_bot.Prelude.Text.{Text}
use lofi_bot.Journal.Rows.{
  Result, ok, err, ◌>>◌, guard, negative_id, no_successor, offset_mismatch, label_required,
  label_too_long, label_unsupported, max_owner_token_bytes,
}

abbrev pub max_int : ℕ
max_int = 2 ^ 63 - 1

-- The bytes of a rune beyond ASCII are at least 128, so the test of a rune is that of its bytes.
unfoldable pub label_byte : ℕ → Bool
label_byte r = leb b'a' r && leb r b'z' || (leb b'0' r && leb r b'9' || (r == b'_' || r == b'-'))

unfoldable pub all_label_bytes : Text → Bool
all_label_bytes [] = true
all_label_bytes (r ∷ rs) = let rest = all_label_bytes rs in label_byte r && rest

unfoldable pub validate_label : Text → ℕ → Bool → Result (Unit {0})
unfolding all_label_bytes label_byte
validate_label [] limit allow_empty = if allow_empty then ok tt else err label_required
validate_label (r ∷ rs) limit allow_empty = do
  guard (not (ltb limit (length (r ∷ rs)))) label_too_long
  guard (all_label_bytes (r ∷ rs)) label_unsupported

unfoldable pub update_successor : ℤ → Result ℕ
update_successor (negsuc n) = err negative_id
update_successor (pos id) = if id == max_int then err no_successor else ok (id + 1)

unfoldable pub validate_update_transition : ℤ → ℤ → Result (Unit {0})
validate_update_transition (negsuc n) next = err negative_id
validate_update_transition (pos id) (negsuc n) =
    if id == max_int then err no_successor else err offset_mismatch
validate_update_transition (pos id) (pos next) =
    if id == max_int
    then err no_successor
    else if next == 0 || not (id == next - 1)
    then err offset_mismatch
    else ok tt

-- A token is given, and is not too long.
unfoldable pub owner_token_fits : Text → Bool
owner_token_fits [] = false
owner_token_fits (c ∷ cs) = not (ltb max_owner_token_bytes (length (c ∷ cs)))
