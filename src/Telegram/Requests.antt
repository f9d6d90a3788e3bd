-- ===== src/Telegram/Requests.antt =====
-- What the service hands to the journal passes the journal's checks.
use lofi_bot.Prelude.{
  ℕ, zero, suc, ◌^◌, ◌+◌, ◌-◌, ◌==◌, ◌≤◌, ◌<◌, ◌≡◌, ◌∙◌, refl, sym, ap, arith, Bool, true, false,
  List, [], ◌∷◌, Option, none, some, ltb, length, take, length-take, if◌then◌else◌,
}
use lofi_bot.Prelude.Text.{Text}
use lofi_bot.Journal.Rows.{Time, ok, max_kind_bytes, max_action_bytes, max_error_bytes}
use lofi_bot.Journal.Labels.{
  max_int, validate_label, all_label_bytes, label_byte, owner_token_fits, update_successor,
}
use lofi_bot.Journal.Attempts.{check_request}
use lofi_bot.Telegram.Handling.{
  lease_length, update_lease_until, drop_runes, bounded_journal_error, max_journal_error_bytes,
}
use lofi_bot.Telegram.Poller.{Turn, Run, request_of}
use lofi_bot.Telegram.Metadata.{
  is_label_rune, all_label_runes, normalized, normalize_journal_label, Update, Message, Callback,
  raw_metadata, metadata_for_update, to_lower, trim_space,
}

same_labels : (s : Text) → all_label_runes s ≡ all_label_bytes s
unfolding all_label_runes all_label_bytes is_label_rune label_byte
same_labels [] = refl
same_labels (r ∷ rs) = rw (same_labels rs) refl

normalized-validate_label :
    (limit : ℕ) (s : Text) → validate_label (normalized limit s) limit true ≡ ok tt
unfolding normalized validate_label
normalized-validate_label limit [] = refl
normalized-validate_label limit (r ∷ rs) = ground (arith, same_labels (r ∷ rs))

-- The kind and the action of an update, whatever the update.
metadata-validate_label :
    (u : Update)
    → let m = metadata_for_update u in
      (validate_label m.kind max_kind_bytes false ≡ ok tt)
      × (validate_label m.action max_action_bytes true ≡ ok tt)
unfolding metadata_for_update normalize_journal_label validate_label all_label_bytes label_byte
metadata-validate_label u = (
  kind u.message u.callback_query,
  normalized-validate_label max_action_bytes
      (to_lower (trim_space (raw_metadata u.message u.callback_query).action)),
)
  where
    kind :
        (m : Option Message) (c : Option Callback)
        → validate_label
            (normalized max_kind_bytes (to_lower (trim_space (raw_metadata m c).kind)))
            max_kind_bytes
            false
          ≡ ok tt
    kind (some m) c = refl
    kind none (some c) = refl
    kind none none = refl

-- Whatever the update, the claim that the service makes for it passes every check of the journal's
-- arguments, if the update's id has a successor, the owner token fits, the three durations of the
-- lease sum to less than 2 ^ 63 nanoseconds, and the journal reads its clock sooner than that sum
-- after the service read its own for the lease; the check then returns the next offset.
pub request_of-check_request :
    (run : Run) (t : Turn) (u : Update) (now : Time)
    → t.update_id < max_int
    → t.metadata ≡ metadata_for_update u
    → owner_token_fits run.owner_token ≡ true
    → lease_length run.timeouts < 2 ^ 63
    → now < t.lease_from + lease_length run.timeouts
    → check_request (request_of run t) now ≡ ok (t.update_id + 1)
unfolding check_request request_of update_successor update_lease_until
request_of-check_request run t u now below same fits small early =
    let checked = metadata-validate_label u in
    let kind : validate_label t.metadata.kind max_kind_bytes false ≡ ok tt = rw same checked.0 in
    let action : validate_label t.metadata.action max_action_bytes true ≡ ok tt =
      rw same checked.1 in
    rw (kind, action, fits) (ground (arith, below, small, early))

take-take {ℓ} : {A : Type ℓ} (k m : ℕ) (xs : List A) → (n : ℕ) × (take k (take m xs) ≡ take n xs)
take-take zero m xs = (0, refl)
take-take (suc k) zero xs = (0, refl)
take-take (suc k) (suc m) [] = (0, refl)
take-take (suc k) (suc m) (x ∷ xs) = let (n, e) = take-take k m xs in (suc n, ap (λ ys. x ∷ ys) e)

take-all {ℓ} : {A : Type ℓ} (xs : List A) → take (length xs) xs ≡ xs
take-all [] = refl
take-all (x ∷ xs) = ap (λ ys. x ∷ ys) (take-all xs)

module _ (last_rune_width : Text → ℕ)
    (width : (s : Text)
      → 0 < length s
      → (0 < last_rune_width s) × (last_rune_width s ≤ length s)) where
  -- A beginning of the text that is short enough.
  abbrev pub Bounded : Text → Text → Type 0
  Bounded raw s = ((k : ℕ) × (s ≡ take k raw)) × (length s ≤ max_error_bytes)

  drop_runes-Bounded :
      (fuel : ℕ) (raw : Text)
      → length raw ≤ fuel
      → Bounded raw (drop_runes last_rune_width fuel raw)
  unfolding drop_runes
  drop_runes-Bounded zero raw enough = ((length raw, sym (take-all raw)), omega arith)
  drop_runes-Bounded (suc fuel) raw enough =
      go (ltb max_journal_error_bytes (length raw)) refl (last_rune_width raw == 0) refl
        (λ below. drop_runes-Bounded fuel (take (length raw - last_rune_width raw) raw) below)
    where
      go :
          (long : Bool)
          → ltb max_journal_error_bytes (length raw) ≡ long
          → (none_left : Bool) → (last_rune_width raw == 0) ≡ none_left
          → (length (take (length raw - last_rune_width raw) raw) ≤ fuel
              → Bounded
                  (take (length raw - last_rune_width raw) raw)
                  (drop_runes last_rune_width fuel (take (length raw - last_rune_width raw) raw)))
          → Bounded raw (
              if long
              then if none_left
                then raw
                else drop_runes last_rune_width fuel (take (length raw - last_rune_width raw) raw)
              else raw)
      go false e none_left f rest = ((length raw, sym (take-all raw)), ground (arith, e))
      go true e true f rest = absurd (ground (arith, e, f, width raw (ground (arith, e))))
      go true e false f rest =
          let given = width raw (ground (arith, e)) in
          let ((k, kept), short) =
            rest
              (omega (arith, enough, given, length-take (length raw - last_rune_width raw) raw)) in
          let (n, same) = take-take k (length raw - last_rune_width raw) raw in
          ((n, kept ∙ same), short)

  -- If a last rune has at least one byte and no more than its text, the error text that is given
  -- to the journal is a beginning of the handler's one, of at most the 1,024 bytes that the
  -- journal accepts.
  pub bounded_journal_error_lem :
      (raw : Text)
      → ((k : ℕ) × (bounded_journal_error last_rune_width raw ≡ take k raw))
        × (length (bounded_journal_error last_rune_width raw) ≤ max_error_bytes)
  unfolding bounded_journal_error
  bounded_journal_error_lem raw = drop_runes-Bounded (length raw) raw (omega arith)
