-- ===== src/Telegram/Metadata.antt =====
-- internal/telegram/journal.go: what the journal is told of an update.
-- A text is here its runes. The command of a message is read by the Telegram library, which may panic.
use lofi_bot.Prelude.{
  ℕ, ◌+◌, Bool, true, ◌&&◌, ◌||◌, [], ◌∷◌, map, Option, none, some, ltb, leb, ◌==◌, if◌then◌else◌,
  length,
}
use lofi_bot.Prelude.Int.{ℤ, pos}
use lofi_bot.Prelude.Text.{Text, codes}
use lofi_bot.Telegram.Poller.{Metadata}

abbrev pub max_journal_kind_bytes : ℕ
max_journal_kind_bytes = 32

abbrev pub max_journal_action_bytes : ℕ
max_journal_action_bytes = 64

-- unicode.IsSpace.
unfoldable pub is_space : ℕ → Bool
is_space r =
    (leb 9 r && leb r 13 || (r == 32 || (r == 133 || r == 160)))
    || ((r == 5760 || (leb 8192 r && leb r 8202))
        || ((r == 8232 || r == 8233) || (r == 8239 || (r == 8287 || r == 12288))))

unfoldable pub skip_spaces : Text → Text
unfolding is_space
skip_spaces [] = []
skip_spaces (r ∷ rs) = let rest = skip_spaces rs in if is_space r then rest else r ∷ rs

-- The spaces at the end.
unfoldable pub drop_trailing : Text → Text
unfolding is_space
drop_trailing [] = []
drop_trailing (r ∷ rs) = keep r (drop_trailing rs)
  where
    keep : ℕ → Text → Text
    keep r [] = if is_space r then [] else r ∷ []
    keep r (s ∷ ss) = r ∷ s ∷ ss

unfoldable pub trim_space : Text → Text
unfolding skip_spaces drop_trailing
trim_space s = drop_trailing (skip_spaces s)

-- A rune beyond ASCII whose lower case is beyond ASCII is left alone: no label has it either way.
-- The others are the dotted I and the sign of the kelvin.
unfoldable pub lower_rune : ℕ → ℕ
lower_rune r =
    if leb b'A' r && leb r b'Z'
    then r + 32
    else if r == 304
    then b'i'
    else if r == 8490
    then b'k'
    else r

unfoldable pub to_lower : Text → Text
unfolding lower_rune
to_lower s = map lower_rune s

unfoldable pub is_label_rune : ℕ → Bool
is_label_rune r = leb b'a' r && leb r b'z' || (leb b'0' r && leb r b'9' || (r == b'_' || r == b'-'))

unfoldable pub all_label_runes : Text → Bool
unfolding is_label_rune
all_label_runes [] = true
all_label_runes (r ∷ rs) = let rest = all_label_runes rs in is_label_rune r && rest

-- A text with a rune of several bytes is no label, so its runes are counted for its bytes.
unfoldable pub normalized : ℕ → Text → Text
unfolding all_label_runes
normalized limit [] = []
normalized limit (r ∷ rs) =
    if ltb limit (length (r ∷ rs)) then [] else if all_label_runes (r ∷ rs) then r ∷ rs else []

unfoldable pub normalize_journal_label : Text → ℕ → Text
unfolding normalized to_lower trim_space
normalize_journal_label raw limit = normalized limit (to_lower (trim_space raw))

-- The first of strings.Fields, up to the next space.
unfoldable pub until_space : Text → Text
unfolding is_space
until_space [] = []
until_space (r ∷ rs) = let rest = until_space rs in if is_space r then [] else r ∷ rest

abbrev pub colon_to_space : ℕ → ℕ
colon_to_space r = if r == b':' then 32 else r

unfoldable pub infer_callback_action : Text → Text
unfolding until_space skip_spaces
infer_callback_action data_ = until_space (skip_spaces (map colon_to_space data_))

pub data Command : Type 0 where
  no_command command_panics : Command
  command : Text → Command

pub record Message : Type 0 where
  pub message_id : ℤ
  pub from_id : Option ℤ
  pub chat_id : Option ℤ
  pub text_command : Command
  pub has_video : Bool
  pub has_document : Bool
  pub has_audio : Bool

pub record Callback : Type 0 where
  pub callback_data : Text
  pub from_id : Option ℤ
  -- The message that the button is on, with its chat.
  pub message : Option (ℤ × Option ℤ)

pub record Update : Type 0 where
  pub message : Option Message
  pub callback_query : Option Callback

-- A missing user or chat has the id 0.
abbrev pub user_id : Option ℤ → ℤ
user_id none = pos 0
user_id (some id) = id

abbrev pub media_action : Message → Text
media_action m =
    if m.has_video
    then codes "upload_video"
    else if m.has_document
    then codes "upload_document"
    else if m.has_audio
    then codes "upload_audio"
    else []

-- The action that a panic of the library leaves is the empty one.
abbrev pub message_action : Message → Command → Text
message_action m no_command = media_action m
message_action m (command c) = c
message_action m command_panics = []

abbrev pub callback_message : Option (ℤ × Option ℤ) → ℤ × ℤ
callback_message none = (pos 0, pos 0)
callback_message (some (id, chat)) = (id, user_id chat)

unfoldable pub message_metadata : Message → Metadata
message_metadata m = record {
  kind = codes "message";
  action = message_action m m.text_command;
  chat_id = user_id m.chat_id;
  message_id = m.message_id;
  actor_id = user_id m.from_id;
}

unfoldable pub callback_metadata : Callback → Metadata
unfolding infer_callback_action
callback_metadata c = record {
  kind = codes "callback_query";
  action = infer_callback_action c.callback_data;
  chat_id = (callback_message c.message).1;
  message_id = (callback_message c.message).0;
  actor_id = user_id c.from_id;
}

unfoldable pub raw_metadata : Option Message → Option Callback → Metadata
unfolding message_metadata callback_metadata
raw_metadata (some m) callback = message_metadata m
raw_metadata none (some c) = callback_metadata c
raw_metadata none none = record {
  kind = codes "unknown";
  action = [];
  chat_id = pos 0;
  message_id = pos 0;
  actor_id = pos 0;
}

unfoldable pub metadata_for_update : Update → Metadata
unfolding raw_metadata normalize_journal_label
metadata_for_update u =
    let raw = raw_metadata u.message u.callback_query in
    record raw {
      kind = normalize_journal_label raw.kind max_journal_kind_bytes;
      action = normalize_journal_label raw.action max_journal_action_bytes;
    }
