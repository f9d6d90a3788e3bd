-- ===== src/Library/SelectionTests.antt =====
-- Two tracks, of which the first was played before.
use lofi_bot.Prelude.{ℕ, [], ◌∷◌}
use lofi_bot.Prelude.Text.{codes}
use lofi_bot.Library.Selection.{Music, Library}

abbrev track : ℕ → Music
track n = record {
  id = n ∷ [];
  path = codes "/media/music";
  rel_path = n ∷ [];
  filename = n ∷ [];
  track = n ∷ [];
  ext = codes ".mp3";
}

abbrev two_tracks : Library
two_tracks = record { loops = []; music = track 98 ∷ track 97 ∷ [] }

abbrev first : ℕ → ℕ
first n = 0
