-- ===== src/Library/Selection.antt =====
-- internal/library/select.go: the choice of a theme, a loop or a track.
-- The random source may be missing; it draws a number below the one it is given, as rand.Intn does.
-- Scanned assets have distinct paths, so that the order of a sort is determined.
use lofi_bot.Prelude.{
  ℕ, zero, suc, ◌≡◌, ◌⊎◌, Bool, true, false, not, ◌&&◌, ◌||◌, List, [], ◌∷◌, map, All, filter_by,
  Option, none, some, if◌then◌else◌, length, sort_by,
}
use lofi_bot.Prelude.Text.{Text, text_eq}
use lofi_bot.Library.Period.{Period, period_name}
use lofi_bot.Library.State.{text_before}

pub record Loop : Type 0 where
  pub id : Text
  pub path : Text
  pub rel_path : Text
  pub filename : Text
  pub period : Period
  pub theme : Text
  pub variant : Text
  pub ext : Text

pub record Music : Type 0 where
  pub id : Text
  pub path : Text
  pub rel_path : Text
  pub filename : Text
  pub track : Text
  pub ext : Text

pub record Library : Type 0 where
  pub loops : List Loop
  pub music : List Music

pub data Choice (A : Type 0) : Type 0 where
  chosen : A → Choice A
  invalid_random no_candidates : Choice A

abbrev pub period_eq : Period → Period → Bool
period_eq p q = text_eq (period_name p) (period_name q)

unfoldable pub has_theme : Text → List Text → Bool
has_theme theme [] = false
has_theme theme (t ∷ ts) = let rest = has_theme theme ts in text_eq t theme || rest

-- The set of the themes.
unfoldable pub distinct_themes : List Text → List Text
unfolding has_theme
distinct_themes [] = []
distinct_themes (t ∷ ts) =
    let rest = distinct_themes ts in if has_theme t rest then rest else t ∷ rest

abbrev pub loop_theme : Loop → Text
loop_theme loop = loop.theme

unfoldable pub available_themes : Library → Period → List Text
unfolding distinct_themes sort_by text_before
available_themes l period =
    sort_by text_before
      (distinct_themes (map loop_theme (filter_by (λ loop. period_eq loop.period period) l.loops)))

-- The candidate at an index; an index out of range does not occur.
unfoldable pub pick {ℓ} : {A : Type ℓ} → A → List A → ℕ → A
pick x rest zero = x
pick x [] (suc n) = x
pick x (y ∷ rest) (suc n) = pick y rest n

unfoldable pub draw_from : {A : Type 0} → (ℕ → ℕ) → List A → Choice A
unfolding pick
draw_from intn [] = no_candidates
draw_from intn (x ∷ rest) = chosen (pick x rest (intn (length (x ∷ rest))))

unfoldable pub choose_theme : Library → Period → Option (ℕ → ℕ) → Choice Text
unfolding available_themes draw_from
choose_theme l period none = invalid_random
choose_theme l period (some intn) = draw_from intn (available_themes l period)

abbrev pub matches_loop : Period → Text → Loop → Bool
matches_loop period theme loop = period_eq loop.period period && text_eq loop.theme theme

abbrev pub loop_order : Loop → Loop → Bool
loop_order a b = text_before a.rel_path b.rel_path

unfoldable pub choose_loop : Library → Period → Text → Option (ℕ → ℕ) → Choice Loop
unfolding draw_from sort_by text_before
choose_loop l period theme none = invalid_random
choose_loop l period theme (some intn) =
    draw_from intn (sort_by loop_order (filter_by (matches_loop period theme) l.loops))

abbrev pub music_order : Music → Music → Bool
music_order a b = text_before a.rel_path b.rel_path

abbrev pub or_candidates : List Music → List Music → List Music
or_candidates candidates [] = candidates
or_candidates candidates (m ∷ ms) = m ∷ ms

abbrev pub is_another : Text → Music → Bool
is_another previous_id m = not (text_eq m.id previous_id)

-- The candidates without the previous track, unless there are no others.
unfoldable pub avoid_previous : Text → List Music → List Music
avoid_previous [] candidates = candidates
avoid_previous (c ∷ cs) [] = []
avoid_previous (c ∷ cs) (m ∷ []) = m ∷ []
avoid_previous (c ∷ cs) (m ∷ n ∷ ms) =
    or_candidates (m ∷ n ∷ ms) (filter_by (is_another (c ∷ cs)) (m ∷ n ∷ ms))

unfoldable pub choose_music : Library → Text → Option (ℕ → ℕ) → Choice Music
unfolding avoid_previous draw_from sort_by text_before
choose_music l previous_id none = invalid_random
choose_music l previous_id (some intn) =
    draw_from intn (avoid_previous previous_id (sort_by music_order l.music))

-- A track that is chosen is another one, or there is no other.
abbrev pub Avoids : Text → List Music → Music → Type 0
Avoids previous_id all m =
    (previous_id ≡ [])
    ⊎ (is_another previous_id m ≡ true)
    ⊎ All (λ x. is_another previous_id x ≡ false) all
