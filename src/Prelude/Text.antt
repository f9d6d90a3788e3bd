-- ===== src/Prelude/Text.antt =====
-- Texts as lists of bytes, with their comparison.
use Prim.Native.Char.{code}
use Prim.Native.String.{String}
use lofi_bot.Prelude.{ℕ, ◌≡◌, refl, ◌↔◌, Bool, true, false, ◌&&◌, List, [], ◌∷◌, arith, ◌==◌}

abbrev pub Text : Type 0
Text = List ℕ

-- The code points of a literal: its bytes, if it is ASCII.
abbrev pub codes : String → Text
codes String.[] = []
codes (String.◌∷◌ c s) = code c ∷ codes s

unfoldable pub text_eq : Text → Text → Bool
text_eq [] [] = true
text_eq [] (b ∷ bs) = false
text_eq (a ∷ as') [] = false
text_eq (a ∷ as') (b ∷ bs) = a == b && text_eq as' bs

pub text_eq_refl : (s : Text) → text_eq s s ≡ true
unfolding text_eq
text_eq_refl [] = refl
text_eq_refl (a ∷ s) = ground (arith, text_eq_refl s)

pub text_eq→eq : (s t : Text) → text_eq s t ≡ true → s ≡ t
unfolding text_eq
text_eq→eq [] [] h = refl
text_eq→eq [] (b ∷ t) h = ground arith
text_eq→eq (a ∷ s) [] h = ground arith
text_eq→eq (a ∷ s) (b ∷ t) h = ground (arith, text_eq→eq s t)

pub text_eq_iff : (s t : Text) → (text_eq s t ≡ true) ↔ (s ≡ t)
text_eq_iff s t = (text_eq→eq s t, λ e. subst_refl e)
  where
    subst_refl : s ≡ t → text_eq s t ≡ true
    subst_refl e = rw (← e) (text_eq_refl s)
