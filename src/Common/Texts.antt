-- ===== src/Common/Texts.antt =====
-- Texts as lists of characters, their comparison, and dictionaries that have them as keys.
use Prim.Native.Nat.{ℕ}
use mathlib.Core.Path.{◌≡◌, refl}
use mathlib.Core.Logic.{◌⊎◌, inl, inr}
use mathlib.Core.Bool.{Bool, true, false, ◌&&◌, ◌||◌}
use mathlib.Core.Option.{Option, none, some}
use mathlib.Core.List.{List, [], ◌∷◌}
use native.Mathlib.Omega.{arith}
use design.Common.Tests.{ltb, ◌==◌, if◌then◌else◌, Bool-cases}

-- The equality and the order of texts, character by character.
unfoldable pub eq_text : List ℕ → List ℕ → Bool
eq_text [] [] = true
eq_text (c ∷ s) (d ∷ t) = c == d && eq_text s t
eq_text _ _ = false

unfoldable pub less_text : List ℕ → List ℕ → Bool
less_text [] [] = false
less_text [] (d ∷ t) = true
less_text (c ∷ s) [] = false
less_text (c ∷ s) (d ∷ t) = ltb c d || (c == d && less_text s t)

pub eq_text_refl : (s : List ℕ) → eq_text s s ≡ true
unfolding eq_text
eq_text_refl [] = refl
eq_text_refl (c ∷ s) = ground (arith, eq_text_refl s)

pub eq_text_sound : (s t : List ℕ) → eq_text s t ≡ true → s ≡ t
unfolding eq_text
eq_text_sound [] [] h = refl
eq_text_sound [] (d ∷ t) h = absurd (ground (arith))
eq_text_sound (c ∷ s) [] h = absurd (ground (arith))
eq_text_sound (c ∷ s) (d ∷ t) h = ground (arith, eq_text_sound s t)

-- Two texts are equal, or the test says that they are not.
pub text-cases : (s t : List ℕ) → (s ≡ t) ⊎ (eq_text s t ≡ false)
text-cases s t = elim (Bool-cases (eq_text s t)) [
  | inl e ↦ inl (eq_text_sound s t e)
  | inr e ↦ inr e
]

-- `text in collection`.
unfoldable pub has_text : List ℕ → List (List ℕ) → Bool
has_text s [] = false
has_text s (t ∷ ts) = eq_text t s || has_text s ts

module _ {ℓ} {V : Type ℓ} where
  unfoldable pub get : List ℕ → List (List ℕ × V) → Option V
  get s [] = none
  get s ((t, v) ∷ rest) = if eq_text t s then some v else get s rest

  unfoldable pub put : List ℕ → V → List (List ℕ × V) → List (List ℕ × V)
  put s v [] = (s, v) ∷ []
  put s v ((t, w) ∷ rest) = if eq_text t s then (t, v) ∷ rest else (t, w) ∷ put s v rest

  pub get-put :
      (s t : List ℕ) (v : V) (d : List (List ℕ × V))
      → get t (put s v d) ≡ (if eq_text s t then some v else get t d)
  unfolding get put
  get-put s t v [] = refl
  get-put s t v ((u, w) ∷ d) = elim (text-cases u s) [
    | inl e ↦ ground (arith, e, eq_text_refl s)
    | inr e ↦ elim (text-cases u t) [
      | inl f ↦ elim (text-cases s t) [
        | inl g ↦ absurd (ground (arith, rw (f, g) at e, eq_text_refl t))
        | inr g ↦ rw (e, f, eq_text_refl t, g) refl
      ]
      | inr f ↦ rw (e, f) (get-put s t v d)
    ]
  ]
