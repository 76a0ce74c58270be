-- ===== src/Common/Keys.antt =====
-- Texts that the code only compares: message ids, claim ids, session ids, request ids.
-- Such a text is its number in an enumeration of all texts that starts with the empty text.
use Prim.Native.Nat.{ℕ}
use mathlib.Core.Path.{◌≡◌, refl}
use native.Mathlib.Omega.{arith}
use mathlib.Core.Bool.{Bool, false, not, ◌||◌}
use mathlib.Core.Option.{Option, none, some}
use mathlib.Core.List.{List, [], ◌∷◌, map}
use design.Common.Tests.{◌==◌, if◌then◌else◌}

abbrev pub Key : Type 0
Key = ℕ

abbrev pub empty_text : Key
empty_text = 0

-- The truth value of a text.
abbrev pub is_text : Key → Bool
is_text k = not (k == empty_text)

-- The truth value of `str | None`.
abbrev pub is_given : Option Key → Bool
is_given none = false
is_given (some k) = is_text k

-- `item in collection`.
unfoldable pub contains : Key → List Key → Bool
contains k [] = false
contains k (x ∷ xs) = x == k || contains k xs

module _ {ℓ} {V : Type ℓ} where
  -- A `dict` in insertion order. An update keeps the position of its key.
  unfoldable pub lookup : (key : Key) (dict : List (Key × V)) → Option V
  lookup key [] = none
  lookup key ((first, value) ∷ rest) = if first == key then some value else lookup key rest

  unfoldable pub insert : (key : Key) (value : V) (dict : List (Key × V)) → List (Key × V)
  insert key value [] = (key, value) ∷ []
  insert key value ((first, old) ∷ rest) =
      if first == key then (first, value) ∷ rest else (first, old) ∷ insert key value rest

  unfoldable pub remove : (key : Key) (dict : List (Key × V)) → List (Key × V)
  remove key [] = []
  remove key ((first, old) ∷ rest) =
      if first == key then remove key rest else (first, old) ∷ remove key rest

  abbrev pub keys : List (Key × V) → List Key
  keys dict = map (λ e. e.0) dict

  abbrev pub values : List (Key × V) → List V
  values dict = map (λ e. e.1) dict

  pub lookup-insert :
      (key other : Key) (value : V) (dict : List (Key × V))
      → lookup other (insert key value dict)
        ≡ (if key == other then some value else lookup other dict)
  unfolding lookup insert
  lookup-insert key other value [] = refl
  lookup-insert key other value (entry ∷ rest) = ground (arith, lookup-insert key other value rest)

  pub lookup-remove :
      (key other : Key) (dict : List (Key × V))
      → lookup other (remove key dict) ≡ (if key == other then none else lookup other dict)
  unfolding lookup remove
  lookup-remove key other [] = ground arith
  lookup-remove key other (entry ∷ rest) = ground (arith, lookup-remove key other rest)
