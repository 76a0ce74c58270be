-- ===== src/Thinking/Begins.antt =====
-- Where in a text a tag stands, or begins to stand when more text comes.
use design.Common.{
  ◌⊎◌, ap, append_nil, ℕ, ◌<◌, ◌≤◌, ◌≡◌, refl, ◌∙◌, sym, inl, inr, Bool, true, false, not, ◌&&◌,
  Option, none, some, is_some, from_option, [], ◌∷◌, ◌++◌, ◌==◌, length, Option-cases, Bool-cases,
  arith,
}
use design.Thinking.{Text, strip, split_at, split_last, may_grow, starts_with}

-- A text and a tag agree as far as both go.
unfoldable pub begins : (tag : Text) → Text → Bool
begins [] s = true
begins (p ∷ ps) [] = true
begins (p ∷ ps) (c ∷ s) = p == c && begins ps s

-- No tag begins in the first text, with the second after it.
unfoldable pub unbegun : (tag content rest : Text) → Bool
unfolding begins
unbegun tag [] rest = true
unbegun tag (c ∷ s) rest = not (begins tag (c ∷ s ++ rest)) && unbegun tag s rest

-- No whole tag does.
unfoldable pub unopened : (tag content rest : Text) → Bool
unfolding strip
unopened tag [] rest = true
unopened tag (c ∷ s) rest = not (is_some (strip tag (c ∷ s ++ rest))) && unopened tag s rest

unfoldable pub has_bracket : Text → Bool
has_bracket s = is_some (split_last s)

-- A tag that begins and is not whole has all of the text's brackets.
begins-bracket :
    (tag s : Text)
    → begins tag s ≡ true
    → strip tag s ≡ none
    → has_bracket tag ≡ false
    → has_bracket s ≡ false
unfolding begins strip has_bracket split_last
begins-bracket [] s b h g = absurd (ground (arith))
begins-bracket (p ∷ ps) [] b h g = refl
begins-bracket (p ∷ ps) (c ∷ s) b h g = ground (arith, begins-bracket ps s)

-- One that begins and is not whole is the start of the tag.
begins-grows :
    (tag s : Text)
    → begins tag s ≡ true
    → strip tag s ≡ none
    → (starts_with tag s ≡ true) × (length s < length tag)
unfolding begins strip
begins-grows [] s b h = absurd (ground (arith))
begins-grows (p ∷ ps) [] b h = (refl, omega arith)
begins-grows (p ∷ ps) (c ∷ s) b h = ground (arith, begins-grows ps s)

append-bracket : (s t : Text) → has_bracket t ≡ true → has_bracket (s ++ t) ≡ true
unfolding has_bracket split_last
append-bracket [] t h = h
append-bracket (c ∷ s) t h = ground (arith, append-bracket s t h)

bracket-nil : (s : Text) → has_bracket s ≡ true → has_bracket (s ++ []) ≡ true
bracket-nil s h = rw (← append_nil s) h

is_bracket : (c : ℕ) → (c ≡ 60) ⊎ ((c == 60 ≡ false) × (60 == c ≡ false))
is_bracket c = elim (Bool-cases (c == 60)) [
  | inl e ↦ inl (ground (arith, e))
  | inr e ↦ inr (e, ground (arith, e))
]

-- A tag that a text has nowhere before the end of its first part is not whole in it.
split_at-unopened :
    (tag x y : Text)
    → ((before after : Text)
        → split_at tag (x ++ y) ≡ some (before, after)
        → length x ≤ length before)
    → unopened tag x y ≡ true
unfolding unopened split_at
split_at-unopened tag [] y h = refl
split_at-unopened tag (c ∷ x) y h = elim (Option-cases (strip tag (c ∷ x ++ y))) [
  | inr (after, e) ↦ absurd (ground (arith, h [] after (ground (arith, e))))
  | inl e ↦ ground (
    arith,
    e,
    split_at-unopened tag x y (λ b a p. ground (arith, h (c ∷ b) a (ground (arith, e, p)))),
  )
]

pub split_last-bracket :
    (s before tail : Text) → split_last s ≡ some (before, tail) → has_bracket tail ≡ true
unfolding split_last has_bracket
split_last-bracket [] before tail h = absurd (ground (arith))
split_last-bracket (c ∷ s) before tail h = elim (Option-cases (split_last s)) [
  | inr ((b, t), e) ↦ ground (arith, e, split_last-bracket s b t e)
  | inl e ↦ elim (is_bracket c) [
    | inr (f, k) ↦ absurd (ground (arith, e, f))
    | inl f ↦ let same : tail ≡ c ∷ s = ground (arith, e, f) in rw same (ground (arith, e, f))
  ]
]

module _ (ps : Text) (plain : has_bracket ps ≡ false) where
  -- Before a bracket no tag begins that is not whole.
  pub unopened-unbegun :
      (content rest : Text)
      → has_bracket rest ≡ true
      → unopened (60 ∷ ps) content rest ≡ true
      → unbegun (60 ∷ ps) content rest ≡ true
  unfolding unbegun unopened begins strip
  unopened-unbegun [] rest h g = refl
  unopened-unbegun (c ∷ s) rest h g = ground (
    arith,
    unopened-unbegun s rest h,
    append-bracket s rest h,
    begins-bracket ps (s ++ rest),
    plain,
  )

  begins-first :
      (s : Text)
      → may_grow (60 ∷ ps) s ≡ false
      → strip (60 ∷ ps) s ≡ none
      → begins (60 ∷ ps) s ≡ false
  begins-first s m h = elim (Bool-cases (begins (60 ∷ ps) s)) [
    | inr b ↦ b
    | inl b ↦ absurd (ground (arith, m, begins-grows (60 ∷ ps) s b h))
  ]

  last-grows :
      (c : ℕ) (s : Text)
      → split_last s ≡ none
      → c ≡ 60
      → from_option (split_last (c ∷ s)) true (λ (before, tail). not (may_grow (60 ∷ ps) tail))
        ≡ true
      → may_grow (60 ∷ ps) (c ∷ s ++ []) ≡ false
  unfolding split_last
  last-grows c s e f g =
      rw (← append_nil s)
        elim (Bool-cases (may_grow (60 ∷ ps) (c ∷ s))) [ inr m ↦ m | inl m ↦ ground (arith, e, f) ]

  -- Nor does one in a whole text whose last bracket does not start one.
  pub last-unbegun :
      (s : Text)
      → unopened (60 ∷ ps) s [] ≡ true
      → from_option (split_last s) true (λ (before, tail). not (may_grow (60 ∷ ps) tail)) ≡ true
      → unbegun (60 ∷ ps) s [] ≡ true
  unfolding unbegun unopened begins strip split_last has_bracket
  last-unbegun [] h g = refl
  last-unbegun (c ∷ s) h g = elim (Option-cases (split_last s)) [
    | inr ((before, tail), e) ↦ ground (
      arith,
      e,
      last-unbegun s (ground (arith)) (ground (arith, e)),
      begins-bracket ps (s ++ []),
      bracket-nil s (ground (arith, e)),
      plain,
    )
    | inl e ↦ elim (is_bracket c) [
      | inr (f, k) ↦ ground (arith, e, f, k, last-unbegun s (ground (arith)) (ground (arith, e)))
      | inl f ↦ ground (
        arith,
        begins-first (c ∷ s ++ []) (last-grows c s e f g) (ground (arith)),
        last-unbegun s (ground (arith)) (ground (arith, e)),
      )
    ]
  ]

  -- Nor does one in front of a bracket, when the whole text has the tag nowhere before that.
  pub before-unbegun :
      (s x y : Text) (found : Option (Text × Text))
      → s ≡ x ++ y
      → has_bracket y ≡ true
      → found ≡ split_at (60 ∷ ps) s
      → ((before after : Text) → found ≡ some (before, after) → length x ≤ length before)
      → unbegun (60 ∷ ps) x y ≡ true
  before-unbegun s x y found e b f h = unopened-unbegun x y b (
      split_at-unopened (60 ∷ ps) x y
        (λ before after p. h before after (f ∙ ap (split_at (60 ∷ ps)) e ∙ p)))

  pub all-unbegun :
      (s : Text)
      → split_at (60 ∷ ps) s ≡ none
      → from_option (split_last s) true (λ (before, tail). not (may_grow (60 ∷ ps) tail)) ≡ true
      → unbegun (60 ∷ ps) s [] ≡ true
  all-unbegun s e g =
      last-unbegun s
        (split_at-unopened (60 ∷ ps) s []
          (λ b a p. absurd (ground (arith, e, sym (ap (split_at (60 ∷ ps)) (append_nil s)), p))))
        g
