-- ===== src/Thinking/Scan.antt =====
-- What the searches find.
use design.Common.{◌≡◌, inl, inr, some, [], ◌∷◌, ◌++◌, Option-cases, arith}
use design.Thinking.{Text, strip, split_at, split_last}

strip_lem : (prefix s after : Text) → strip prefix s ≡ some after → s ≡ prefix ++ after
unfolding strip
strip_lem [] s after h = ground (arith)
strip_lem (p ∷ ps) [] after h = absurd (ground (arith))
strip_lem (p ∷ ps) (c ∷ s) after h = ground (arith, strip_lem ps s after)

-- A tag that is found stands between the two parts.
pub split_at_lem :
    (tag s before after : Text)
    → split_at tag s ≡ some (before, after)
    → s ≡ before ++ (tag ++ after)
unfolding split_at
split_at_lem tag [] before after h = absurd (ground (arith))
split_at_lem tag (c ∷ s) before after h = elim (Option-cases (strip tag (c ∷ s))) [
  | inr (x, e) ↦ ground (arith, strip_lem tag (c ∷ s) x e)
  | inl e ↦ elim (Option-cases (split_at tag s)) [
    | inl f ↦ absurd (ground (arith))
    | inr ((b, a), f) ↦ ground (arith, split_at_lem tag s b a f)
  ]
]

pub split_last_lem :
    (s before tail : Text) → split_last s ≡ some (before, tail) → s ≡ before ++ tail
unfolding split_last
split_last_lem [] before tail h = absurd (ground (arith))
split_last_lem (c ∷ s) before tail h = elim (Option-cases (split_last s)) [
  | inl f ↦ ground (arith)
  | inr ((b, a), f) ↦ ground (arith, split_last_lem s b a f)
]
