-- ===== src/ToolNames/Searching.antt =====
-- The search for a free alias ends.
use design.Common.{
  ℕ, zero, suc, ◌+◌, ◌≤◌, ◌<◌, ◌≡◌, refl, ◌∙◌, inl, inr, true, false, not, is_some, List, [], ◌∷◌,
  ◌++◌, length, filter, eq_text, eq_text_refl, text-cases, has_text, Bool-cases, arith,
}
use design.ToolNames.{Name, readable, take, digest_length, digest_input, alias_of, search_alias}

-- A set without one of its texts.
drop_text : Name → List Name → List Name
drop_text s ts = filter (λ t. not (eq_text t s)) ts

has_text-drop_text :
    (s t : Name) (ts : List Name)
    → eq_text s t ≡ false
    → has_text t (drop_text s ts) ≡ has_text t ts
unfolding has_text drop_text filter
has_text-drop_text s t [] h = refl
has_text-drop_text s t (u ∷ ts) h = elim (text-cases u s) [
  | inl e ↦ rw (e, eq_text_refl s, h) (has_text-drop_text s t ts h)
  | inr e ↦ rw e (ground (arith, has_text-drop_text s t ts h))
]

length-drop_text : (s : Name) (ts : List Name) → length (drop_text s ts) ≤ length ts
unfolding drop_text filter
length-drop_text s [] = omega (arith)
length-drop_text s (u ∷ ts) = ground (arith, length-drop_text s ts)

length-drop_text-lt :
    (s : Name) (ts : List Name) → has_text s ts ≡ true → length (drop_text s ts) < length ts
unfolding has_text drop_text filter
length-drop_text-lt s [] h = absurd (ground (arith))
length-drop_text-lt s (u ∷ ts) h = elim (Bool-cases (eq_text u s)) [
  | inl e ↦ rw e (ground (arith, length-drop_text s ts))
  | inr e ↦ rw e (ground (arith, length-drop_text-lt s ts (rw e at h)))
]

eq_text-append : (s t u : Name) → eq_text (s ++ t) (s ++ u) ≡ eq_text t u
unfolding eq_text
eq_text-append [] t u = refl
eq_text-append (c ∷ s) t u = ground (arith, eq_text-append s t u)

-- The digests of a name's attempts below the bound differ.
abbrev pub Differ : (Name → Name) → (bound : ℕ) → Name → Type 0
Differ h bound name =
    (i j : ℕ)
    → i < j
    → j < bound
    → eq_text (take digest_length (h (digest_input name i)))
        (take digest_length (h (digest_input name j)))
      ≡ false

alias_of-apart :
    (h : Name → Name) (bound : ℕ) (name : Name) (i j : ℕ)
    → Differ h bound name
    → i < j
    → j < bound
    → eq_text (alias_of h name i) (alias_of h name j) ≡ false
unfolding alias_of eq_text
alias_of-apart h bound name i j spread below under =
    eq_text-append (readable name) _ _ ∙ ground (arith, spread i j below under)

-- With more attempts than reserved names that they may hit, one is free.
pub search_alias-finds :
    (h : Name → Name) (bound : ℕ) (name : Name) (reserved : List Name) (fuel attempt : ℕ)
    (left : List Name)
    → Differ h bound name
    → attempt + fuel ≤ bound
    → length left < fuel
    → ((i : ℕ)
        → attempt ≤ i
        → i < attempt + fuel
        → has_text (alias_of h name i) reserved ≡ true
        → has_text (alias_of h name i) left ≡ true)
    → is_some (search_alias h fuel name reserved attempt) ≡ true
unfolding search_alias
search_alias-finds h bound name reserved zero attempt left spread under few hit =
    absurd (omega (arith, few))
search_alias-finds h bound name reserved (suc fuel) attempt left spread under few hit =
    let a = alias_of h name attempt in
    elim (Bool-cases (has_text a reserved)) [
      | inr e ↦ rw e refl
      | inl e ↦ rw e (
          search_alias-finds h bound name reserved fuel (suc attempt) (drop_text a left) spread
            (omega (arith, under))
            (omega
              (arith, few, length-drop_text-lt a left (hit attempt (omega arith) (omega arith) e)))
            (λ i above below g.
              has_text-drop_text a (alias_of h name i) left (
                alias_of-apart h bound name attempt i spread (omega (arith, above))
                  (omega (arith, below, under)))
              ∙ hit i (omega (arith, above)) (omega (arith, below)) g))
    ]
