-- ===== src/ToolNames/Samples.antt =====
-- The names "a b" and "a:b", whose first aliases are the same under a small checksum.
use design.Common.{
  ◌<◌, length, ℕ, zero, suc, ◌+◌, ◌%◌, ◌≡◌, inl, inr, refl, true, some, List, [], ◌∷◌, eq_text,
  text-cases, has_text, arith,
}
use design.ToolNames.{
  Name, Codec, from_names, encode, decode, is_portable, is_given_name, take, digits, all_portable,
}
use design.ToolNames.Searching.{Differ}
use design.ToolNames.Roundtrip.{decode-encode}
use design.ToolNames.Portable.{Hexadecimal, encode-is_portable}

unfoldable total : Name → ℕ
total [] = 0
total (c ∷ s) = c + total s

unfoldable checksum : Name → Name
unfolding total
checksum s = (97 + total s % 26) ∷ []

abbrev a_b : Name
a_b = 97 ∷ 32 ∷ 98 ∷ []

abbrev a_colon_b : Name
a_colon_b = 97 ∷ 58 ∷ 98 ∷ []

abbrev names : List Name
names = a_b ∷ a_colon_b ∷ []

-- "a_b_t" and "a_b_q".
abbrev codec : Codec
codec = record {
  original_to_alias =
      (a_b, 97 ∷ 95 ∷ 98 ∷ 95 ∷ 116 ∷ []) ∷ (a_colon_b, 97 ∷ 95 ∷ 98 ∷ 95 ∷ 113 ∷ []) ∷ [];
  alias_to_original =
      (97 ∷ 95 ∷ 98 ∷ 95 ∷ 116 ∷ [], a_b) ∷ (97 ∷ 95 ∷ 98 ∷ 95 ∷ 113 ∷ [], a_colon_b) ∷ [];
  unchanged_names = [];
}

names-codec : from_names checksum 3 names ≡ some codec
unfolding from_names checksum all_portable
names-codec = refl

a_b-Differ : Differ checksum 3 a_b
unfolding checksum take eq_text digits
a_b-Differ zero zero h g = absurd (omega (arith, h))
a_b-Differ zero (suc zero) h g = refl
a_b-Differ zero (suc (suc zero)) h g = refl
a_b-Differ (suc zero) (suc (suc zero)) h g = refl
a_b-Differ (suc i) zero h g = absurd (omega (arith, h))
a_b-Differ (suc i) (suc zero) h g = absurd (omega (arith, h))
a_b-Differ (suc (suc i)) (suc (suc zero)) h g = absurd (omega (arith, h))
a_b-Differ i (suc (suc (suc j))) h g = absurd (omega (arith, g))

a_colon_b-Differ : Differ checksum 3 a_colon_b
unfolding checksum take eq_text digits
a_colon_b-Differ zero zero h g = absurd (omega (arith, h))
a_colon_b-Differ zero (suc zero) h g = refl
a_colon_b-Differ zero (suc (suc zero)) h g = refl
a_colon_b-Differ (suc zero) (suc (suc zero)) h g = refl
a_colon_b-Differ (suc i) zero h g = absurd (omega (arith, h))
a_colon_b-Differ (suc i) (suc zero) h g = absurd (omega (arith, h))
a_colon_b-Differ (suc (suc i)) (suc (suc zero)) h g = absurd (omega (arith, h))
a_colon_b-Differ i (suc (suc (suc j))) h g = absurd (omega (arith, g))

names-Differ : (n : Name) → has_text n names ≡ true → Differ checksum 3 n
unfolding has_text
names-Differ n there = elim (text-cases a_b n) [
  | inl e ↦ rw (← e) a_b-Differ
  | inr e ↦ elim (text-cases a_colon_b n) [
    | inl f ↦ rw (← f) a_colon_b-Differ
    | inr f ↦ absurd (ground (arith, e, f, there))
  ]
]

checksum-Hexadecimal : Hexadecimal checksum
unfolding checksum all_portable
checksum-Hexadecimal s = ground (arith)

decode-encode_example :
    (c : Codec) × ((attempts : ℕ)
      → length names < attempts
      → from_names checksum attempts names ≡ some c)
    × ((n : Name) → has_text n names ≡ true → is_given_name n ≡ true → decode c (encode c n) ≡ n)
decode-encode_example = decode-encode checksum names names-Differ

encode-is_portable_example :
    (c : Codec) × ((attempts : ℕ)
      → length names < attempts
      → from_names checksum attempts names ≡ some c)
    × ((n : Name)
        → has_text n names ≡ true
        → is_given_name n ≡ true
        → is_portable (encode c n) ≡ true)
encode-is_portable_example = encode-is_portable checksum names checksum-Hexadecimal names-Differ
