-- ===== src/ToolNames/Roundtrip.antt =====
-- The codec of any names exists, and decodes what it encodes.
use design.Common.{
  zero, Bool-cases, put, ℕ, suc, ◌+◌, ◌≤◌, ◌<◌, ◌≡◌, refl, sym, ◌∙◌, inl, inr, Bool, true, not,
  some, List, [], ◌∷◌, length, filter, eq_text_refl, has_text, Option-cases, arith,
}
use design.ToolNames.{
  Name, Codec, is_given_name, is_portable, insert_sorted, sorted, alias_of, search_alias,
  unique_alias, assign, portable_names, other_names, from_names, encode, decode,
}
use design.ToolNames.Coding.{has_text-sorted, decode-encode-returned}
use design.ToolNames.Searching.{Differ, search_alias-finds}

search_alias-more :
    (h : Name → Name) (fuel more : ℕ) (name : Name) (reserved : List Name) (attempt : ℕ) (a : Name)
    → fuel ≤ more
    → search_alias h fuel name reserved attempt ≡ some a
    → search_alias h more name reserved attempt ≡ some a
unfolding search_alias
search_alias-more h zero more name reserved attempt a le e = absurd (ground (arith))
search_alias-more h (suc fuel) zero name reserved attempt a le e = absurd (omega (arith, le))
search_alias-more h (suc fuel) (suc more) name reserved attempt a le e =
    elim (Bool-cases (has_text (alias_of h name attempt) reserved)) [
      | inl f ↦ rw f (
          search_alias-more h fuel more name reserved (suc attempt) a (omega (arith, le))
            (rw f at e))
      | inr f ↦ rw f (rw f at e)
    ]

-- An alias that is found after enough attempts, and also after more.
unique_alias-returns :
    (h : Name → Name) (bound : ℕ) (name : Name) (reserved : List Name)
    → Differ h bound name
    → length reserved < bound
    → (a : Name) × ((attempts : ℕ)
        → bound ≤ attempts
        → unique_alias h attempts name reserved ≡ some a)
unique_alias-returns h bound name reserved spread few =
    let enough = suc (length reserved) in
    elim (Option-cases (search_alias h enough name reserved 0)) [
      | inl e ↦ absurd (
          ground (
            arith,
            e,
            search_alias-finds h bound name reserved enough 0 reserved spread (omega (arith, few))
                (omega arith) (λ i above below g. g),
          ))
      | inr (a, e) ↦ (
        a,
        λ attempts le.
            search_alias-more h enough attempts name reserved 0 a (omega (arith, few, le)) e,
      )
    ]

assign-returns :
    (h : Name → Name) (bound : ℕ) (names reserved : List Name) (c : Codec)
    → ((n : Name) → has_text n names ≡ true → Differ h bound n)
    → length reserved + length names < bound
    → (d : Codec) × ((attempts : ℕ)
        → bound ≤ attempts
        → assign h attempts names reserved c ≡ some d)
unfolding assign has_text
assign-returns h bound [] reserved c spread few = (c, λ attempts le. refl)
assign-returns h bound (name ∷ names) reserved c spread few =
    let (alias, found) =
      unique_alias-returns h bound name reserved (spread name (ground (arith, eq_text_refl name)))
        (omega (arith, few)) in
    let (d, e) =
      assign-returns h bound names (alias ∷ reserved)
        (record c {
          original_to_alias = put name alias c.original_to_alias;
          alias_to_original = put alias name c.alias_to_original;
        })
        (λ n there. spread n (ground (arith, there))) (omega (arith, few)) in
    (d, λ attempts le. rw (found attempts le) (e attempts le))

length-insert_sorted : (n : Name) (ns : List Name) → length (insert_sorted n ns) ≤ suc (length ns)
unfolding insert_sorted
length-insert_sorted n [] = omega arith
length-insert_sorted n (m ∷ ns) = ground (arith, length-insert_sorted n ns)

length-sorted : (ns : List Name) → length (sorted ns) ≤ length ns
unfolding sorted
length-sorted [] = omega arith
length-sorted (n ∷ ns) = omega (arith, length-sorted ns, length-insert_sorted n (sorted ns))

length-filter : (p : Name → Bool) (ns : List Name) → length (filter p ns) ≤ length ns
unfolding filter
length-filter p [] = omega arith
length-filter p (n ∷ ns) = ground (arith, length-filter p ns)

length-filter-not :
    (p : Name → Bool) (ns : List Name)
    → length (filter p ns) + length (filter (λ n. not (p n)) ns) ≡ length ns
unfolding filter
length-filter-not p [] = refl
length-filter-not p (n ∷ ns) = ground (arith, length-filter-not p ns)

has_text-filter-name :
    (p : Name → Bool) (n : Name) (ns : List Name)
    → has_text n (filter p ns) ≡ true
    → has_text n ns ≡ true
unfolding has_text filter
has_text-filter-name p n [] h = h
has_text-filter-name p n (m ∷ ns) h = ground (arith, has_text-filter-name p n ns)

-- If for each of the names the digests of its attempts differ, as many attempts as there are names
-- and one more, then the codec of the names exists, the same for every number of attempts above that
-- of the names, and it decodes the encoding of every nonempty name among them to that name.
pub decode-encode :
    (h : Name → Name) (names : List Name)
    → ((n : Name) → has_text n names ≡ true → Differ h (suc (length names)) n)
    → (c : Codec) × ((attempts : ℕ)
        → length names < attempts
        → from_names h attempts names ≡ some c)
      × ((n : Name) → has_text n names ≡ true → is_given_name n ≡ true → decode c (encode c n) ≡ n)
unfolding from_names
decode-encode h names spread =
    let given = filter is_given_name names in
    let others : Name → Bool = λ n. not (is_portable n) in
    let (c, e) =
      assign-returns h (suc (length names)) (other_names names) (portable_names names)
        (record {
          original_to_alias = [];
          alias_to_original = [];
          unchanged_names = portable_names names;
        })
        (λ n there. spread n (
          has_text-filter-name is_given_name n names (
            has_text-filter-name others n given
              (sym (has_text-sorted n (filter others given)) ∙ there))))
        (omega (
          arith,
          length-filter is_given_name names,
          length-filter-not is_portable given,
          length-sorted (filter others given),
        )) in
    (
      c,
      λ attempts le. e attempts (omega (arith, le)),
      λ n there some'.
          decode-encode-returned h (suc (length names)) names c
            (e (suc (length names)) (omega arith)) n there some',
    )
