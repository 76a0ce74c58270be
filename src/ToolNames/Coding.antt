-- ===== src/ToolNames/Coding.antt =====
-- Encoding a name and decoding it again.
use design.Common.{
  ℕ, zero, suc, ◌≡◌, refl, ap, ◌∙◌, inl, inr, Bool, true, false, not, ◌||◌, none, some, is_some,
  from_option, List, [], ◌∷◌, if◌then◌else◌, filter, eq_text, eq_text_refl, text-cases, has_text,
  get, put, get-put, Bool-cases, Option-cases, arith,
}
use design.ToolNames.{
  Name, Codec, is_given_name, is_portable, insert_sorted, sorted, alias_of, search_alias,
  unique_alias, assign, portable_names, other_names, from_names, encode, decode,
}

pub has_text-filter :
    (p : Name → Bool) (n : Name) (ns : List Name)
    → p n ≡ true
    → has_text n (filter p ns) ≡ has_text n ns
unfolding has_text filter
has_text-filter p n [] h = refl
has_text-filter p n (m ∷ ns) h = elim (text-cases m n) [
  | inl e ↦ rw (e, h, eq_text_refl n) refl
  | inr e ↦ rw e (ground (arith, has_text-filter p n ns h, e))
]

has_text-insert_sorted :
    (n m : Name) (ns : List Name) → has_text n (insert_sorted m ns) ≡ (eq_text m n || has_text n ns)
unfolding has_text insert_sorted
has_text-insert_sorted n m [] = ground (arith)
has_text-insert_sorted n m (k ∷ ns) = elim (text-cases k m) [
  | inl e ↦ rw (e, eq_text_refl m) (ground (arith))
  | inr e ↦ rw e (ground (arith, has_text-insert_sorted n m ns))
]

pub has_text-sorted : (n : Name) (ns : List Name) → has_text n (sorted ns) ≡ has_text n ns
unfolding has_text sorted
has_text-sorted n [] = refl
has_text-sorted n (m ∷ ns) =
    ground (arith, has_text-insert_sorted n m (sorted ns), has_text-sorted n ns)

-- The two dictionaries belong together, and no alias is a portable name.
record Paired (portable reserved : List Name) (c : Codec) : Type 0 where
  paired : (n a : Name) → get n c.original_to_alias ≡ some a → get a c.alias_to_original ≡ some n
  taken : (a : Name) → is_some (get a c.alias_to_original) ≡ true → has_text a reserved ≡ true
  kept : (p : Name) → has_text p portable ≡ true → has_text p reserved ≡ true
  unaliased : (p : Name) → has_text p portable ≡ true → get p c.alias_to_original ≡ none

add : Codec → (name alias : Name) → Codec
add c name alias = record c {
  original_to_alias = put name alias c.original_to_alias;
  alias_to_original = put alias name c.alias_to_original;
}

-- A free alias keeps the dictionaries in agreement.
add-Paired :
    (portable reserved : List Name) (c : Codec) (name alias : Name)
    → Paired portable reserved c
    → has_text alias reserved ≡ false
    → Paired portable (alias ∷ reserved) (add c name alias)
unfolding add has_text
add-Paired portable reserved c name alias v free =
    let there : (a : Name)
        → get a (put alias name c.alias_to_original)
          ≡ (if eq_text alias a then some name else get a c.alias_to_original) =
      λ a. get-put alias a name c.alias_to_original in
    record {
      paired = λ n a h. elim (text-cases name n) [
        | inl e ↦ ground (
          arith,
          rw (get-put name n alias c.original_to_alias, e, eq_text_refl n) at h,
          there a,
          e,
          eq_text_refl a,
        )
        | inr e ↦
            let before = rw (get-put name n alias c.original_to_alias, e) at h in
            elim (text-cases alias a) [
              | inl f ↦ absurd (ground (arith, v.paired n a before, v.taken a, rw f at free))
              | inr f ↦ there a ∙ rw f (v.paired n a before)
            ]
      ];
      taken = λ a h. ground (arith, v.taken a, there a);
      kept = λ p h. ground (arith, v.kept p);
      unaliased = λ p h. elim (text-cases alias p) [
        | inl e ↦ absurd (ground (arith, v.kept p h, rw e at free))
        | inr e ↦ there p ∙ rw e (v.unaliased p h)
      ];
    }

search_alias-free :
    (h : Name → Name) (fuel : ℕ) (name : Name) (reserved : List Name) (attempt : ℕ) (a : Name)
    → search_alias h fuel name reserved attempt ≡ some a
    → has_text a reserved ≡ false
unfolding search_alias
search_alias-free h zero name reserved attempt a e = absurd (ground (arith))
search_alias-free h (suc fuel) name reserved attempt a e =
    elim (Bool-cases (has_text (alias_of h name attempt) reserved)) [
      | inl f ↦ search_alias-free h fuel name reserved (suc attempt) a (rw f at e)
      | inr f ↦ ground (arith, f, rw f at e)
    ]

-- The loop ends with dictionaries that belong together and know every name.
assign-Paired :
    (h : Name → Name) (attempts : ℕ) (portable : List Name) (names : List Name)
    (reserved : List Name) (c d : Codec)
    → Paired portable reserved c
    → assign h attempts names reserved c ≡ some d
    → ((n a : Name) → get n d.original_to_alias ≡ some a → get a d.alias_to_original ≡ some n)
      × ((p : Name) → has_text p portable ≡ true → get p d.alias_to_original ≡ none)
      × ((n : Name)
          → is_some (get n c.original_to_alias) || has_text n names ≡ true
          → is_some (get n d.original_to_alias) ≡ true)
unfolding assign has_text add
assign-Paired h attempts portable [] reserved c d v e =
    let same : c ≡ d = ap (λ o. from_option o c (λ x. x)) e in
    rw (← same) (v.paired, v.unaliased, λ n g. ground (arith, g))
assign-Paired h attempts portable (name ∷ names) reserved c d v e =
    elim (Option-cases (unique_alias h attempts name reserved)) [
      | inl f ↦ absurd (ground (arith, rw f at e))
      | inr (alias, f) ↦
          let (p, q, r) =
            assign-Paired h attempts portable names (alias ∷ reserved) (add c name alias) d
              (add-Paired portable reserved c name alias v
                (search_alias-free h attempts name reserved 0 alias f))
              (rw f at e) in
          (p, q, λ n g. r n (ground (arith, g, get-put name n alias c.original_to_alias)))
    ]

no_aliases : List Name → Codec
no_aliases portable = record {
  original_to_alias = [];
  alias_to_original = [];
  unchanged_names = portable;
}

no_aliases-Paired : (portable : List Name) → Paired portable portable (no_aliases portable)
unfolding get no_aliases
no_aliases-Paired portable = record {
  paired = λ m a g. absurd (ground (arith));
  taken = λ a g. absurd (ground (arith));
  kept = λ m g. g;
  unaliased = λ m g. refl;
}

-- The codec of some names, and a nonempty name among them.
module _ (h : Name → Name) (attempts : ℕ) (names : List Name) (c : Codec)
    (e : from_names h attempts names ≡ some c) (n : Name) (there : has_text n names ≡ true)
    (given : is_given_name n ≡ true) where
  -- A name without an alias is portable.
  pub unaliased-is_portable : get n c.original_to_alias ≡ none → is_portable n ≡ true
  unfolding from_names no_aliases get
  unaliased-is_portable f =
      let portable = portable_names names in
      let (p, q, r) =
        assign-Paired h attempts portable (other_names names) portable (no_aliases portable) c
          (no_aliases-Paired portable) e in
      elim (Bool-cases (is_portable n)) [
        | inl g ↦ g
        | inr g ↦ absurd (
            ground (
              arith,
              f,
              r n,
              has_text-sorted n (filter (λ m. not (is_portable m)) (filter is_given_name names)),
              has_text-filter (λ m. not (is_portable m)) n (filter is_given_name names)
                  (ground (arith, g)),
              has_text-filter is_given_name n names given,
              there,
            ))
      ]

  pub decode-encode-returned : decode c (encode c n) ≡ n
  unfolding from_names decode encode no_aliases
  decode-encode-returned =
      let portable = portable_names names in
      let (p, q, r) =
        assign-Paired h attempts portable (other_names names) portable (no_aliases portable) c
          (no_aliases-Paired portable) e in
      elim (Option-cases (get n c.original_to_alias)) [
        | inr (a, f) ↦ ground (arith, f, p n a f)
        | inl f ↦ ground (
          arith,
          f,
          q n (
              has_text-filter is_portable n (filter is_given_name names) (unaliased-is_portable f)
              ∙ has_text-filter is_given_name n names given
              ∙ there),
        )
      ]
