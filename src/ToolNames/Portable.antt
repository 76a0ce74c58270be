-- ===== src/ToolNames/Portable.antt =====
-- What a client's name is encoded to is a name that every upstream takes.
use design.Common.{
  ◌<◌, ℕ, zero, suc, ◌≤◌, ◌≡◌, refl, ap, subst, inl, inr, Bool, true, false, some, from_option,
  List, [], ◌∷◌, ◌++◌, length, length-append, if_cases, eq_text, has_text, get, put, get-put, leb,
  Bool-cases, Option-cases, arith,
}
use design.ToolNames.{
  Name, Codec, is_given_name, is_portable, all_portable, is_portable_character, sub_invalid, lstrip,
  rstrip, or_tool, readable, take, digest_length, digest_input, alias_of, search_alias,
  unique_alias, assign, portable_names, other_names, from_names, encode,
}
use design.ToolNames.Searching.{Differ}
use design.ToolNames.Roundtrip.{decode-encode}
use design.ToolNames.Coding.{unaliased-is_portable}

-- A hexdigest is made of portable characters.
abbrev pub Hexadecimal : (Name → Name) → Type 0
Hexadecimal h = (s : Name) → all_portable (h s) ≡ true

sub_invalid-all_portable : (in_run : Bool) (s : Name) → all_portable (sub_invalid in_run s) ≡ true
unfolding sub_invalid all_portable
sub_invalid-all_portable in_run [] = refl
sub_invalid-all_portable in_run (c ∷ s) =
    if_cases (λ t. all_portable t ≡ true) (is_portable_character c)
      (λ e. rw e (sub_invalid-all_portable false s))
      (λ _.
        if_cases (λ t. all_portable t ≡ true) in_run (λ _. sub_invalid-all_portable true s)
          (λ _. sub_invalid-all_portable true s))

lstrip-all_portable : (s : Name) → all_portable s ≡ true → all_portable (lstrip s) ≡ true
unfolding lstrip all_portable
lstrip-all_portable [] h = refl
lstrip-all_portable (c ∷ s) h = ground (arith, lstrip-all_portable s)

rstrip-all_portable : (s : Name) → all_portable s ≡ true → all_portable (rstrip s) ≡ true
unfolding rstrip all_portable
rstrip-all_portable [] h = refl
rstrip-all_portable (c ∷ s) h = ground (arith, rstrip-all_portable s)

take-all_portable : (n : ℕ) (s : Name) → all_portable s ≡ true → all_portable (take n s) ≡ true
unfolding take all_portable
take-all_portable zero s h = refl
take-all_portable (suc n) [] h = refl
take-all_portable (suc n) (c ∷ s) h = ground (arith, take-all_portable n s)

or_tool-all_portable : (s : Name) → all_portable s ≡ true → all_portable (or_tool s) ≡ true
unfolding all_portable
or_tool-all_portable [] h = refl
or_tool-all_portable (c ∷ s) h = h

append-all_portable :
    (s t : Name) → all_portable s ≡ true → all_portable t ≡ true → all_portable (s ++ t) ≡ true
unfolding all_portable
append-all_portable [] t h g = g
append-all_portable (c ∷ s) t h g = ground (arith, append-all_portable s t)

readable-all_portable : (name : Name) → all_portable (readable name) ≡ true
unfolding readable
readable-all_portable name = or_tool-all_portable _ (
    rstrip-all_portable _ (
      take-all_portable 47 _ (
        or_tool-all_portable _
          (rstrip-all_portable _ (lstrip-all_portable _ (sub_invalid-all_portable false name))))))

length-rstrip : (s : Name) → length (rstrip s) ≤ length s
unfolding rstrip
length-rstrip [] = omega arith
length-rstrip (c ∷ s) = ground (arith, length-rstrip s)

length-take : (n : ℕ) (s : Name) → length (take n s) ≤ n
unfolding take
length-take zero s = omega arith
length-take (suc n) [] = omega arith
length-take (suc n) (c ∷ s) = omega (arith, length-take n s)

length-or_tool : (s : Name) → length s ≤ 47 → length (or_tool s) ≤ 47
length-or_tool [] h = omega arith
length-or_tool (c ∷ s) h = h

length-readable : (name : Name) → length (readable name) ≤ 47
unfolding readable
length-readable name =
    let s = or_tool (rstrip (lstrip (sub_invalid false name))) in
    length-or_tool (rstrip (take 47 s)) (omega (arith, length-rstrip (take 47 s), length-take 47 s))

nonempty-append : (s : Name) (c : ℕ) (t : Name) → is_given_name (s ++ c ∷ t) ≡ true
nonempty-append [] c t = refl
nonempty-append (d ∷ s) c t = refl

leb-true : (m n : ℕ) → m ≤ n → leb m n ≡ true
leb-true m n h = ground (arith)

is_portable-intro :
    (s : Name)
    → is_given_name s ≡ true
    → length s ≤ 64
    → all_portable s ≡ true
    → is_portable s ≡ true
is_portable-intro s given short portable = rw (given, leb-true (length s) 64 short, portable) refl

underscore-all_portable : (s : Name) → all_portable s ≡ true → all_portable (95 ∷ s) ≡ true
unfolding all_portable
underscore-all_portable s h = h

alias_of-is_portable :
    (h : Name → Name) (name : Name) (attempt : ℕ)
    → Hexadecimal h
    → is_portable (alias_of h name attempt) ≡ true
unfolding alias_of
alias_of-is_portable h name attempt hex =
    let d = take digest_length (h (digest_input name attempt)) in
    let portable = append-all_portable (readable name) (95 ∷ d) (readable-all_portable name) (
      underscore-all_portable d (
        take-all_portable digest_length (h (digest_input name attempt))
          (hex (digest_input name attempt)))) in
    is_portable-intro (readable name ++ 95 ∷ d) (nonempty-append (readable name) 95 d)
      (omega (
        arith,
        length-append (readable name) (95 ∷ d),
        length-readable name,
        length-take digest_length (h (digest_input name attempt)),
      ))
      portable

search_alias-is_portable :
    (h : Name → Name) (fuel : ℕ) (name : Name) (reserved : List Name) (attempt : ℕ) (a : Name)
    → Hexadecimal h
    → search_alias h fuel name reserved attempt ≡ some a
    → is_portable a ≡ true
unfolding search_alias
search_alias-is_portable h zero name reserved attempt a hex e = absurd (ground (arith))
search_alias-is_portable h (suc fuel) name reserved attempt a hex e =
    elim (Bool-cases (has_text (alias_of h name attempt) reserved)) [
      | inl f ↦ search_alias-is_portable h fuel name reserved (suc attempt) a hex (rw f at e)
      | inr f ↦
          subst (λ b. is_portable b ≡ true) (ap (λ o. from_option o a (λ x. x)) (rw f at e))
            (alias_of-is_portable h name attempt hex)
    ]

abbrev AllPortable : Codec → Type 0
AllPortable c = (n a : Name) → get n c.original_to_alias ≡ some a → is_portable a ≡ true

put-AllPortable :
    (c : Codec) (name alias : Name) (d : List (Name × Name))
    → AllPortable c
    → is_portable alias ≡ true
    → AllPortable
        (record c { original_to_alias = put name alias c.original_to_alias; alias_to_original = d })
put-AllPortable c name alias d v p n a g = elim (Bool-cases (eq_text name n)) [
  | inl f ↦
      subst (λ b. is_portable b ≡ true)
        (ap (λ o. from_option o a (λ x. x)) (rw (get-put name n alias c.original_to_alias, f) at g))
        p
  | inr f ↦ v n a (rw (get-put name n alias c.original_to_alias, f) at g)
]

assign-AllPortable :
    (h : Name → Name) (attempts : ℕ) (names reserved : List Name) (c d : Codec)
    → Hexadecimal h
    → AllPortable c
    → assign h attempts names reserved c ≡ some d
    → AllPortable d
unfolding assign
assign-AllPortable h attempts [] reserved c d hex v e =
    subst AllPortable (ap (λ o. from_option o c (λ x. x)) e) v
assign-AllPortable h attempts (name ∷ names) reserved c d hex v e =
    elim (Option-cases (unique_alias h attempts name reserved)) [
      | inl f ↦ absurd (ground (arith, rw f at e))
      | inr (alias, f) ↦
          assign-AllPortable h attempts names (alias ∷ reserved) _ d hex
            (put-AllPortable c name alias (put alias name c.alias_to_original) v
              (search_alias-is_portable h attempts name reserved 0 alias hex f))
            (rw f at e)
    ]

returned-is_portable :
    (h : Name → Name) (attempts : ℕ) (names : List Name) (c : Codec) (n : Name)
    → Hexadecimal h
    → from_names h attempts names ≡ some c
    → has_text n names ≡ true
    → is_given_name n ≡ true
    → is_portable (encode c n) ≡ true
unfolding encode from_names get
returned-is_portable h attempts names c n hex e there given =
    elim (Option-cases (get n c.original_to_alias)) [
      | inl f ↦ rw f (unaliased-is_portable h attempts names c e n there given f)
      | inr (a, f) ↦ rw f (
          assign-AllPortable h attempts (other_names names) (portable_names names) _ c hex
            (λ m b g. absurd (ground (arith))) e n a f)
    ]

-- If hexdigests are made of portable characters, and for each of the names the digests of its
-- attempts differ, as many attempts as there are names and one more, then the codec of the names
-- exists, and it encodes every nonempty name among them to one that has between one and 64 portable
-- characters.
pub encode-is_portable :
    (h : Name → Name) (names : List Name)
    → Hexadecimal h
    → ((n : Name) → has_text n names ≡ true → Differ h (suc (length names)) n)
    → (c : Codec) × ((attempts : ℕ)
        → length names < attempts
        → from_names h attempts names ≡ some c)
      × ((n : Name)
          → has_text n names ≡ true
          → is_given_name n ≡ true
          → is_portable (encode c n) ≡ true)
encode-is_portable h names hex spread =
    let (c, e, _) = decode-encode h names spread in
    (
      c,
      e,
      λ n there given.
          returned-is_portable h (suc (length names)) names c n hex
            (e (suc (length names)) (omega arith)) there given,
    )
