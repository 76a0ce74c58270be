-- ===== src/Thinking/Cut.antt =====
-- What one step of the parser takes off its buffer.
use design.Common.{
  append_nil, ◌≡◌, refl, sym, ◌⊎◌, inl, inr, Bool, true, false, not, Option, none, some,
  from_option, [], ◌∷◌, ◌++◌, if_cases, Option-cases, arith,
}
use design.Thinking.{
  Text, open_tag, close_tag, Parser, Parsed, parsed, split_at, split_last, keep_tail, held_outside,
  may_grow, parse_open, parse_close, comes_first, parse_outside_think, parse_inside,
  parse_inside_think, parse,
}
use design.Thinking.Scan.{split_at_lem, split_last_lem}
use design.Thinking.Begins.{unbegun, has_bracket, split_last-bracket, before-unbegun, all-unbegun}

-- How a tag changes the mode.
pub data Passes : Text → Bool → Bool → Type 0 where
  nothing : (inside : Bool) → Passes [] inside inside
  opening : Passes open_tag false true
  closing : (inside : Bool) → Passes close_tag inside false

-- No tag of the mode begins in the content, as far as it and what follows it tell: a closing tag,
-- and outside of a tag an opening one.
abbrev pub Settled : Bool → (content rest : Text) → Type 0
Settled inside content rest =
    (unbegun close_tag content rest ≡ true)
    × (inside ≡ false → unbegun open_tag content rest ≡ true)

abbrev pub held_in : Bool → Text → Bool
held_in true = may_grow close_tag
held_in false = held_outside

-- Nothing, or what may be the start of a tag of the mode.
abbrev pub Held : Parser → Type 0
Held p = (p.buffer ≡ []) ⊎ (held_in p.in_think_tag p.buffer ≡ true)

-- One step takes the content off the front of the buffer, and then a tag or nothing; when it takes
-- no tag, what it leaves may be the start of one.
pub record Cuts (p : Parser) (r : Parsed) : Type 0 where
  pub tag : Text
  pub mode : Passes tag p.in_think_tag r.parser.in_think_tag
  pub same : p.buffer ≡ r.content ++ (tag ++ r.parser.buffer)
  pub settled : Settled p.in_think_tag r.content (tag ++ r.parser.buffer)
  pub still : tag ≡ [] → Held r.parser

abbrev at : Bool → Text → Parser
at inside s = record { buffer = s; in_think_tag = inside }

abbrev open_rest : Text
open_rest = 116 ∷ 104 ∷ 105 ∷ 110 ∷ 107 ∷ 62 ∷ []

abbrev close_rest : Text
close_rest = 47 ∷ 116 ∷ 104 ∷ 105 ∷ 110 ∷ 107 ∷ 62 ∷ []

open_plain : has_bracket open_rest ≡ false
unfolding has_bracket split_last
open_plain = refl

close_plain : has_bracket close_rest ≡ false
unfolding has_bracket split_last
close_plain = refl

tag-bracket : (ps s : Text) → has_bracket ((60 ∷ ps) ++ s) ≡ true
unfolding has_bracket split_last
tag-bracket ps s = ground (arith, Option-cases (split_last (ps ++ s)))

-- No tag stands in a text without whole tags before its last bracket, if that may start one.
before_last-Settled :
    (inside : Bool) (s before tail : Text)
    → split_last s ≡ some (before, tail)
    → split_at close_tag s ≡ none
    → (inside ≡ false → split_at open_tag s ≡ none)
    → Settled inside before tail
before_last-Settled inside s before tail e c o =
    let same = split_last_lem s before tail e in
    let bracket = split_last-bracket s before tail e in
    (
      before-unbegun close_rest close_plain s before tail none same bracket (sym c)
          (λ b a h. absurd (ground (arith, h))),
      λ out.
          before-unbegun open_rest open_plain s before tail none same bracket (sym (o out))
            (λ b a h. absurd (ground (arith, h))),
    )

-- What the last bracket of the text starts is no tag of the mode.
abbrev Ended : Bool → Text → Type 0
Ended inside s = from_option (split_last s) true (λ (_, tail). not (held_in inside tail)) ≡ true

Ended-both :
    (s : Text)
    → Ended false s
    → (from_option (split_last s) true (λ (_, tail). not (may_grow close_tag tail)) ≡ true)
      × (from_option (split_last s) true (λ (_, tail). not (may_grow open_tag tail)) ≡ true)
Ended-both s h = elim (Option-cases (split_last s)) [
  | inl e ↦ (ground (arith, e), ground (arith, e))
  | inr (r, e) ↦ (ground (arith, e, h), ground (arith, e, h))
]

all-Settled :
    (inside : Bool) (s : Text)
    → Ended inside s
    → split_at close_tag s ≡ none
    → (inside ≡ false → split_at open_tag s ≡ none)
    → Settled inside s []
all-Settled true s ended c o =
    (all-unbegun close_rest close_plain s c ended, λ out. absurd (ground (arith)))
all-Settled false s ended c o = (
  all-unbegun close_rest close_plain s c (Ended-both s ended).0,
  λ out. all-unbegun open_rest open_plain s (o out) (Ended-both s ended).1,
)

keep_tail-Cuts :
    (inside : Bool) (s : Text)
    → split_at close_tag s ≡ none
    → (inside ≡ false → split_at open_tag s ≡ none)
    → Cuts (at inside s) (keep_tail inside s (held_in inside) (split_last s))
keep_tail-Cuts inside s c o = elim (Option-cases (split_last s)) [
  | inl e ↦ rw e (all (ground (arith, e)))
  | inr ((before, tail), e) ↦ rw e (
      if_cases (Cuts (at inside s)) (held_in inside tail)
        (λ h. record {
          tag = [];
          mode = nothing inside;
          same = split_last_lem s before tail e;
          settled = before_last-Settled inside s before tail e c o;
          still = λ _. inr h;
        })
        (λ h. all (ground (arith, e, h))))
]
  where
    all : Ended inside s → Cuts (at inside s) (parsed s [] inside)
    all ended = record {
      tag = [];
      mode = nothing inside;
      same = append_nil s;
      settled = all-Settled inside s ended c o;
      still = λ _. inl refl;
    }

parse_open-Cuts :
    (s : Text) (found closed : Option (Text × Text))
    → found ≡ split_at open_tag s
    → closed ≡ split_at close_tag s
    → ((before after : Text) → closed ≡ some (before, after) → comes_first before found ≡ false)
    → Cuts (at false s) (parse_open s found)
parse_open-Cuts s none none e f later = keep_tail-Cuts false s (sym f) (λ _. sym e)
parse_open-Cuts s none (some (b, a)) e f later = absurd (ground (arith, later b a refl))
parse_open-Cuts s (some (before, after)) closed e f later =
    let same = split_at_lem open_tag s before after (sym e) in
    let bracket = tag-bracket open_rest after in
    record {
      tag = open_tag;
      mode = opening;
      same = same;
      settled = (
        before-unbegun close_rest close_plain s before (open_tag ++ after) closed same bracket f
            (λ b a h. ground (arith, later b a h)),
        λ _.
            before-unbegun open_rest open_plain s before (open_tag ++ after) _ same bracket e
              (λ b a h. ground (arith, h)),
      );
      still = λ h. absurd (ground (arith));
    }

closed-Cuts :
    (inside : Bool) (s before after : Text)
    → some (before, after) ≡ split_at close_tag s
    → (inside ≡ false → unbegun open_tag before (close_tag ++ after) ≡ true)
    → Cuts (at inside s) (parsed before after false)
closed-Cuts inside s before after e settled =
    let same = split_at_lem close_tag s before after (sym e) in
    record {
      tag = close_tag;
      mode = closing inside;
      same = same;
      settled = (
        before-unbegun close_rest close_plain s before (close_tag ++ after) _ same
            (tag-bracket close_rest after) e (λ b a h. ground (arith, h)),
        settled,
      );
      still = λ h. absurd (ground (arith));
    }

parse_close-Cuts :
    (s : Text) (found opened : Option (Text × Text))
    → found ≡ split_at close_tag s
    → opened ≡ split_at open_tag s
    → Cuts (at false s) (parse_close s opened found)
parse_close-Cuts s none opened e f =
    parse_open-Cuts s opened none f e (λ b a h. absurd (ground (arith, h)))
parse_close-Cuts s (some (before, after)) opened e f =
    let same = split_at_lem close_tag s before after (sym e) in
    if_cases (Cuts (at false s)) (comes_first before opened)
      (λ first. closed-Cuts false s before after e (λ _.
        before-unbegun open_rest open_plain s before (close_tag ++ after) opened same
          (tag-bracket close_rest after) f (λ b a h. ground (arith, first, h))))
      (λ later.
        parse_open-Cuts s opened (some (before, after)) f e (λ b a h. ground (arith, later, h)))

parse_inside-Cuts :
    (s : Text) (found : Option (Text × Text))
    → found ≡ split_at close_tag s
    → Cuts (at true s) (parse_inside s found)
parse_inside-Cuts s none e = keep_tail-Cuts true s (sym e) (λ h. absurd (ground (arith)))
parse_inside-Cuts s (some (before, after)) e =
    closed-Cuts true s before after e (λ h. absurd (ground (arith)))

parse-at : (inside : Bool) (s : Text) → Cuts (at inside s) (parse (at inside s))
unfolding parse parse_outside_think parse_inside_think
parse-at true s = parse_inside-Cuts s _ refl
parse-at false s = parse_close-Cuts s _ _ refl refl

pub parse-Cuts : (p : Parser) → Cuts p (parse p)
parse-Cuts p = parse-at p.in_think_tag p.buffer
