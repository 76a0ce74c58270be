-- ===== src/Thinking.antt =====
-- core/anthropic/thinking.py: ThinkTagParser. A text is the list of its characters' numbers.
mod Samples
pub mod Begins
pub mod Scan
pub mod Cut
pub mod Feed
use design.Common.{
  ℕ, zero, suc, ◌+◌, Bool, true, false, ◌&&◌, ◌||◌, Option, none, some, is_some, from_option, List,
  [], ◌∷◌, ◌++◌, ◌==◌, ltb, if◌then◌else◌, length,
}

abbrev pub Text : Type 0
Text = List ℕ

-- "<think>" and "</think>".
abbrev pub open_tag : Text
open_tag = 60 ∷ 116 ∷ 104 ∷ 105 ∷ 110 ∷ 107 ∷ 62 ∷ []

abbrev pub close_tag : Text
close_tag = 60 ∷ 47 ∷ 116 ∷ 104 ∷ 105 ∷ 110 ∷ 107 ∷ 62 ∷ []

pub data ContentType : Type 0 where
  text thinking : ContentType

pub record ContentChunk : Type 0 where
  pub type : ContentType
  pub content : Text

pub record Parser : Type 0 where
  pub buffer : Text
  pub in_think_tag : Bool

abbrev pub new_parser : Parser
new_parser = record { buffer = []; in_think_tag = false }

-- What follows the prefix, if the text starts with it.
unfoldable pub strip : (prefix : Text) → Text → Option Text
strip [] s = some s
strip (p ∷ ps) [] = none
strip (p ∷ ps) (c ∷ s) = if p == c then strip ps s else none

abbrev pub starts_with : Text → (prefix : Text) → Bool
starts_with s prefix = is_some (strip prefix s)

-- The text around the first occurrence of a tag: `buffer[:i]` and `buffer[i + len(tag):]`.
unfoldable pub split_at : (tag : Text) → Text → Option (Text × Text)
unfolding strip
split_at tag [] = none
split_at tag (c ∷ s) =
    let later = split_at tag s in
    from_option (strip tag (c ∷ s))
      (from_option later none (λ (before, after). some (c ∷ before, after)))
      (λ after. some ([], after))

-- `rfind("<")`: the text before the last bracket, and from it on.
unfoldable pub split_last : Text → Option (Text × Text)
split_last [] = none
split_last (c ∷ s) =
    let later = split_last s in
    from_option later (if c == 60 then some ([], c ∷ s) else none)
      (λ (before, tail). some (c ∷ before, tail))

-- A step: the content of the chunk, which is None if there is none, and the parser after it.
pub record Parsed : Type 0 where
  pub content : Text
  pub parser : Parser

abbrev pub parsed : Text → Text → Bool → Parsed
parsed content buffer in_think_tag = record {
  content = content;
  parser = record { buffer = buffer; in_think_tag = in_think_tag };
}

abbrev pub may_grow : (tag tail : Text) → Bool
may_grow tag tail = ltb (length tail) (length tag) && starts_with tag tail

-- A text without the tags in it: what may be the start of a tag is kept.
abbrev pub keep_tail : Bool → Text → (held : Text → Bool) → Option (Text × Text) → Parsed
keep_tail inside s held none = parsed s [] inside
keep_tail inside s held (some (before, tail)) =
    if held tail then parsed before tail inside else parsed s [] inside

abbrev pub held_outside : Text → Bool
held_outside tail = may_grow open_tag tail || may_grow close_tag tail

abbrev pub comes_first : Text → Option (Text × Text) → Bool
comes_first before none = true
comes_first before (some (other, _)) = ltb (length before) (length other)

abbrev pub parse_open : Text → Option (Text × Text) → Parsed
parse_open s none = keep_tail false s held_outside (split_last s)
parse_open s (some (before, after)) = parsed before after true

abbrev pub parse_close : Text → Option (Text × Text) → Option (Text × Text) → Parsed
parse_close s opened none = parse_open s opened
parse_close s opened (some (before, after)) =
    if comes_first before opened then parsed before after false else parse_open s opened

unfoldable pub parse_outside_think : Text → Parsed
unfolding split_at split_last strip
parse_outside_think s = parse_close s (split_at open_tag s) (split_at close_tag s)

abbrev pub parse_inside : Text → Option (Text × Text) → Parsed
parse_inside s none = keep_tail true s (may_grow close_tag) (split_last s)
parse_inside s (some (before, after)) = parsed before after false

unfoldable pub parse_inside_think : Text → Parsed
unfolding split_at split_last strip
parse_inside_think s = parse_inside s (split_at close_tag s)

abbrev pub kind_of : Bool → ContentType
kind_of true = thinking
kind_of false = text

unfoldable pub parse : Parser → Parsed
unfolding parse_outside_think parse_inside_think
parse p = if p.in_think_tag then parse_inside_think p.buffer else parse_outside_think p.buffer

abbrev pub emit : ContentType → Text → List ContentChunk → List ContentChunk
emit type [] chunks = chunks
emit type (c ∷ s) chunks = record { type = type; content = c ∷ s } ∷ chunks

abbrev pub is_empty : Text → Bool
is_empty [] = true
is_empty (_ ∷ _) = false

-- The `while` loop, for so many rounds.
unfoldable pub feed_rounds : ℕ → Parser → Parser × List ContentChunk
unfolding parse
feed_rounds zero p = (p, [])
feed_rounds (suc rounds) p =
    let step = parse p in
    let (q, chunks) = feed_rounds rounds step.parser in
    if is_empty p.buffer
    then (p, [])
    else (if is_empty step.content && length step.parser.buffer == length p.buffer
        then (step.parser, [])
        else (q, emit (kind_of p.in_think_tag) step.content chunks))

-- As many rounds as the buffer has characters, and one that finds nothing to do.
unfoldable pub feed : Parser → Text → Parser × List ContentChunk
unfolding feed_rounds
feed p content =
    feed_rounds (suc (length (p.buffer ++ content))) (record p { buffer = p.buffer ++ content })

unfoldable pub flush : Parser → Parser × Option ContentChunk
flush p = if is_empty p.buffer then (p, none) else (
  record p { buffer = [] },
  some (record { type = kind_of p.in_think_tag; content = p.buffer }),
)
