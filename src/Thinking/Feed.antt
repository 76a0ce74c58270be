-- ===== src/Thinking/Feed.antt =====
-- What feeding a text does.
use design.Common.{
  ℕ, zero, suc, ◌+◌, ◌<◌, ◌≡◌, sym, subst, inl, Bool, true, ◌&&◌, List, [], ◌++◌, ◌==◌, if_cases,
  if_ind, length, length-append, arith,
}
use design.Thinking.{
  Text, ContentChunk, Parser, Parsed, parse, feed_rounds, feed, emit, kind_of, is_empty,
}
use design.Thinking.Cut.{Passes, Settled, Held, Cuts, parse-Cuts}

-- The text is the chunks' contents in order, each in the kind of its mode, with the tags that change
-- the mode between them, and the rest.
pub data Woven : Text → Bool → List ContentChunk → Parser → Type 0 where
  ends : (p : Parser) → Woven p.buffer p.in_think_tag [] p
  takes :
      (content tag rest : Text) {inside inside' : Bool} (chunks : List ContentChunk) {p : Parser}
      → Passes tag inside inside'
      → Settled inside content (tag ++ rest)
      → Woven rest inside' chunks p
      → Woven (content ++ (tag ++ rest)) inside (emit (kind_of inside) content chunks) p

abbrev Result : Type 0
Result = Parser × List ContentChunk

abbrev Weaves : Parser → Result → Type 0
Weaves p r = Woven p.buffer p.in_think_tag r.1 r.0

takes-step :
    (p : Parser) (r : Parsed) (q : Result)
    → Cuts p r
    → Weaves r.parser q
    → Weaves p (q.0, emit (kind_of p.in_think_tag) r.content q.1)
takes-step p r q c h =
    subst (λ s. Woven s p.in_think_tag (emit (kind_of p.in_think_tag) r.content q.1) q.0)
      (sym c.same) (takes r.content c.tag r.parser.buffer q.1 c.mode c.settled h)

is_empty-nil : (s : Text) → is_empty s ≡ true → s ≡ []
is_empty-nil s h = ground (arith)

feed_rounds-Weaves : (rounds : ℕ) (p : Parser) → Weaves p (feed_rounds rounds p)
unfolding feed_rounds
feed_rounds-Weaves zero p = ends p
feed_rounds-Weaves (suc rounds) p =
    let step = parse p in
    if_ind (Weaves p) (is_empty p.buffer) (ends p) (
      if_cases (Weaves p) (is_empty step.content && length step.parser.buffer == length p.buffer)
        (λ stuck.
          rw (is_empty-nil step.content (ground (arith, stuck))) at
            (takes-step p step (step.parser, []) (parse-Cuts p) (ends step.parser)))
        (λ _.
          takes-step p step (feed_rounds rounds step.parser) (parse-Cuts p)
            (feed_rounds-Weaves rounds step.parser)))

Cuts-length :
    (p : Parser) (r : Parsed)
    → Cuts p r
    → (tag : Text) × (length p.buffer ≡ length r.content + (length tag + length r.parser.buffer))
      × (tag ≡ [] → Held r.parser)
Cuts-length p r c = (
  c.tag,
  ground (
    arith,
    c.same,
    length-append r.content (c.tag ++ r.parser.buffer),
    length-append c.tag r.parser.buffer,
  ),
  c.still,
)

feed_rounds-Held :
    (rounds : ℕ) (p : Parser) → length p.buffer < rounds → Held (feed_rounds rounds p).0
unfolding feed_rounds
feed_rounds-Held zero p h = absurd (ground (arith))
feed_rounds-Held (suc rounds) p h =
    let step = parse p in
    let (tag, sum, still) = Cuts-length p step (parse-Cuts p) in
    if_cases (λ (r : Result). Held r.0) (is_empty p.buffer) (λ e. inl (is_empty-nil p.buffer e))
      λ _.
        if_cases (λ (r : Result). Held r.0)
          (is_empty step.content && length step.parser.buffer == length p.buffer)
          (λ stuck. still (ground (arith, sum)))
          (λ moves. feed_rounds-Held rounds step.parser (ground (arith, sum, moves)))

-- Feeding a text to any parser returns chunks that make up the buffer and the text, in order and
-- each in the kind of its mode, with nothing left out but tags that change the mode so and what the
-- parser still holds. In no chunk a tag of its mode begins, neither a whole one nor one of which the
-- text fed so far has only a part, and the parser holds nothing but what may be the start of a tag
-- of its mode.
pub feed-Weaves :
    (p : Parser) (content : Text)
    → Woven (p.buffer ++ content) p.in_think_tag (feed p content).1 (feed p content).0
      × Held (feed p content).0
unfolding feed
feed-Weaves p content = (
  feed_rounds-Weaves (suc (length (p.buffer ++ content)))
      (record p { buffer = p.buffer ++ content }),
  feed_rounds-Held (suc (length (p.buffer ++ content))) (record p { buffer = p.buffer ++ content })
      (omega arith),
)
