-- ===== src/Thinking/Samples.antt =====
-- The parser on a stream whose tag is cut in two: "a<th", "ink>b".
use design.Common.{◌≡◌, ◌++◌, refl, true, false, [], ◌∷◌}
use design.Thinking.{Text, text, thinking, Parser, new_parser, feed}
use design.Thinking.Cut.{Held}
use design.Thinking.Feed.{Woven, feed-Weaves}

abbrev first_part : Text
first_part = 97 ∷ 60 ∷ 116 ∷ 104 ∷ []

abbrev second_part : Text
second_part = 105 ∷ 110 ∷ 107 ∷ 62 ∷ 98 ∷ []

abbrev holding : Parser
holding = record { buffer = 60 ∷ 116 ∷ 104 ∷ []; in_think_tag = false }

feed-first : feed new_parser first_part ≡ (holding, record { type = text; content = 97 ∷ [] } ∷ [])
unfolding feed
feed-first = refl

feed-second : feed holding second_part ≡ (
  record { buffer = []; in_think_tag = true },
  record { type = thinking; content = 98 ∷ [] } ∷ [],
)
unfolding feed
feed-second = refl

feed-Weaves_example :
    Woven
      (holding.buffer ++ second_part)
      false
      (feed holding second_part).1
      (feed holding second_part).0
    × Held (feed holding second_part).0
feed-Weaves_example = feed-Weaves holding second_part
