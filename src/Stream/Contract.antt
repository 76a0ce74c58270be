-- ===== src/Stream/Contract.antt =====
-- core/anthropic/stream_contracts.py: assert_anthropic_stream_contract and the readers of a stream.
use design.Common.{
  ℕ, Bool, true, false, not, ◌&&◌, ◌||◌, is_some, from_option, List, [], ◌∷◌, ◌++◌, if◌then◌else◌,
  lookup, insert, remove, contains,
}
use design.Stream.Events.{
  Text, BlockType, text, thinking, tool_use, unlisted, Block, DeltaType, text_delta, thinking_delta,
  signature_delta, input_json_delta, Event, message_start, content_block_start, content_block_delta,
  content_block_stop, message_stop, error, is_empty,
}

-- How the checker stores an open block: its type, or "text_eager".
pub data Storage : Type 0 where
  plain : BlockType → Storage
  text_eager : Storage

pub data Violation : Type 0 where
  no_events no_message_start bad_end unexpected_error bad_type started_twice reused : Violation
  unopened unexpected_delta wrong_delta unopened_stop unclosed no_blocks : Violation

pub data Checked {ℓ} (A : Type ℓ) : Type ℓ where
  fine : A → Checked A
  fails : Violation → Checked A

abbrev pub and_check {ℓ κ} : {A : Type ℓ} {B : Type κ} → Checked A → (A → Checked B) → Checked B
and_check (fine a) f = f a
and_check (fails v) f = fails v

pub record Open : Type 0 where
  pub open_blocks : List (ℕ × Storage)
  pub seen_blocks : List ℕ

-- `str.strip`, of which only the truth value is used.
unfoldable pub is_blank : (is_space : ℕ → Bool) → Text → Bool
is_blank is_space [] = true
is_blank is_space (c ∷ s) = is_space c && is_blank is_space s

abbrev pub is_listed : BlockType → Bool
is_listed unlisted = false
is_listed _ = true

abbrev pub delta_fits : Storage → DeltaType → Checked Bool
delta_fits (plain text) text_delta = fine true
delta_fits (plain tool_use) input_json_delta = fine true
delta_fits (plain thinking) thinking_delta = fine true
delta_fits (plain thinking) signature_delta = fine true
delta_fits (plain text) _ = fails wrong_delta
delta_fits (plain tool_use) _ = fails wrong_delta
delta_fits (plain thinking) _ = fails wrong_delta
delta_fits _ _ = fails unexpected_delta

module _ (is_space : ℕ → Bool) (allow_error : Bool) where
  abbrev pub storage : Block → Storage
  storage block = elim block.type [
    | text ↦ if is_blank is_space block.content then plain text else text_eager
    | t ↦ plain t
  ]

  unfoldable pub check_start : Open → ℕ → Block → Checked Open
  unfolding lookup contains insert is_blank
  check_start o index block =
      if not (is_listed block.type)
      then fails bad_type
      else (if is_some (lookup index o.open_blocks)
          then fails started_twice
          else (if contains index o.seen_blocks
              then fails reused
              else fine (record {
                open_blocks = insert index (storage block) o.open_blocks;
                seen_blocks = index ∷ o.seen_blocks;
              })))

  unfoldable pub check_event : Open → Event → Checked Open
  unfolding check_start lookup remove
  check_event o (content_block_start index block) = check_start o index block
  check_event o (content_block_delta index delta) =
      from_option (lookup index o.open_blocks) (fails unopened)
        (λ kind. and_check (delta_fits kind delta.type) (λ _. fine o))
  check_event o (content_block_stop index) =
      if is_some (lookup index o.open_blocks)
      then fine (record o { open_blocks = remove index o.open_blocks })
      else fails unopened_stop
  check_event o error = if allow_error then fine o else fails unexpected_error
  check_event o _ = fine o

  unfoldable pub check_events : Open → List Event → Checked Open
  unfolding check_event
  check_events o [] = fine o
  check_events o (e ∷ es) = and_check (check_event o e) (λ o'. check_events o' es)

abbrev pub is_message_start : Event → Bool
is_message_start (message_start _ _ _) = true
is_message_start _ = false

unfoldable pub any_start : List Event → Bool
any_start [] = false
any_start (e ∷ es) = is_message_start e || any_start es

abbrev pub is_terminal : Bool → Event → Bool
is_terminal allow_error message_stop = true
is_terminal allow_error error = allow_error
is_terminal allow_error _ = false

unfoldable pub ends_well : Bool → List Event → Bool
ends_well allow_error [] = false
ends_well allow_error (e ∷ []) = is_terminal allow_error e
ends_well allow_error (e ∷ f ∷ es) = ends_well allow_error (f ∷ es)

abbrev pub check_end : Open → Checked (Unit {0})
check_end o =
    if not (is_empty o.open_blocks)
    then fails unclosed
    else (if is_empty o.seen_blocks then fails no_blocks else fine tt)

abbrev pub nothing_open : Open
nothing_open = record { open_blocks = []; seen_blocks = [] }

unfoldable pub assert_contract :
    (is_space : ℕ → Bool) (allow_error : Bool) → List Event → Checked (Unit {0})
unfolding check_events any_start ends_well
assert_contract is_space allow_error events =
    if is_empty events
    then fails no_events
    else (if not (any_start events)
        then fails no_message_start
        else (if not (ends_well allow_error events)
            then fails bad_end
            else and_check (check_events is_space allow_error nothing_open events) check_end))

abbrev pub text_of : Event → Text
text_of (content_block_start index block) = elim block.type [ text ↦ block.content | _ ↦ [] ]
text_of (content_block_delta index delta) = elim delta.type [ text_delta ↦ delta.content | _ ↦ [] ]
text_of _ = []

unfoldable pub text_content : List Event → Text
text_content [] = []
text_content (e ∷ es) = text_of e ++ text_content es

abbrev pub thinking_of : Event → Text
thinking_of (content_block_delta index delta) = elim delta.type [
  | thinking_delta ↦ delta.content
  | _ ↦ []
]
thinking_of _ = []

unfoldable pub thinking_content : List Event → Text
thinking_content [] = []
thinking_content (e ∷ es) = thinking_of e ++ thinking_content es

unfoldable pub has_tool_use : List Event → Bool
has_tool_use [] = false
has_tool_use (content_block_start index block ∷ es) = elim block.type [
  | tool_use ↦ true
  | _ ↦ has_tool_use es
]
has_tool_use (_ ∷ es) = has_tool_use es
