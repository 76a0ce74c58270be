-- ===== src/Stream/Ledger.antt =====
-- core/anthropic/streaming/ledger.py: StreamBlockLedger and AnthropicStreamLedger. A generator of
-- events is the new ledger with the list of the events. The open stack's top is the list's head.
use design.Common.{
  ℕ, suc, max, Bool, true, false, not, ◌||◌, Option, none, some, is_some, from_option, List, [],
  ◌∷◌, ◌++◌, Key, ◌==◌, if◌then◌else◌, lookup, insert, keys, values, filter,
}
use design.Stream.Events.{
  Text, BlockType, text, thinking, tool_use, Block, Delta, DeltaType, text_delta, thinking_delta,
  input_json_delta, Event, message_start, content_block_start, content_block_delta,
  content_block_stop, message_delta, message_stop, is_tool_use, is_text_type, is_thinking_type,
  is_empty, join,
}

-- Without the buffers for the arguments of task tools, which this adapter does not use.
pub record ToolBlockState : Type 0 where
  pub block_index : ℕ
  pub tool_id : Key
  pub name : Text
  pub extra_content : Option Key
  pub started : Bool

pub record StreamBlockState : Type 0 where
  pub index : ℕ
  pub block_type : BlockType
  pub open_ : Bool
  pub tool_id : Key
  pub name : Text
  pub parts : List Text
  pub extra_content : Option Key

-- StreamBlockLedger.
pub record Blocks : Type 0 where
  pub next_index : ℕ
  pub thinking_index : ℕ
  pub text_index : ℕ
  pub thinking_started : Bool
  pub text_started : Bool
  pub tool_states : List (Key × ToolBlockState)

pub record Ledger : Type 0 where
  pub message_id : Key
  pub model : Key
  pub input_tokens : ℕ
  pub blocks : Blocks
  pub text_parts : List Text
  pub thinking_parts : List Text
  pub open_stack : List ℕ
  pub content_blocks : List (ℕ × StreamBlockState)
  pub message_started : Bool
  pub message_stopped : Bool
  pub stop_reason : Option Key

abbrev pub no_blocks : Blocks
no_blocks = record {
  next_index = 1;
  thinking_index = 0;
  text_index = 0;
  thinking_started = false;
  text_started = false;
  tool_states = [];
}

abbrev pub new_ledger : (message_id model : Key) (input_tokens : ℕ) → Ledger
new_ledger message_id model input_tokens = record {
  message_id = message_id;
  model = model;
  input_tokens = input_tokens;
  blocks = no_blocks;
  text_parts = [];
  thinking_parts = [];
  open_stack = [];
  content_blocks = [];
  message_started = false;
  message_stopped = false;
  stop_reason = none;
}

-- A ledger with the events written so far, and one operation more.
abbrev pub Written : Type 0
Written = Ledger × List Event

abbrev pub and_then : Written → (Ledger → Written) → Written
and_then (l, first) f = let (l', second) = f l in (l', first ++ second)

abbrev pub with_blocks : Ledger → Blocks → Ledger
with_blocks l b = record l { blocks = b }

abbrev pub allocate_index : Blocks → Blocks × ℕ
allocate_index b = (record b { next_index = suc b.next_index }, b.next_index)

abbrev pub reserve_index : Blocks → ℕ → Blocks
reserve_index b index = record b { next_index = max b.next_index (suc index) }

unfoldable pub write_start : Ledger → Written
write_start l =
    (record l { message_started = true }, message_start l.message_id l.model l.input_tokens ∷ [])

abbrev or_given : Option ℕ → ℕ → ℕ
or_given none n = n
or_given (some m) n = m

unfoldable pub write_delta :
    Ledger
    → (stop_reason : Key) (output_tokens input_tokens : Option ℕ) (usage_fields : List (Key × ℕ))
    → Written
write_delta l stop_reason output_tokens input_tokens usage_fields = (
  record l { stop_reason = some stop_reason },
  message_delta stop_reason (record {
    input_tokens = or_given input_tokens l.input_tokens;
    output_tokens = or_given output_tokens 0;
    fields = usage_fields;
  })
      ∷ [],
)

unfoldable pub write_stop : Ledger → Written
write_stop l = (record l { message_stopped = true }, message_stop ∷ [])

abbrev pub nonempty : Text → List Text
nonempty [] = []
nonempty (c ∷ s) = (c ∷ s) ∷ []

abbrev pub block_state : ℕ → Block → StreamBlockState
block_state index block = record {
  index = index;
  block_type = block.type;
  open_ = true;
  tool_id = if is_tool_use block.type then block.id else 0;
  name = if is_tool_use block.type then block.name else [];
  parts =
      if is_text_type block.type || is_thinking_type block.type then nonempty block.content else [];
  extra_content = if is_tool_use block.type then block.extra_content else none;
}

abbrev pub started_blocks : Blocks → ℕ → BlockType → Blocks
started_blocks b index text = record b { text_index = index; text_started = true }
started_blocks b index thinking = record b { thinking_index = index; thinking_started = true }
started_blocks b index _ = b

unfoldable pub record_block_start : Ledger → ℕ → Block → Ledger
unfolding insert
record_block_start l index block = record l {
  blocks = started_blocks (reserve_index l.blocks index) index block.type;
  text_parts =
      if is_text_type block.type then l.text_parts ++ nonempty block.content else l.text_parts;
  thinking_parts =
      if is_thinking_type block.type
      then l.thinking_parts ++ nonempty block.content
      else l.thinking_parts;
  content_blocks = insert index (block_state index block) l.content_blocks;
  open_stack = index ∷ l.open_stack;
}

unfoldable pub block_start : Ledger → ℕ → Block → Written
unfolding record_block_start
block_start l index block = (record_block_start l index block, content_block_start index block ∷ [])

-- What a delta adds to a block of this type: `delta.get("text")` and its like.
abbrev pub addition : BlockType → Delta → List Text
addition block_type delta = elim block_type [
  | text ↦ elim delta.type [ text_delta ↦ delta.content ∷ [] | _ ↦ [] ]
  | thinking ↦ elim delta.type [ thinking_delta ↦ delta.content ∷ [] | _ ↦ [] ]
  | tool_use ↦ elim delta.type [ input_json_delta ↦ delta.content ∷ [] | _ ↦ [] ]
  | _ ↦ []
]

unfoldable pub record_block_delta : Ledger → ℕ → Delta → Ledger
unfolding lookup insert
record_block_delta l index delta = from_option (lookup index l.content_blocks) l λ state.
    let added = addition state.block_type delta in
    record l {
      content_blocks =
          insert index (record state { parts = state.parts ++ added }) l.content_blocks;
      text_parts = if is_text_type state.block_type then l.text_parts ++ added else l.text_parts;
      thinking_parts =
          if is_thinking_type state.block_type then l.thinking_parts ++ added else l.thinking_parts;
    }

unfoldable pub block_delta : Ledger → ℕ → DeltaType → Text → Written
unfolding record_block_delta
block_delta l index type content =
    let delta : Delta = record { type = type; content = content } in
    (record_block_delta l index delta, content_block_delta index delta ∷ [])

-- `list.remove`: the first element from the bottom of the stack.
unfoldable pub remove_last : ℕ → List ℕ → Option (List ℕ)
remove_last k [] = none
remove_last k (x ∷ xs) =
    from_option (remove_last k xs) (if x == k then some xs else none) (λ ys. some (x ∷ ys))

abbrev pub popped : ℕ → List ℕ → List ℕ
popped index [] = []
popped index (top ∷ rest) =
    if top == index
    then rest
    else from_option (remove_last index (top ∷ rest)) (top ∷ rest) (λ s. s)

abbrev pub clear_active_content_block : Blocks → StreamBlockState → Blocks
clear_active_content_block b state = elim state.block_type [
  | text ↦ if b.text_index == state.index then record b { text_started = false } else b
  | thinking ↦ if b.thinking_index == state.index then record b { thinking_started = false } else b
  | _ ↦ b
]

-- The block's state is closed, if there is one.
unfoldable pub close_state : Ledger → ℕ → Ledger
unfolding lookup insert
close_state l index = from_option (lookup index l.content_blocks) l λ state. record l {
  content_blocks = insert index (record state { open_ = false }) l.content_blocks;
  blocks = clear_active_content_block l.blocks state;
}

unfoldable pub record_block_stop : Ledger → ℕ → Ledger
unfolding remove_last close_state
record_block_stop l index = close_state (record l { open_stack = popped index l.open_stack }) index

unfoldable pub block_stop : Ledger → ℕ → Written
unfolding record_block_stop
block_stop l index = (record_block_stop l index, content_block_stop index ∷ [])

abbrev pub empty_block : BlockType → Block
empty_block type = record {
  type = type;
  content = [];
  id = 0;
  name = [];
  extra_content = none;
  payload = none;
}

unfoldable pub start_thinking_block : Ledger → Written
unfolding block_start
start_thinking_block l =
    let (b, index) = allocate_index l.blocks in
    block_start (with_blocks l (record b { thinking_index = index; thinking_started = true })) index
      (empty_block thinking)

unfoldable pub start_text_block : Ledger → Written
unfolding block_start
start_text_block l =
    let (b, index) = allocate_index l.blocks in
    block_start (with_blocks l (record b { text_index = index; text_started = true })) index
      (empty_block text)

abbrev pub emit_thinking_delta : Ledger → Text → Written
emit_thinking_delta l content = block_delta l l.blocks.thinking_index thinking_delta content

abbrev pub emit_text_delta : Ledger → Text → Written
emit_text_delta l content = block_delta l l.blocks.text_index text_delta content

unfoldable pub stop_thinking_block : Ledger → Written
unfolding block_stop
stop_thinking_block l =
    let b = l.blocks in
    block_stop (with_blocks l (record b { thinking_started = false })) b.thinking_index

unfoldable pub stop_text_block : Ledger → Written
unfolding block_stop
stop_text_block l =
    let b = l.blocks in block_stop (with_blocks l (record b { text_started = false })) b.text_index

abbrev pub tool_block : Key → Text → Option Key → Block
tool_block tool_id name extra_content = record {
  type = tool_use;
  content = [];
  id = tool_id;
  name = name;
  extra_content = extra_content;
  payload = none;
}

abbrev pub new_tool_state : ℕ → Key → Text → Option Key → Option ToolBlockState → ToolBlockState
new_tool_state index tool_id name extra_content none = record {
  block_index = index;
  tool_id = tool_id;
  name = name;
  extra_content = extra_content;
  started = true;
}
new_tool_state index tool_id name extra_content (some old) = record {
  block_index = index;
  tool_id = tool_id;
  name = name;
  extra_content = if is_some extra_content then extra_content else old.extra_content;
  started = true;
}

unfoldable pub start_tool_block :
    Ledger → (tool_index tool_id : Key) (name : Text) (extra_content : Option Key) → Written
unfolding block_start lookup insert
start_tool_block l tool_index tool_id name extra_content =
    let (b, index) = allocate_index l.blocks in
    let state = new_tool_state index tool_id name extra_content (lookup tool_index b.tool_states) in
    block_start (with_blocks l (record b { tool_states = insert tool_index state b.tool_states }))
      index (tool_block tool_id name extra_content)

-- `tool_states[tool_index]` raises a KeyError if there is none.
unfoldable pub emit_tool_delta : Ledger → (tool_index : Key) (partial_json : Text) → Option Written
unfolding lookup block_delta
emit_tool_delta l tool_index partial_json =
    from_option (lookup tool_index l.blocks.tool_states) none
      (λ state. some (block_delta l state.block_index input_json_delta partial_json))

unfoldable pub stop_tool_block : Ledger → (tool_index : Key) → Option Written
unfolding lookup block_stop
stop_tool_block l tool_index =
    from_option (lookup tool_index l.blocks.tool_states) none
      (λ state. some (block_stop l state.block_index))

unfoldable pub ensure_thinking_block : Ledger → Written
unfolding stop_text_block start_thinking_block
ensure_thinking_block l =
    and_then (if l.blocks.text_started then stop_text_block l else (l, []))
      (λ m. if m.blocks.thinking_started then (m, []) else start_thinking_block m)

unfoldable pub ensure_text_block : Ledger → Written
unfolding stop_thinking_block start_text_block
ensure_text_block l =
    and_then (if l.blocks.thinking_started then stop_thinking_block l else (l, []))
      (λ m. if m.blocks.text_started then (m, []) else start_text_block m)

unfoldable pub close_content_blocks : Ledger → Written
unfolding stop_thinking_block stop_text_block
close_content_blocks l =
    and_then (if l.blocks.thinking_started then stop_thinking_block l else (l, []))
      (λ m. if m.blocks.text_started then stop_text_block m else (m, []))

-- The loop of `close_all_blocks`. The keys are those before it; the states are shared objects.
unfoldable pub stop_tools : Ledger → List Key → Written
unfolding lookup block_stop
stop_tools l [] = (l, [])
stop_tools l (i ∷ is) =
    and_then
      (from_option (lookup i l.blocks.tool_states) (l, [])
        (λ state. if state.started then block_stop l state.block_index else (l, [])))
      (λ m. stop_tools m is)

unfoldable pub close_all_blocks : Ledger → Written
unfolding close_content_blocks stop_tools
close_all_blocks l =
    and_then (close_content_blocks l) (λ m. stop_tools m (keys m.blocks.tool_states))

unfoldable pub close_stack : Ledger → List ℕ → Written
unfolding close_state
close_stack l [] = (record l { open_stack = [] }, [])
close_stack l (index ∷ stack) =
    let (m, events) = close_stack (close_state l index) stack in
    (m, content_block_stop index ∷ events)

unfoldable pub close_unclosed_blocks : Ledger → Written
unfolding close_stack
close_unclosed_blocks l = close_stack l l.open_stack

abbrev pub tool_blocks : Ledger → List StreamBlockState
tool_blocks l = filter (λ b. is_tool_use b.block_type) (values l.content_blocks)

abbrev pub has_emitted_tool_block : Ledger → Bool
has_emitted_tool_block l = not (is_empty (tool_blocks l))

abbrev pub has_content_block : Ledger → Bool
has_content_block l = not (is_empty l.content_blocks)

abbrev pub final_stop_reason : Ledger → (tool_use_reason fallback : Key) → Key
final_stop_reason l tool_use_reason fallback =
    if has_emitted_tool_block l then tool_use_reason else fallback

abbrev pub accumulated_text : Ledger → Text
accumulated_text l = join l.text_parts

abbrev pub accumulated_reasoning : Ledger → Text
accumulated_reasoning l = join l.thinking_parts
