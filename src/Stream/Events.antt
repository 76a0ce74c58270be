-- ===== src/Stream/Events.antt =====
-- The events of core/anthropic/streaming, before emitter.py writes them as text. A text is a list of
-- characters, and an index is kept one higher than in the source, whose -1 is 0 here.
use design.Common.{ℕ, Bool, true, false, Option, List, [], ◌∷◌, ◌++◌, Key}

abbrev pub Text : Type 0
Text = List ℕ

-- The `type` of a content block. The three result and call types of server_tool_sse.py are
-- `server_tool`; `unlisted` is any other.
pub data BlockType : Type 0 where
  text thinking tool_use redacted_thinking server_tool unlisted : BlockType

-- The `content_block` of a start event. An empty `extra_content` is `none`.
pub record Block : Type 0 where
  pub type : BlockType
  pub content : Text
  pub id : Key
  pub name : Text
  pub extra_content : Option Key
  pub payload : Option Key

pub data DeltaType : Type 0 where
  text_delta thinking_delta signature_delta input_json_delta unlisted_delta : DeltaType

pub record Delta : Type 0 where
  pub type : DeltaType
  pub content : Text

pub record Usage : Type 0 where
  pub input_tokens : ℕ
  pub output_tokens : ℕ
  pub fields : List (Key × ℕ)

pub data Event : Type 0 where
  message_start : (message_id model : Key) (input_tokens : ℕ) → Event
  content_block_start : (index : ℕ) → Block → Event
  content_block_delta : (index : ℕ) → Delta → Event
  content_block_stop : (index : ℕ) → Event
  message_delta : (stop_reason : Key) → Usage → Event
  message_stop : Event
  error : Event
  other : Event

abbrev pub is_tool_use : BlockType → Bool
is_tool_use tool_use = true
is_tool_use _ = false

abbrev pub is_text_type : BlockType → Bool
is_text_type text = true
is_text_type _ = false

abbrev pub is_thinking_type : BlockType → Bool
is_thinking_type thinking = true
is_thinking_type _ = false

abbrev pub is_empty : {A : Type 0} → List A → Bool
is_empty [] = true
is_empty (_ ∷ _) = false

-- `"".join(parts)`.
abbrev pub join : List Text → Text
join [] = []
join (s ∷ parts) = s ++ join parts
