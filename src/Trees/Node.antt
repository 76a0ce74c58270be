-- ===== src/Trees/Node.antt =====
-- messaging/trees/node.py, MessageScope of messaging/models.py, and the raised errors.
use design.Common.{
  Bool, true, false, ◌&&◌, ◌||◌, Option, none, List, Key, ◌==◌, is_given, if◌then◌else◌,
}

pub record MessageScope : Type 0 where
  pub platform : Key
  pub chat_id : Key

abbrev pub scope_eq : MessageScope → MessageScope → Bool
scope_eq a b = a.platform == b.platform && a.chat_id == b.chat_id

pub data MessageState : Type 0 where
  pending in_progress completed error : MessageState

pub data MessageReferenceKind : Type 0 where
  prompt status : MessageReferenceKind

pub record MessageNode : Type 0 where
  pub node_id : Key
  pub scope : MessageScope
  pub prompt : Key
  pub status_message_id : Option Key
  pub state : MessageState
  pub parent_id : Option Key
  pub parent_reference_id : Option Key
  pub session_id : Option Key
  pub children_ids : List Key

abbrev pub is_pending : MessageState → Bool
is_pending pending = true
is_pending _ = false

abbrev pub is_in_progress : MessageState → Bool
is_in_progress in_progress = true
is_in_progress _ = false

abbrev pub is_error : MessageState → Bool
is_error error = true
is_error _ = false

abbrev pub is_completed : MessageState → Bool
is_completed completed = true
is_completed _ = false

-- `state in (PENDING, IN_PROGRESS)`.
abbrev pub is_runnable : MessageState → Bool
is_runnable s = is_pending s || is_in_progress s

-- An absent or empty session id leaves the old one.
unfoldable pub update_state : MessageNode → MessageState → Option Key → MessageNode
update_state n state session_id =
    if is_given session_id
    then record n { state = state; session_id = session_id }
    else record n { state = state }

abbrev pub mark_error : MessageNode → MessageNode
mark_error n = update_state n error none

unfoldable pub clear_status : MessageNode → MessageNode
unfolding update_state
clear_status n = mark_error (record n { status_message_id = none; session_id = none })

-- The ValueErrors of graph.py and runtime.py.
pub data TreeError : Type 0 where
  cross_scope unknown_parent foreign_reference duplicate_node same_reference : TreeError
  taken_reference taken_status no_status : TreeError

pub data Result {ℓ} (A : Type ℓ) : Type ℓ where
  ok : A → Result A
  raised : TreeError → Result A

infixl 5 ◌>>=◌
abbrev pub ◌>>=◌ {ℓ κ} : {A : Type ℓ} {B : Type κ} → Result A → (A → Result B) → Result B
ok a >>= f = f a
raised e >>= f = raised e
