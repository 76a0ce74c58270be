-- ===== src/Trees/Transitions.antt =====
-- messaging/trees/transitions.py, and _ActiveClaim of runtime.py.
use design.Common.{ℕ, Bool, false, true, Option, none, some, List, Key, ◌==◌, is_some}
use design.Trees.Node.{MessageScope, MessageState, MessageReferenceKind}
use design.Trees.Graph.{TreeIdentity, TreeSnapshot}

pub data AdmissionRejection : Type 0 where
  duplicate parent_removed : AdmissionRejection

pub record NodeUiTarget : Type 0 where
  pub scope : MessageScope
  pub node_id : Key
  pub status_message_id : Key

pub record NodeClaim : Type 0 where
  pub identity : TreeIdentity
  pub claim_id : Key
  pub node : NodeUiTarget
  pub prompt : Key
  pub parent_session_id : Option Key

pub record QueueEntry : Type 0 where
  pub node : NodeUiTarget
  pub position : ℕ

pub record QueueDecision : Type 0 where
  pub claim : Option NodeClaim
  pub position : Option ℕ
  pub snapshot : Option TreeSnapshot
  pub rejection : Option AdmissionRejection

abbrev pub accepted : QueueDecision → Bool
accepted d = is_some d.snapshot

pub record CompletionResult : Type 0 where
  pub next_claim : Option NodeClaim
  pub queue : List QueueEntry

pub record TreeCancellation : Type 0 where
  pub nodes : List NodeUiTarget
  pub active_claim : Option NodeClaim
  pub queue_update : Option (List QueueEntry)

pub record ReplyTarget : Type 0 where
  pub node_id : Key
  pub reference_id : Key
  pub reference_kind : MessageReferenceKind
  pub queue_position : Option ℕ

pub record NodeView : Type 0 where
  pub identity : TreeIdentity
  pub node_id : Key
  pub state : MessageState
  pub parent_id : Option Key
  pub session_id : Option Key

pub record ActiveClaim : Type 0 where
  pub claim : NodeClaim
  pub cancellation_requested : Bool

abbrev pub runs_node : Option ActiveClaim → Key → Bool
runs_node none k = false
runs_node (some a) k = a.claim.node.node_id == k

abbrev pub request_cancellation : Option ActiveClaim → Option ActiveClaim
request_cancellation none = none
request_cancellation (some a) = some (record a { cancellation_requested = true })

abbrev pub claim_of : Option ActiveClaim → Option NodeClaim
claim_of none = none
claim_of (some a) = some a.claim
