-- ===== src/Trees/Runtime/Settle.antt =====
-- How a claim's node is settled, and the reads, of messaging/trees/runtime.py.
pub mod Keeps
pub mod Records
use design.Common.{
  ◌+◌, Bool, false, not, ◌&&◌, ◌||◌, Option, none, some, List, [], Key, ◌==◌, if◌then◌else◌,
  from_option, is_some, lookup,
}
use design.Trees.Node.{
  scope_eq, MessageNode, MessageState, in_progress, completed, is_in_progress, is_error,
  update_state,
}
use design.Trees.Queue.{qsize}
use design.Trees.Graph.{
  TreeSnapshot, get_node, resolve_reference, modify_node, snapshot, all_reference_ids,
}
use design.Trees.Transitions.{ReplyTarget, NodeView, ActiveClaim}
use design.Trees.Runtime.{Tree, with_graph}

abbrev pub may_settle : Option ActiveClaim → Key → Bool
may_settle none claim_id = false
may_settle (some a) claim_id = a.claim.claim_id == claim_id && not a.cancellation_requested

abbrev pub active_node : Tree → Option ActiveClaim → Option MessageNode
active_node t none = none
active_node t (some a) = get_node t.graph a.claim.node.node_id

abbrev pub settle : Tree → MessageNode → MessageState → Option Key → Tree × Option TreeSnapshot
settle t n state session_id =
    let g = modify_node t.graph n.node_id (λ m. update_state m state session_id) in
    (with_graph t g, some (snapshot g))

unfoldable pub record_session : Tree → (claim_id session_id : Key) → Tree × Option TreeSnapshot
unfolding lookup modify_node update_state snapshot
record_session t claim_id session_id =
    if may_settle t.active claim_id
    then from_option (active_node t t.active) (t, none)
        (λ n.
          if is_in_progress n.state then settle t n in_progress (some session_id) else (t, none))
    else (t, none)

unfoldable pub complete_claim : Tree → Key → Option Key → Tree × Option TreeSnapshot
unfolding lookup modify_node update_state snapshot
complete_claim t claim_id session_id =
    if may_settle t.active claim_id
    then from_option (active_node t t.active) (t, none)
        (λ n.
          if is_in_progress n.state || is_error n.state
          then settle t n completed session_id
          else (t, none))
    else (t, none)

unfoldable pub resolve_reply : Tree → Key → Option ReplyTarget
unfolding resolve_reference
resolve_reply t r = from_option (resolve_reference t.graph r) none λ (n, kind). some (record {
  node_id = n.node_id;
  reference_id = r;
  reference_kind = kind;
  queue_position = if is_some t.active then some (qsize t.queue + 1) else none;
})

unfoldable pub node_view : Tree → Key → Option NodeView
unfolding lookup
node_view t k = from_option (get_node t.graph k) none λ n. some (record {
  identity = t.graph.identity;
  node_id = n.node_id;
  state = n.state;
  parent_id = n.parent_id;
  session_id = n.session_id;
})

unfoldable pub message_ids_for_chat : Tree → (platform chat_id : Key) → List Key
unfolding all_reference_ids
message_ids_for_chat t platform chat_id =
    if scope_eq t.graph.identity.scope (record { platform = platform; chat_id = chat_id })
    then all_reference_ids t.graph
    else []
