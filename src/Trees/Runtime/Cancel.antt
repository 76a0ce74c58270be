-- ===== src/Trees/Runtime/Cancel.antt =====
-- `cancel_node` and `cancel_all` of messaging/trees/runtime.py.
pub mod Quiet
pub mod Stops
pub mod StopsNode
use design.Common.{
  Bool, true, false, ◌&&◌, Option, none, some, List, [], ◌∷◌, ◌++◌, map, Key, ◌==◌, if◌then◌else◌,
  from_option, lookup, values,
}
use design.Trees.Node.{
  MessageNode, is_error, is_runnable, update_state, mark_error, Result, ok, ◌>>=◌,
}
use design.Trees.Queue.{Queue, put, discard, items, qsize, drain}
use design.Trees.Queue
use design.Trees.Graph.{get_node, modify_node}
use design.Trees.Transitions.{
  NodeUiTarget, NodeClaim, QueueEntry, TreeCancellation, ActiveClaim, runs_node,
  request_cancellation, claim_of,
}
use design.Trees.Runtime.{
  Tree, Outcome, and_then, with_graph, ui_target, queue_entries, queue_entries_from,
}

-- `node.mark_error()` followed by `self._ui_target(node)`.
unfoldable pub cancel_runnable : Tree → MessageNode → Outcome (List NodeUiTarget)
unfolding ui_target
cancel_runnable t n = (
  with_graph t (modify_node t.graph n.node_id mark_error),
  ui_target (mark_error n) >>= λ target. ok (target ∷ []),
)

abbrev pub report_error : Tree → MessageNode → Outcome (List NodeUiTarget)
report_error t n = (t, ui_target n >>= λ target. ok (target ∷ []))

abbrev pub cancelled_targets : Tree → MessageNode → (is_active : Bool) → Outcome (List NodeUiTarget)
cancelled_targets t n is_active =
    if is_runnable n.state
    then cancel_runnable t n
    else (if is_error n.state && is_active then report_error t n else (t, ok []))

abbrev pub update_if : Bool → Tree → Result (Option (List QueueEntry))
update_if changed t =
    if changed then queue_entries t >>= (λ entries. ok (some entries)) else ok none

abbrev pub active_if : Bool → Option ActiveClaim → Option ActiveClaim
active_if runs active = if runs then request_cancellation active else active

unfoldable pub cancel_found : Tree → Key → MessageNode → (runs : Bool) → Outcome TreeCancellation
unfolding Queue.remove cancel_runnable queue_entries_from
cancel_found t k n runs =
    let (q, changed) = Queue.remove t.queue k in
    and_then (cancelled_targets (record t { queue = q }) n runs) λ nodes t'. (
      t',
      update_if changed t' >>= λ entries. ok (record {
        nodes = nodes;
        active_claim = if runs then claim_of t.active else none;
        queue_update = entries;
      }),
    )

unfoldable pub cancel_node : Tree → Key → Outcome TreeCancellation
unfolding lookup cancel_found
cancel_node t k =
    let runs = runs_node t.active k in
    let marked = record t { active = active_if runs t.active } in
    from_option (get_node t.graph k)
      (
        marked,
        ok (record {
          nodes = [];
          active_claim = if runs then claim_of t.active else none;
          queue_update = none;
        }),
      )
      (λ n. cancel_found marked k n runs)

-- A node of one of the loops of `cancel_all`.
abbrev pub cancel_each : Tree → Option MessageNode → Outcome (List NodeUiTarget)
cancel_each t none = (t, ok [])
cancel_each t (some n) = if is_runnable n.state then cancel_runnable t n else (t, ok [])

-- The loop over the drained queue, and the loop over all nodes but those seen.
unfoldable pub cancel_ids : Tree → List Key → Outcome (List NodeUiTarget)
unfolding lookup cancel_runnable
cancel_ids t [] = (t, ok [])
cancel_ids t (k ∷ ks) =
    and_then (cancel_each t (get_node t.graph k))
      λ first t'. and_then (cancel_ids t' ks) (λ rest t''. (t'', ok (first ++ rest)))

abbrev pub active_targets : Tree → Option MessageNode → Outcome (List NodeUiTarget)
active_targets t none = (t, ok [])
active_targets t (some n) = cancelled_targets t n true

abbrev pub cancel_active : Tree → Option ActiveClaim → Outcome (List NodeUiTarget)
cancel_active t none = (t, ok [])
cancel_active t (some a) = active_targets t (get_node t.graph a.claim.node.node_id)

abbrev pub any_items : List Key → Bool
any_items [] = false
any_items (_ ∷ _) = true

-- A node that an earlier loop has seen is no longer runnable, so the last loop skips it by its
-- state as well as by `seen`.
unfoldable pub cancel_all : Tree → Outcome TreeCancellation
unfolding lookup cancel_runnable cancel_ids drain
cancel_all t =
    let marked = record t { active = request_cancellation t.active } in
    and_then (cancel_active marked t.active) λ first t'.
      let (q, queued) = drain t'.queue in
      and_then (cancel_ids (record t' { queue = q }) queued) λ second t''.
        and_then (cancel_ids t'' (map (λ (n : MessageNode). n.node_id) (values t''.graph.nodes)))
          λ third t'''. (
            t''',
            ok (record {
              nodes = first ++ second ++ third;
              active_claim = claim_of t.active;
              queue_update = if any_items queued then some [] else none;
            }),
          )
