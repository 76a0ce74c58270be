-- ===== src/Trees/Runtime.antt =====
-- messaging/trees/runtime.py: the aggregate of graph, queue and active claim. Every method runs
-- under the tree's lock, so it is one function; a ValueError keeps the changes made before it.
pub mod Cancel
pub mod Valid
pub mod Claims
pub mod Release
pub mod Settle
use design.Common.{
  ℕ, suc, ◌+◌, Bool, true, false, not, ◌&&◌, ◌||◌, Option, none, some, List, [], ◌∷◌, ◌++◌, map,
  Key, ◌==◌, if◌then◌else◌, from_option, is_some, is_text, contains, lookup, values,
}
use design.Trees.Node.{
  MessageScope, scope_eq, MessageNode, MessageState, in_progress, completed, error,
  MessageReferenceKind, is_pending, is_in_progress, is_error, is_runnable, update_state, mark_error,
  TreeError, no_status, Result, ok, raised, ◌>>=◌,
}
use design.Trees.Queue.{Queue, put, discard, items, qsize, drain}
use design.Trees.Queue
use design.Trees.Graph.{
  Graph, TreeIdentity, NewNode, TreeSnapshot, get_node, get_parent_session_id, resolve_reference,
  modify_node, add_node, snapshot, all_reference_ids,
}
use design.Trees.Transitions.{
  AdmissionRejection, duplicate, parent_removed, NodeUiTarget, NodeClaim, QueueEntry, QueueDecision,
  accepted, CompletionResult, TreeCancellation, ReplyTarget, NodeView, ActiveClaim,
}

pub record Tree : Type 0 where
  pub graph : Graph
  pub queue : Queue
  pub active : Option ActiveClaim

-- A method's new state, and what it returns or raises.
abbrev pub Outcome : Type 0 → Type 0
Outcome A = Tree × Result A

abbrev pub and_then : {A B : Type 0} → Outcome A → (A → Tree → Outcome B) → Outcome B
and_then (t, ok a) f = f a t
and_then (t, raised e) f = (t, raised e)

abbrev pub with_graph : Tree → Graph → Tree
with_graph t g = record t { graph = g }

abbrev pub ui_target_of : MessageNode → Option Key → Result NodeUiTarget
ui_target_of n none = raised no_status
ui_target_of n (some s) =
    ok (record { scope = n.scope; node_id = n.node_id; status_message_id = s })

unfoldable pub ui_target : MessageNode → Result NodeUiTarget
ui_target n = ui_target_of n n.status_message_id

unfoldable pub queue_entries_from : Graph → ℕ → List Key → Result (List QueueEntry)
unfolding ui_target lookup
queue_entries_from g done [] = ok []
queue_entries_from g done (k ∷ ks) =
    let skipped = queue_entries_from g done ks in
    let rest = queue_entries_from g (suc done) ks in
    from_option (get_node g k) skipped λ n.
      if is_pending n.state
      then (ui_target n >>= λ target.
          rest >>= λ entries. ok (record { node = target; position = suc done } ∷ entries))
      else skipped

abbrev pub queue_entries : Tree → Result (List QueueEntry)
queue_entries t = queue_entries_from t.graph 0 (items t.queue)

abbrev pub new_claim : Graph → (claim_id : Key) → MessageNode → NodeUiTarget → NodeClaim
new_claim g claim_id n target = record {
  identity = g.identity;
  claim_id = claim_id;
  node = target;
  prompt = n.prompt;
  parent_session_id = get_parent_session_id g n.node_id;
}

-- `_claim`; `claim_id` is the value of `uuid4().hex`.
unfoldable pub claim : Tree → (claim_id : Key) → MessageNode → Outcome NodeClaim
unfolding modify_node update_state ui_target get_parent_session_id
claim t claim_id n =
    let n' = update_state n in_progress none in
    let g = modify_node t.graph n.node_id (λ m. update_state m in_progress none) in
    and_then (with_graph t g, ui_target n')
      λ target t'.
        let c = new_claim g claim_id n' target in
        (record t' { active = some (record { claim = c; cancellation_requested = false }) }, ok c)

abbrev pub rejected : AdmissionRejection → QueueDecision
rejected r = record { claim = none; position = none; snapshot = none; rejection = some r }

abbrev pub admitted : Tree → Option NodeClaim → Option ℕ → QueueDecision
admitted t c position = record {
  claim = c;
  position = position;
  snapshot = some (snapshot t.graph);
  rejection = none;
}

abbrev pub enqueue : Tree → Queue × Bool → Outcome QueueDecision
enqueue t (q, false) = (t, ok (rejected duplicate))
enqueue t (q, true) =
    let t' = record t { queue = q } in (t', ok (admitted t' none (some (qsize q))))

abbrev pub admit :
    Tree → (claim_id : Key) → MessageNode → Option ActiveClaim → Outcome QueueDecision
admit t claim_id n none =
    and_then (claim t claim_id n) (λ c t'. (t', ok (admitted t' (some c) none)))
admit t claim_id n (some _) = enqueue t (put t.queue n.node_id)

unfoldable pub enqueue_or_claim : Tree → (claim_id node_id : Key) → Outcome QueueDecision
unfolding lookup claim put snapshot
enqueue_or_claim t claim_id node_id =
    from_option (get_node t.graph node_id) (t, ok (rejected duplicate))
      λ n. if is_pending n.state then admit t claim_id n t.active else (t, ok (rejected duplicate))

abbrev pub added : Tree → (claim_id : Key) → NewNode → Result Graph → Outcome QueueDecision
added t claim_id r (raised e) = (t, raised e)
added t claim_id r (ok g) = enqueue_or_claim (with_graph t g) claim_id r.node_id

unfoldable pub add_and_enqueue : Tree → (claim_id : Key) → NewNode → Outcome QueueDecision
unfolding add_node enqueue_or_claim
add_and_enqueue t claim_id r = added t claim_id r (add_node t.graph r)

abbrev pub holds_claim : Option ActiveClaim → Key → Bool
holds_claim none claim_id = false
holds_claim (some a) claim_id = a.claim.claim_id == claim_id

abbrev pub popped : Tree → Key → List Key → Tree
popped t k ks = record t { queue = record { deque = ks; index = discard k t.queue.index } }

-- The `while` loop over `self._queue.pop()`, with the deque given. An empty id ends it.
unfoldable pub claim_next : Tree → (claim_id : Key) → List Key → Outcome (Option NodeClaim)
unfolding lookup claim discard
claim_next t claim_id [] = (t, ok none)
claim_next t claim_id (k ∷ ks) =
    let rest = claim_next (popped t k ks) claim_id ks in
    if is_text k
    then from_option (get_node t.graph k) rest (λ n.
      if is_pending n.state
      then and_then (claim (popped t k ks) claim_id n) (λ c t'. (t', ok (some c)))
      else rest)
    else (popped t k ks, ok none)

abbrev pub completion : Tree → Option NodeClaim → Outcome CompletionResult
completion t c = (t, queue_entries t >>= λ entries. ok (record { next_claim = c; queue = entries }))

unfoldable pub finish_and_claim_next : Tree → (finished claim_id : Key) → Outcome CompletionResult
unfolding claim_next queue_entries_from
finish_and_claim_next t finished claim_id =
    if holds_claim t.active finished
    then and_then (claim_next (record t { active = none }) claim_id t.queue.deque)
        (λ c t'. completion t' c)
    else completion t none
