-- ===== src/Trees/Runtime/Cancel/StopsNode.antt =====
-- What `cancel_node` leaves behind.
use design.Common.{
  ◌≡◌, refl, Bool, true, false, Option, none, some, List, Key, if◌then◌else◌, Option-cases, inl,
  inr, is_some, lookup, contains, arith,
}
use design.Trees.Node.{ok}
use design.Trees.Queue.{Queue, drain}
use design.Trees.Queue
use design.Trees.Queue.Laws
use design.Trees.Transitions.{QueueEntry, TreeCancellation, ActiveClaim, runs_node, claim_of}
use design.Trees.Runtime.{Tree}
use design.Trees.Runtime.Valid.{TreeIsValid, Succeeds, and_then-Succeeds}
use design.Trees.Runtime.Claims.{queue_entries_from-ok}
use design.Trees.Runtime.Cancel.{cancelled_targets, cancel_node, cancel_found, active_if, update_if}
use design.Trees.Runtime.Cancel.Quiet.{IsQuiet, Quiets}
use design.Trees.Runtime.Cancel.Stops.{ActiveIsShown, runs_node-request, cancelled_targets-Succeeds}

claim_of-active_if :
    (runs : Bool) (a : Option ActiveClaim)
    → (if runs then claim_of (active_if runs a) else none) ≡ (if runs then claim_of a else none)
claim_of-active_if true none = refl
claim_of-active_if true (some a) = refl
claim_of-active_if false a = refl

update_if-ok :
    (changed : Bool) (t : Tree)
    → TreeIsValid t
    → (update : Option (List QueueEntry)) × (update_if changed t ≡ ok update)
update_if-ok false t v = (none, refl)
update_if-ok true t v =
    let (entries, e) = queue_entries_from-ok t v 0 t.queue.deque in (some entries, rw e refl)

-- The tree that `cancel_node` reports on: cancellation requested of the node's claim, node dequeued.
dequeued : Tree → Key → Tree
dequeued t k = record t {
  queue = (Queue.remove t.queue k).0;
  active = active_if (runs_node t.active k) t.active;
}

runs_node-active_if :
    (runs : Bool) (a : Option ActiveClaim) (k : Key)
    → runs_node (active_if runs a) k ≡ runs_node a k
runs_node-active_if true a k = runs_node-request a k
runs_node-active_if false a k = refl

dequeued-IsValid : (t : Tree) (k : Key) → TreeIsValid t → TreeIsValid (dequeued t k)
unfolding dequeued
dequeued-IsValid t k v = record {
  graph = v.graph;
  queue = ((Laws.Queue-Promises t.queue v.queue).after_remove k).0;
  shown = v.shown;
  running = λ j n p run.
      ground (arith, runs_node-active_if (runs_node t.active k) t.active j, v.running j n p run);
}

-- The tree is valid, this node neither waits nor runs and is not queued, no other node starts to
-- wait or run.
pub record NodeIsStopped (t t' : Tree) (k : Key) : Type 0 where
  pub valid : TreeIsValid t'
  pub quiet : IsQuiet t' k
  pub others : (j : Key) → IsQuiet t j → IsQuiet t' j
  pub dequeued : is_some (lookup k t.graph.nodes) ≡ true → contains k t'.queue.deque ≡ false
  pub cancelled : t'.active ≡ active_if (runs_node t.active k) t.active

node_stopped :
    (t t' : Tree) (k : Key)
    → TreeIsValid t
    → Quiets (dequeued t k) t' × IsQuiet t' k
    → NodeIsStopped t t' k
unfolding dequeued
node_stopped t t' k v (q, here) = record {
  valid = q.valid;
  quiet = here;
  others = q.quiet;
  dequeued = λ _. ground (
    arith,
    q.same_queue,
    (Laws.Queue-Promises t.queue v.queue).after_remove k,
    Laws.contains-discard k k t.queue.deque,
  );
  cancelled = q.same_active;
}

-- In a valid tree whose active claim's node has a status message if it has failed, `cancel_node`
-- returns. Afterwards the tree is valid, the node neither waits nor runs, no other node has
-- started to, the node is not queued if it exists, and a claim on it has its cancellation
-- requested and is returned.
pub cancel_node-Succeeds :
    (t : Tree) (k : Key)
    → TreeIsValid t
    → ActiveIsShown t
    → Succeeds
        (λ t' r.
          NodeIsStopped t t' k
          × (r.active_claim ≡ (if runs_node t.active k then claim_of t.active else none)))
        (cancel_node t k)
unfolding cancel_node cancel_found dequeued
cancel_node-Succeeds t k v shown =
    let d = dequeued t k in
    let runs = runs_node t.active k in
    let ends : Tree → TreeCancellation → Type 0 = λ t' r.
      NodeIsStopped t t' k × (r.active_claim ≡ (if runs then claim_of t.active else none)) in
    elim (Option-cases (lookup k t.graph.nodes)) [
      | inl e ↦ rw e (
        record {
          valid = record {
            graph = v.graph;
            queue = v.queue;
            shown = v.shown;
            running = (dequeued-IsValid t k v).running;
          };
          quiet = λ n h. ground (arith, e);
          others = λ j q. q;
          dequeued = λ there. absurd (ground (arith));
          cancelled = refl;
        },
        refl,
      )
      | inr (n, e) ↦ rw e (
          and_then-Succeeds (λ t' _. Quiets d t' × IsQuiet t' k) ends (cancelled_targets d n runs) _
            (cancelled_targets-Succeeds d k n runs (dequeued-IsValid t k v) e
              (λ run. shown k n run e))
            (λ nodes t' q.
              let (update, u) = update_if-ok (Queue.remove t.queue k).1 t' q.0.valid in
              rw u (node_stopped t t' k v q, claim_of-active_if runs t.active)))
    ]
