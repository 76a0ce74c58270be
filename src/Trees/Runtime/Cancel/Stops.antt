-- ===== src/Trees/Runtime/Cancel/Stops.antt =====
-- What `cancel_all` leaves behind, and when it raises.
use design.Common.{
  ◌≡◌, refl, Bool, true, false, Option, none, some, List, [], ◌∷◌, map, Key, ◌==◌, Option-cases,
  Bool-cases, inl, inr, is_some, lookup, contains, values, arith,
}
use design.Trees.Node.{MessageNode, is_runnable, is_error, no_status, ok, raised}
use design.Trees.Queue.{drain}
use design.Trees.Transitions.{
  TreeCancellation, ActiveClaim, runs_node, request_cancellation, claim_of,
}
use design.Trees.Runtime.{Tree, Outcome, ui_target}
use design.Trees.Runtime.Valid.{TreeIsValid, Succeeds, and_then-Succeeds}
use design.Trees.Runtime.Cancel.{
  report_error, cancelled_targets, cancel_active, cancel_ids, cancel_all,
}
use design.Trees.Runtime.Cancel.Quiet.{
  IsQuiet, Quiets, Quiets-refl, cancel_runnable-Succeeds, cancel_ids-Succeeds,
}

-- If the active claim's node has failed, it still has its status message.
abbrev pub ActiveIsShown : Tree → Type 0
ActiveIsShown t =
    (k : Key) (n : MessageNode)
    → runs_node t.active k ≡ true
    → lookup k t.graph.nodes ≡ some n
    → is_error n.state ≡ true
    → is_some n.status_message_id ≡ true

marked_tree : Tree → Tree
marked_tree t = record t { active = request_cancellation t.active }

pub runs_node-request :
    (a : Option ActiveClaim) (k : Key) → runs_node (request_cancellation a) k ≡ runs_node a k
runs_node-request none k = refl
runs_node-request (some a) k = refl

marked-IsValid : (t : Tree) → TreeIsValid t → TreeIsValid (marked_tree t)
unfolding marked_tree
marked-IsValid t v = record {
  graph = v.graph;
  queue = v.queue;
  shown = v.shown;
  running = λ k n p run. ground (arith, runs_node-request t.active k, v.running k n p run);
}

report_error-Succeeds :
    (t : Tree) (k : Key) (n : MessageNode)
    → TreeIsValid t
    → lookup k t.graph.nodes ≡ some n
    → is_runnable n.state ≡ false
    → is_some n.status_message_id ≡ true
    → Succeeds (λ t' _. Quiets t t' × IsQuiet t' k) (report_error t n)
unfolding ui_target
report_error-Succeeds t k n v p still shown = elim (Option-cases n.status_message_id) [
  | inl e ↦ absurd (ground (arith))
  | inr (s, e) ↦ rw e (Quiets-refl t v, λ m q. ground (arith))
]

pub cancelled_targets-Succeeds :
    (t : Tree) (k : Key) (n : MessageNode) (is_active : Bool)
    → TreeIsValid t
    → lookup k t.graph.nodes ≡ some n
    → (is_active ≡ true → is_error n.state ≡ true → is_some n.status_message_id ≡ true)
    → Succeeds (λ t' _. Quiets t t' × IsQuiet t' k) (cancelled_targets t n is_active)
cancelled_targets-Succeeds t k n is_active v p shown = elim (Bool-cases (is_runnable n.state)) [
  | inl run ↦ rw run (cancel_runnable-Succeeds t k n v p run)
  | inr still ↦ elim (Bool-cases (is_error n.state)) [
    | inl failed ↦ elim (Bool-cases is_active) [
      | inl active ↦
          rw (still, failed, active) (report_error-Succeeds t k n v p still (shown active failed))
      | inr other ↦ rw (still, failed, other) (Quiets-refl t v, λ m q. ground (arith))
    ]
    | inr fine ↦ rw (still, fine) (Quiets-refl t v, λ m q. ground (arith))
  ]
]

Succeeds-first :
    {A : Type 0} (P Q : Tree → Type 0) (o : Outcome A)
    → Succeeds (λ t _. P t × Q t) o
    → Succeeds (λ t _. P t) o
Succeeds-first P Q (t, ok x) h = h.0
Succeeds-first P Q (t, raised x) h = absurd h

-- The active claim's node, if it is there, is quiet afterwards.
cancel_active-Succeeds :
    (t : Tree) (active : Option ActiveClaim)
    → TreeIsValid t
    → ((k : Key) (n : MessageNode)
        → runs_node active k ≡ true
        → lookup k t.graph.nodes ≡ some n
        → is_error n.state ≡ true
        → is_some n.status_message_id ≡ true)
    → Succeeds (λ t' _. Quiets t t') (cancel_active t active)
cancel_active-Succeeds t none v shown = Quiets-refl t v
cancel_active-Succeeds t (some a) v shown =
    let k = a.claim.node.node_id in
    elim (Option-cases (lookup k t.graph.nodes)) [
      | inl e ↦ rw e (Quiets-refl t v)
      | inr (n, e) ↦ rw e (
          Succeeds-first (Quiets t) (λ t'. IsQuiet t' k) (cancelled_targets t n true)
            (cancelled_targets-Succeeds t k n true v e
              (λ _ failed. shown k n (ground (arith)) e failed)))
    ]

node_ids : List (Key × MessageNode) → List Key
node_ids m = map (λ (n : MessageNode). n.node_id) (values m)

contains-node_ids :
    (k : Key) (n : MessageNode) (m : List (Key × MessageNode))
    → lookup k m ≡ some n
    → n.node_id ≡ k
    → contains k (node_ids m) ≡ true
unfolding node_ids contains lookup
contains-node_ids k n [] h keyed = absurd (ground (arith))
contains-node_ids k n ((j, x) ∷ m) h keyed = elim (Bool-cases (j == k)) [
  | inl e ↦ ground (arith)
  | inr e ↦ ground (arith, contains-node_ids k n m)
]

drained : Tree → Tree
drained t = record t { queue = (drain t.queue).0 }

drained-IsValid : (t : Tree) → TreeIsValid t → TreeIsValid (drained t)
unfolding drained drain
drained-IsValid t v = record {
  graph = v.graph;
  queue = record { indexed = λ k. refl; distinct = tt };
  shown = v.shown;
  running = v.running;
}

-- The nodes of the tree are the same as before, none of them waits or runs, the queue is empty.
pub record IsStopped (t t' : Tree) : Type 0 where
  pub valid : TreeIsValid t'
  pub quiet : (k : Key) → IsQuiet t' k
  pub domain : (k : Key) → is_some (lookup k t'.graph.nodes) ≡ is_some (lookup k t.graph.nodes)
  pub no_queue : t'.queue.deque ≡ []
  pub cancelled : t'.active ≡ request_cancellation t.active

stopped :
    (t t1 t2 t3 : Tree)
    → Quiets (marked_tree t) t1
    → Quiets (drained t1) t2
    → Quiets t2 t3
    → ((k : Key) → contains k (node_ids t2.graph.nodes) ≡ true → IsQuiet t3 k)
    → IsStopped t t3
unfolding marked_tree drained drain
stopped t t1 t2 t3 q1 q2 q3 all = record {
  valid = q3.valid;
  quiet = λ k. elim (Option-cases (lookup k t2.graph.nodes)) [
    | inl e ↦ λ n h. absurd (ground (arith, q3.domain k))
    | inr (n, e) ↦ all k (contains-node_ids k n t2.graph.nodes e (q2.valid.graph.keyed k n e))
  ];
  domain = λ k. ground (arith, q1.domain k, q2.domain k, q3.domain k);
  no_queue = ground (arith, q2.same_queue, q3.same_queue);
  cancelled = ground (arith, q1.same_active, q2.same_active, q3.same_active);
}

-- In a valid tree whose active claim's node has a status message if it has failed, `cancel_all`
-- returns. Afterwards the tree is valid with the same nodes, no node waits or runs, the queue is
-- empty, and the active claim has its cancellation requested.
pub cancel_all-Succeeds :
    (t : Tree)
    → TreeIsValid t
    → ActiveIsShown t
    → Succeeds (λ t' r. IsStopped t t' × (r.active_claim ≡ claim_of t.active)) (cancel_all t)
unfolding cancel_all marked_tree drained drain node_ids
cancel_all-Succeeds t v shown =
    let m = marked_tree t in
    let ends : Tree → TreeCancellation → Type 0 =
      λ t' r. IsStopped t t' × (r.active_claim ≡ claim_of t.active) in
    and_then-Succeeds (λ t1 _. Quiets m t1) ends (cancel_active m t.active) _
      (cancel_active-Succeeds m t.active (marked-IsValid t v) shown)
      λ first t1 q1.
        let d = drained t1 in
        and_then-Succeeds (λ t2 _. Quiets d t2) ends (cancel_ids d t1.queue.deque) _
          (Succeeds-first (Quiets d)
            (λ u. (k : Key) → contains k t1.queue.deque ≡ true → IsQuiet u k)
            (cancel_ids d t1.queue.deque)
            (cancel_ids-Succeeds d t1.queue.deque (drained-IsValid t1 q1.valid)))
          λ second t2 q2.
            and_then-Succeeds
              (λ t3 _.
                Quiets t2 t3
                × ((k : Key) → contains k (node_ids t2.graph.nodes) ≡ true → IsQuiet t3 k))
              ends (cancel_ids t2 (node_ids t2.graph.nodes)) _
              (cancel_ids-Succeeds t2 (node_ids t2.graph.nodes) q2.valid)
              λ third t3 (q3, all). (stopped t t1 t2 t3 q1 q2 q3 all, refl)

-- If the active claim's node has failed and has no status message, `cancel_all` raises a
-- ValueError and has neither failed a node nor emptied the queue, whatever else waits.
pub cancel_all-raises :
    (t : Tree) (a : ActiveClaim) (n : MessageNode)
    → t.active ≡ some a
    → lookup a.claim.node.node_id t.graph.nodes ≡ some n
    → is_error n.state ≡ true
    → n.status_message_id ≡ none
    → cancel_all t ≡ (record t { active = request_cancellation t.active }, raised no_status)
unfolding cancel_all ui_target
cancel_all-raises t a n h p failed gone =
    let still : is_runnable n.state ≡ false = ground (arith, failed) in
    rw (h, p, still, failed, gone) refl
