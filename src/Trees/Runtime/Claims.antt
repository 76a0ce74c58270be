-- ===== src/Trees/Runtime/Claims.antt =====
-- How prompts are admitted to a tree.
use design.Common.{
  ℕ, suc, ◌≡◌, refl, ap, Bool, true, false, Option, none, some, List, [], ◌∷◌, ◌++◌, contains, Key,
  if_cases, from_option_ind, Option-cases, Bool-cases, ◌⊎◌, inl, inr, is_some, lookup, arith,
}
use design.Trees.Node.{MessageNode, MessageState, in_progress, is_pending, update_state, ok, raised}
use design.Trees.Queue.{Queue, put, discard}
use design.Trees.Queue
use design.Trees.Queue.Laws
use design.Trees.Graph.{Graph, NewNode, modify_node, get_node}
use design.Trees.Graph.{check_node, link_node}
use design.Trees.Node.{TreeError}
use design.Trees.Graph.References.{link_node-node}
use design.Trees.Graph.Adding.{link_node-IsValid, check_node-IsNew, add_node_ok}
use design.Trees.Transitions.{NodeUiTarget, NodeClaim, QueueEntry, QueueDecision, ActiveClaim}
use design.Trees.Runtime.{
  Tree, with_graph, ui_target, queue_entries_from, new_claim, claim, enqueue_or_claim, enqueue,
  admit, add_and_enqueue,
}
use design.Trees.Runtime.Valid.{
  TreeIsValid, IsIdle, Succeeds, and_then-Succeeds, set_state-IsValid, update_state-fields,
}

abbrev running_graph : Graph → Key → Graph
running_graph g k = modify_node g k (λ m. update_state m in_progress none)

abbrev target : MessageNode → Key → NodeUiTarget
target n s = record { scope = n.scope; node_id = n.node_id; status_message_id = s }

abbrev claim_value : Tree → Key → MessageNode → Key → NodeClaim
claim_value t claim_id n s =
    let n' = update_state n in_progress none in
    new_claim (running_graph t.graph n.node_id) claim_id n' (target n' s)

abbrev claimed_tree : Tree → Key → MessageNode → Key → Tree
claimed_tree t claim_id n s = record t {
  graph = running_graph t.graph n.node_id;
  active = some (record { claim = claim_value t claim_id n s; cancellation_requested = false });
}

claim_lem :
    (t : Tree) (claim_id : Key) (n : MessageNode) (s : Key)
    → n.status_message_id ≡ some s
    → claim t claim_id n ≡ (claimed_tree t claim_id n s, ok (claim_value t claim_id n s))
unfolding claim
claim_lem t claim_id n s h = ground (arith, update_state-fields n in_progress none)

update_state-id :
    (n : MessageNode) (state : MessageState) (session_id : Option Key)
    → (update_state n state session_id).node_id ≡ n.node_id
unfolding update_state
update_state-id n state session_id = ground arith

-- What a claim that was granted looks like.
pub record IsClaimed (k claim_id : Key) (t : Tree) (c : NodeClaim) : Type 0 where
  pub valid : TreeIsValid t
  pub held : t.active ≡ some (record { claim = c; cancellation_requested = false })
  pub for_node : c.node.node_id ≡ k
  pub fresh : c.claim_id ≡ claim_id

pub claim-Succeeds :
    (t : Tree) (claim_id : Key) (k : Key) (n : MessageNode)
    → TreeIsValid t
    → IsIdle t
    → lookup k t.graph.nodes ≡ some n
    → is_pending n.state ≡ true
    → Succeeds (IsClaimed k claim_id) (claim t claim_id n)
claim-Succeeds t claim_id k n v idle there waits = elim (Option-cases n.status_message_id) [
  | inl e ↦ absurd (ground (arith, v.shown k n there))
  | inr (s, e) ↦
      let same = v.graph.keyed k n there in
      rw (claim_lem t claim_id n s e) (record {
        valid =
            set_state-IsValid t (claimed_tree t claim_id n s) n.node_id in_progress none v refl refl
              (λ m p _. ground (arith, same, there, e))
              (λ _. ground (arith, update_state-id n in_progress none))
              (λ j m _ p run. absurd (idle j m p run));
        held = refl;
        for_node = ground (arith, update_state-id n in_progress none, same);
        fresh = refl;
      })
]

IsIdle-none : (t : Tree) → TreeIsValid t → t.active ≡ none → IsIdle t
IsIdle-none t v h k n p run = ground (arith, v.running k n p run)

-- How a prompt is admitted: refused with the tree unchanged, claimed at once if nothing runs, or put
-- at the end of the queue.
pub data Admission (t : Tree) (k claim_id : Key) (t' : Tree) (d : QueueDecision) : Type 0 where
  refuses : t' ≡ t → d.snapshot ≡ none → Admission t k claim_id t' d
  claims :
      t.active ≡ none
      → (c : NodeClaim) → d.claim ≡ some c
      → is_some d.snapshot ≡ true
      → IsClaimed k claim_id t' c
      → Admission t k claim_id t' d
  queues :
      is_some t.active ≡ true
      → t' ≡ record t { queue = (put t.queue k).0 }
      → Queue.items t'.queue ≡ Queue.items t.queue ++ k ∷ []
      → d.position ≡ some (Queue.qsize t'.queue)
      → d.claim ≡ none
      → is_some d.snapshot ≡ true
      → Admission t k claim_id t' d

module _ (t : Tree) (v : TreeIsValid t) (claim_id k : Key) where
  abbrev Admits : Tree → QueueDecision → Type 0
  Admits t' d = TreeIsValid t' × Admission t k claim_id t' d

  queued-IsValid : TreeIsValid (record t { queue = (put t.queue k).0 })
  queued-IsValid = record {
    graph = v.graph;
    queue = (Laws.Promises.after_put (Laws.Queue-Promises t.queue v.queue) k).0;
    shown = v.shown;
    running = v.running;
  }

  enqueue-Succeeds :
      (r : Queue × Bool)
      → r ≡ put t.queue k
      → is_some t.active ≡ true
      → Succeeds Admits (enqueue t r)
  enqueue-Succeeds (q, false) same busy = (v, refuses refl refl)
  enqueue-Succeeds (q, true) same busy =
      let (kept, flag, listed) = Laws.Promises.after_put (Laws.Queue-Promises t.queue v.queue) k in
      let queue_same : q ≡ (put t.queue k).0 = ap (λ (x : Queue × Bool). x.0) same in
      let flag_same : true ≡ (put t.queue k).1 = ap (λ (x : Queue × Bool). x.1) same in
      let new : contains k (Queue.items t.queue) ≡ false = ground (arith, flag, flag_same) in
      (
        rw queue_same queued-IsValid,
        queues busy (rw queue_same) (rw queue_same (rw new at listed)) refl refl refl,
      )

  admit-Succeeds :
      (n : MessageNode) (active : Option ActiveClaim)
      → t.active ≡ active
      → lookup k t.graph.nodes ≡ some n
      → is_pending n.state ≡ true
      → Succeeds Admits (admit t claim_id n active)
  admit-Succeeds n none idle there waits =
      and_then-Succeeds (IsClaimed k claim_id) Admits (claim t claim_id n) _
        (claim-Succeeds t claim_id k n v (IsIdle-none t v idle) there waits)
        (λ c t' h. (h.valid, claims idle c refl refl h))
  admit-Succeeds n (some a) busy there waits =
      rw (v.graph.keyed k n there) (enqueue-Succeeds (put t.queue k) refl (ground (arith, busy)))

  -- In a valid tree admission does not raise, keeps the tree valid, and refuses with the tree
  -- unchanged, or claims the prompt if nothing runs, or puts it at the end of the queue.
  pub enqueue_or_claim-Succeeds : Succeeds Admits (enqueue_or_claim t claim_id k)
  unfolding enqueue_or_claim
  enqueue_or_claim-Succeeds =
      from_option_ind (Succeeds Admits) (get_node t.graph k) (v, refuses refl refl)
        λ n there.
          if_cases (Succeeds Admits) (is_pending n.state) (admit-Succeeds n t.active refl there)
            (λ _. (v, refuses refl refl))

module _ (t : Tree) (v : TreeIsValid t) where
  linked-IsValid :
      (r : NewNode) → check_node t.graph r ≡ none → TreeIsValid (with_graph t (link_node t.graph r))
  linked-IsValid r checked = record {
    graph = link_node-IsValid t.graph r (check_node-IsNew t.graph r checked) v.graph;
    queue = v.queue;
    shown = λ k n p run. elim (link_node-node t.graph r k n p) [
      | inl (_, has) ↦ has
      | inr (m, q, state, status) ↦ ground (arith, v.shown k m q, state, status)
    ];
    running = λ k n p run. elim (link_node-node t.graph r k n p) [
      | inl (waits, _) ↦ ground (arith, waits)
      | inr (m, q, state, status) ↦ ground (arith, v.running k m q, state)
    ];
  }

  -- In a valid tree a reply that the graph takes is admitted as `enqueue_or_claim` admits it; a reply that the
  -- graph refuses raises the graph's error and changes nothing.
  pub add_and_enqueue-cases :
      (claim_id : Key) (r : NewNode)
      → ((e : TreeError) × (check_node t.graph r ≡ some e)
          × (add_and_enqueue t claim_id r ≡ (t, raised e)))
        ⊎ ((check_node t.graph r ≡ none)
            × Succeeds
                (λ t' d.
                  TreeIsValid t'
                  × Admission (with_graph t (link_node t.graph r)) r.node_id claim_id t' d)
                (add_and_enqueue t claim_id r))
  unfolding add_and_enqueue
  add_and_enqueue-cases claim_id r = elim (Option-cases (check_node t.graph r)) [
    | inr (e, p) ↦ inl (e, p, ground (arith, p))
    | inl p ↦ inr (
      p,
      rw (add_node_ok t.graph r p) (
          enqueue_or_claim-Succeeds (with_graph t (link_node t.graph r)) (linked-IsValid r p)
            claim_id r.node_id),
    )
  ]

  ui_target-ok :
      (k : Key) (n : MessageNode)
      → lookup k t.graph.nodes ≡ some n
      → is_pending n.state ≡ true
      → (x : NodeUiTarget) × (ui_target n ≡ ok x)
  unfolding ui_target
  ui_target-ok k n there waits = elim (Option-cases n.status_message_id) [
    | inl e ↦ absurd (ground (arith, v.shown k n there))
    | inr (s, e) ↦ (target n s, ground (arith, e))
  ]

  -- The queue report never raises.
  pub queue_entries_from-ok :
      (done : ℕ) (ks : List Key)
      → (entries : List QueueEntry) × (queue_entries_from t.graph done ks ≡ ok entries)
  unfolding queue_entries_from
  queue_entries_from-ok done [] = ([], refl)
  queue_entries_from-ok done (k ∷ ks) =
      let (skipped, p) = queue_entries_from-ok done ks in
      let (rest, q) = queue_entries_from-ok (suc done) ks in
      elim (Option-cases (lookup k t.graph.nodes)) [
        | inl e ↦ (skipped, ground (arith, e, p))
        | inr (n, e) ↦ elim (Bool-cases (is_pending n.state)) [
          | inr other ↦ (skipped, ground (arith, e, other, p))
          | inl waits ↦
              let (x, shown) = ui_target-ok k n e waits in
              (
                record { node = x; position = suc done } ∷ rest,
                unfold ui_target in ground (arith, e, waits, shown, q),
              )
        ]
      ]
