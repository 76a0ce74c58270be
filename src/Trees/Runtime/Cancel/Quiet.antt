-- ===== src/Trees/Runtime/Cancel/Quiet.antt =====
-- Marking nodes as failed: which nodes may still run afterwards.
use design.Common.{
  ◌≡◌, refl, subst, ==_iff, true, false, none, some, List, [], ◌∷◌, Key, ◌==◌, if◌then◌else◌,
  Option-cases, Bool-cases, inl, inr, is_some, lookup, contains, arith,
}
use design.Trees.Node.{MessageNode, error, is_runnable, mark_error, ok}
use design.Trees.Graph.{get_node, modify_node}
use design.Trees.Graph.Valid.{lookup-modify_node, map_option}
use design.Trees.Transitions.{NodeUiTarget}
use design.Trees.Runtime.{Tree, with_graph}
use design.Trees.Runtime.Valid.{
  TreeIsValid, Succeeds, and_then-Succeeds, set_state-IsValid, update_state-fields,
}
use design.Trees.Runtime.Cancel.{cancel_runnable, cancel_each, cancel_ids}

-- The node of this id, if there is one, neither waits nor runs.
abbrev pub IsQuiet : Tree → Key → Type 0
IsQuiet t k = (n : MessageNode) → lookup k t.graph.nodes ≡ some n → is_runnable n.state ≡ false

-- A step of a cancellation: the tree stays valid, no node starts to wait or run, and nodes, queue
-- and claim are the same.
pub record Quiets (t t' : Tree) : Type 0 where
  pub valid : TreeIsValid t'
  pub quiet : (k : Key) → IsQuiet t k → IsQuiet t' k
  pub domain : (k : Key) → is_some (lookup k t'.graph.nodes) ≡ is_some (lookup k t.graph.nodes)
  pub same_queue : t'.queue ≡ t.queue
  pub same_active : t'.active ≡ t.active

pub Quiets-refl : (t : Tree) → TreeIsValid t → Quiets t t
Quiets-refl t v = record {
  valid = v;
  quiet = λ k q. q;
  domain = λ k. refl;
  same_queue = refl;
  same_active = refl;
}

pub Quiets-trans : (s t u : Tree) → Quiets s t → Quiets t u → Quiets s u
Quiets-trans s t u p q = record {
  valid = q.valid;
  quiet = λ k h. q.quiet k (p.quiet k h);
  domain = λ k. ground (arith, p.domain k, q.domain k);
  same_queue = ground (arith, p.same_queue, q.same_queue);
  same_active = ground (arith, p.same_active, q.same_active);
}

module _ (t : Tree) (k : Key) (n : MessageNode) (v : TreeIsValid t)
    (there : lookup k t.graph.nodes ≡ some n) where
  failed_tree : Tree
  failed_tree = with_graph t (modify_node t.graph k mark_error)

  failed_at :
      (j : Key)
      → lookup j failed_tree.graph.nodes ≡ (
          if k == j then map_option (lookup j t.graph.nodes) mark_error else lookup j t.graph.nodes)
  unfolding failed_tree
  failed_at j = lookup-modify_node t.graph k mark_error j

  failed-Quiets : Quiets t failed_tree × IsQuiet failed_tree k
  unfolding failed_tree
  failed-Quiets = (
    record {
      valid =
          set_state-IsValid t failed_tree k error none v refl refl (λ m p run. ground arith)
            (λ e. ground arith) (λ j m _ p run. v.running j m p run);
      quiet = λ j q m p. elim (Option-cases (lookup j t.graph.nodes)) [
        | inl e ↦ ground (arith, failed_at j)
        | inr (l, e) ↦ ground (arith, failed_at j, q l e, update_state-fields l error none)
      ];
      domain = λ j. ground (arith, failed_at j);
      same_queue = refl;
      same_active = refl;
    },
    λ m p. ground (arith, failed_at k, update_state-fields n error none),
  )

  cancel_runnable_lem :
      (s : Key)
      → n.status_message_id ≡ some s
      → (xs : List NodeUiTarget) × (cancel_runnable t n ≡ (failed_tree, ok xs))
  unfolding cancel_runnable failed_tree
  cancel_runnable_lem s e = (
    record { scope = (mark_error n).scope; node_id = (mark_error n).node_id; status_message_id = s }
        ∷ [],
    ground (arith, v.graph.keyed k n there, update_state-fields n error none, e),
  )

  -- A node that waits or runs has a status message, so its cancellation does not raise.
  pub cancel_runnable-Succeeds :
      is_runnable n.state ≡ true
      → Succeeds (λ t' _. Quiets t t' × IsQuiet t' k) (cancel_runnable t n)
  cancel_runnable-Succeeds run = elim (Option-cases n.status_message_id) [
    | inl e ↦ absurd (ground (arith, v.shown k n there))
    | inr (s, e) ↦ let (xs, same) = cancel_runnable_lem s e in rw same failed-Quiets
  ]

cancel_each-Succeeds :
    (t : Tree) (k : Key)
    → TreeIsValid t
    → Succeeds (λ t' _. Quiets t t' × IsQuiet t' k) (cancel_each t (get_node t.graph k))
cancel_each-Succeeds t k v = elim (Option-cases (lookup k t.graph.nodes)) [
  | inl p ↦ rw p (Quiets-refl t v, λ n q. ground (arith, p))
  | inr (n, p) ↦ elim (Bool-cases (is_runnable n.state)) [
    | inl run ↦ rw (p, run) (cancel_runnable-Succeeds t k n v p run)
    | inr still ↦ rw (p, still) (Quiets-refl t v, λ m q. ground (arith, p, still))
  ]
]

-- After a loop over some ids none of their nodes waits or runs.
pub cancel_ids-Succeeds :
    (t : Tree) (ks : List Key)
    → TreeIsValid t
    → Succeeds
        (λ t' _. Quiets t t' × ((k : Key) → contains k ks ≡ true → IsQuiet t' k))
        (cancel_ids t ks)
unfolding cancel_ids contains
cancel_ids-Succeeds t [] v = (Quiets-refl t v, λ k h. absurd (ground (arith)))
cancel_ids-Succeeds t (k ∷ ks) v =
    and_then-Succeeds (λ t' _. Quiets t t' × IsQuiet t' k)
      (λ t' _. Quiets t t' × ((j : Key) → contains j (k ∷ ks) ≡ true → IsQuiet t' j))
      (cancel_each t (get_node t.graph k)) _ (cancel_each-Succeeds t k v)
      (λ first t' (q, here).
        and_then-Succeeds (λ u _. Quiets t' u × ((j : Key) → contains j ks ≡ true → IsQuiet u j))
          (λ u _. Quiets t u × ((j : Key) → contains j (k ∷ ks) ≡ true → IsQuiet u j))
          (cancel_ids t' ks) _ (cancel_ids-Succeeds t' ks q.valid)
          (λ rest u (r, others). (
            Quiets-trans t t' u q r,
            λ j h. elim (Bool-cases (k == j)) [
              | inl e ↦ subst (IsQuiet u) ((==_iff k j).0 e) (r.quiet k here)
              | inr e ↦ others j (ground (arith, h))
            ],
          )))
