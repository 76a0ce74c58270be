-- ===== src/Trees/Runtime/Valid.antt =====
-- The concurrency invariant of a conversation tree, and its upkeep by a change of one node's state.
use design.Common.{
  ◌≡◌, ◌≢◌, true, Option, some, Key, ◌==◌, if◌then◌else◌, Option-cases, inl, inr, is_some, lookup,
  arith,
}
use design.Trees.Node.{
  MessageNode, MessageState, in_progress, is_runnable, update_state, ok, raised,
}
use design.Trees.Queue.Laws
use design.Trees.Graph.{modify_node}
use design.Trees.Graph.Valid.{
  GraphIsValid, modify_node-IsValid, update_state-KeepsIds, map_option, lookup-modify_node,
}
use design.Trees.Transitions.{runs_node}
use design.Trees.Runtime.{Tree, Outcome, and_then}

-- A runnable node has a status message, and only the node of the active claim is in progress.
pub record TreeIsValid (t : Tree) : Type 0 where
  pub graph : GraphIsValid t.graph
  pub queue : Laws.IsValid t.queue
  pub shown :
      (k : Key) (n : MessageNode)
      → lookup k t.graph.nodes ≡ some n
      → is_runnable n.state ≡ true
      → is_some n.status_message_id ≡ true
  pub running :
      (k : Key) (n : MessageNode)
      → lookup k t.graph.nodes ≡ some n
      → n.state ≡ in_progress
      → runs_node t.active k ≡ true

-- No node is in progress.
abbrev pub IsIdle : Tree → Type 0
IsIdle t = (k : Key) (n : MessageNode) → lookup k t.graph.nodes ≡ some n → n.state ≢ in_progress

-- The method returns, and its result and the new state are related by the predicate.
abbrev pub Succeeds : {A : Type 0} → (Tree → A → Type 0) → Outcome A → Type 0
Succeeds P (t, ok a) = P t a
Succeeds P (t, raised e) = ⊥

pub and_then-Succeeds :
    {A B : Type 0} (P : Tree → A → Type 0) (Q : Tree → B → Type 0) (o : Outcome A)
    (f : A → Tree → Outcome B)
    → Succeeds P o
    → ((a : A) (t : Tree) → P t a → Succeeds Q (f a t))
    → Succeeds Q (and_then o f)
and_then-Succeeds P Q (t, ok a) f h k = k a t h
and_then-Succeeds P Q (t, raised e) f h k = absurd h

pub update_state-fields :
    (n : MessageNode) (state : MessageState) (session_id : Option Key)
    → ((update_state n state session_id).state ≡ state)
      × ((update_state n state session_id).status_message_id ≡ n.status_message_id)
unfolding update_state
update_state-fields n state session_id = ground arith

-- A tree with one node's state changed and perhaps another active claim.
pub set_state-IsValid :
    (t t' : Tree) (k : Key) (state : MessageState) (session_id : Option Key)
    → TreeIsValid t
    → t'.graph ≡ modify_node t.graph k (λ n. update_state n state session_id)
    → t'.queue ≡ t.queue
    → ((n : MessageNode)
        → lookup k t.graph.nodes ≡ some n
        → is_runnable state ≡ true
        → is_some n.status_message_id ≡ true)
    → (state ≡ in_progress → runs_node t'.active k ≡ true)
    → ((j : Key) (n : MessageNode)
        → j ≢ k
        → lookup j t.graph.nodes ≡ some n
        → n.state ≡ in_progress
        → runs_node t'.active j ≡ true)
    → TreeIsValid t'
set_state-IsValid t t' k state session_id v g q shown here others = record {
  graph = rw g (modify_node-IsValid t.graph k _ (update_state-KeepsIds state session_id) v.graph);
  queue = rw q v.queue;
  shown = λ j n p run. elim (Option-cases (lookup j t.graph.nodes)) [
    | inl e ↦ ground (arith, at_node j)
    | inr (m, e) ↦
        ground (arith, at_node j, update_state-fields m state session_id, v.shown j m e, shown m)
  ];
  running = λ j n p run. elim (Option-cases (lookup j t.graph.nodes)) [
    | inl e ↦ ground (arith, at_node j)
    | inr (m, e) ↦
        ground (arith, at_node j, update_state-fields m state session_id, others j m, here)
  ];
}
  where
    at_node :
        (j : Key)
        → lookup j t'.graph.nodes ≡ (
            if k == j
            then map_option (lookup j t.graph.nodes) (λ n. update_state n state session_id)
            else lookup j t.graph.nodes)
    at_node j = rw g (lookup-modify_node t.graph k (λ n. update_state n state session_id) j)
