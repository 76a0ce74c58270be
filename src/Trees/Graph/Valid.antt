-- ===== src/Trees/Graph/Valid.antt =====
-- The two indexes of a graph agree, and every operation keeps them so.
use design.Common.{
  ◌≡◌, Option, none, some, Key, ◌==◌, if◌then◌else◌, Option-cases, inl, inr, lookup, lookup-insert,
  arith,
}
use design.Trees.Node.{MessageNode, MessageState, update_state}
use design.Trees.Graph.{Graph, modify_node}

-- A node stands under its id; a status message leads to its node and back; no id is both a prompt
-- and a status message.
pub record GraphIsValid (g : Graph) : Type 0 where
  pub keyed : (k : Key) (n : MessageNode) → lookup k g.nodes ≡ some n → n.node_id ≡ k
  pub forward :
      (k s : Key) (n : MessageNode)
      → lookup k g.nodes ≡ some n
      → n.status_message_id ≡ some s
      → lookup s g.status_to_node ≡ some k
  pub backward :
      (s k : Key)
      → lookup s g.status_to_node ≡ some k
      → (n : MessageNode) × (lookup k g.nodes ≡ some n) × (n.status_message_id ≡ some s)
  pub apart : (s k : Key) → lookup s g.status_to_node ≡ some k → lookup s g.nodes ≡ none

abbrev pub map_option : Option MessageNode → (MessageNode → MessageNode) → Option MessageNode
map_option none f = none
map_option (some n) f = some (f n)

pub lookup-modify_node :
    (g : Graph) (k : Key) (f : MessageNode → MessageNode) (j : Key)
    → lookup j (modify_node g k f).nodes
      ≡ (if k == j then map_option (lookup j g.nodes) f else lookup j g.nodes)
unfolding modify_node
lookup-modify_node g k f j = elim (Option-cases (lookup k g.nodes)) [
  | inl p ↦ rw (p, modify_node) (ground (arith, p))
  | inr (n, p) ↦ rw (p, modify_node) (ground (arith, p, lookup-insert k j (f n) g.nodes))
]

pub modify_node-status :
    (g : Graph) (k : Key) (f : MessageNode → MessageNode)
    → (modify_node g k f).status_to_node ≡ g.status_to_node
unfolding modify_node
modify_node-status g k f = ground arith

-- A change of a node that leaves its id and its status message alone.
abbrev pub KeepsIds : (MessageNode → MessageNode) → Type 0
KeepsIds f =
    (n : MessageNode)
    → ((f n).node_id ≡ n.node_id) × ((f n).status_message_id ≡ n.status_message_id)

pub modify_node-IsValid :
    (g : Graph) (k : Key) (f : MessageNode → MessageNode)
    → KeepsIds f
    → GraphIsValid g
    → GraphIsValid (modify_node g k f)
modify_node-IsValid g k f keeps v = record {
  keyed = λ j n p. elim (Option-cases (lookup j g.nodes)) [
    | inl e ↦ ground (arith, lookup-modify_node g k f j)
    | inr (m, e) ↦ ground (arith, lookup-modify_node g k f j, v.keyed j m e, keeps m)
  ];
  forward = λ j s n p h. elim (Option-cases (lookup j g.nodes)) [
    | inl e ↦ ground (arith, lookup-modify_node g k f j)
    | inr (m, e) ↦
        ground
          (arith, modify_node-status g k f, lookup-modify_node g k f j, v.forward j s m e, keeps m)
  ];
  backward = λ s j h.
      let (m, p, q) = v.backward s j (rw (modify_node-status g k f) at h) in
      (
        if k == j then f m else m,
        ground (arith, lookup-modify_node g k f j),
        ground (arith, keeps m),
      );
  apart = λ s j h.
      ground (arith, lookup-modify_node g k f s, v.apart s j (rw (modify_node-status g k f) at h));
}

pub update_state-KeepsIds :
    (state : MessageState) (session_id : Option Key)
    → KeepsIds (λ n. update_state n state session_id)
unfolding update_state
update_state-KeepsIds state session_id n = ground arith
