-- ===== src/Trees/Graph/References.antt =====
-- What references mean in a graph, and every history of graph operations.
use design.Common.{
  ◌≡◌, ◌≢◌, refl, Bool, true, false, Option, none, some, List, Key, ◌==◌, if◌then◌else◌, is_text,
  is_some, ◌||◌, Option-cases, Bool-cases, ◌⊎◌, inl, inr, lookup, lookup-insert, arith,
}
use design.Trees.Node.{
  MessageNode, MessageState, MessageReferenceKind, prompt, status, is_pending, update_state, ok,
}
use design.Trees.Graph.{
  Graph, NewNode, new_graph, add_node, link_node, fresh_node, append_child, modify_node,
  remove_nodes, clear_status_of, resolve_reference,
}
use design.Trees.Graph.Valid.{
  GraphIsValid, modify_node-IsValid, update_state-KeepsIds, lookup-modify_node, modify_node-status,
  map_option,
}
use design.Trees.Graph.Adding.{
  add_node-IsValid, add_node-checked, check_node-IsNew, new_graph-IsValid, link_node-IsValid,
  with_fresh,
}
use design.Trees.Graph.Removing.{remove_nodes-IsValid, clear_status_of-IsValid}

-- What the tree does to its graph.
pub data GraphStep (g : Graph) : Graph → Type 0 where
  adds : (r : NewNode) (h : Graph) → add_node g r ≡ ok h → GraphStep g h
  removes : (ks : List Key) → GraphStep g (remove_nodes g ks)
  clears : (k : Key) → GraphStep g (clear_status_of g k)
  updates :
      (k : Key) (state : MessageState) (session_id : Option Key)
      → GraphStep g (modify_node g k (λ n. update_state n state session_id))

pub data GraphHistory (root : MessageNode) : Graph → Type 0 where
  starts : (g : Graph) → new_graph root ≡ ok g → GraphHistory root g
  continues : {g h : Graph} → GraphHistory root g → GraphStep g h → GraphHistory root h

GraphStep-IsValid : {g h : Graph} → GraphStep g h → GraphIsValid g → GraphIsValid h
GraphStep-IsValid (adds r h added) v = add_node-IsValid _ r h v added
GraphStep-IsValid (removes ks) v = remove_nodes-IsValid _ ks v
GraphStep-IsValid (clears k) v = clear_status_of-IsValid _ k v
GraphStep-IsValid (updates k state session_id) v =
    modify_node-IsValid _ k _ (update_state-KeepsIds state session_id) v

-- After any additions, removals, cleared statuses and state changes from a new graph, nodes stand
-- under their ids, the index of status messages has exactly the nodes' status messages, and no id
-- is both a prompt and a status message.
pub GraphHistory-IsValid : {root : MessageNode} {g : Graph} → GraphHistory root g → GraphIsValid g
GraphHistory-IsValid {root} (starts g made) = new_graph-IsValid root g made
GraphHistory-IsValid (continues h step) = GraphStep-IsValid step (GraphHistory-IsValid h)

-- The id of the node that a reference leads to, and its kind.
abbrev pub owner : Option (MessageNode × MessageReferenceKind) → Option (Key × MessageReferenceKind)
owner none = none
owner (some (n, kind)) = some (n.node_id, kind)

abbrev status_owner : Option Key → Option (Key × MessageReferenceKind)
status_owner none = none
status_owner (some j) = if is_text j then some (j, status) else none

-- The same, read off the two indexes.
abbrev owner_by : Bool → Option Key → Key → Option (Key × MessageReferenceKind)
owner_by true _ k = some (k, prompt)
owner_by false found k = status_owner found

owner-resolve_reference :
    (g : Graph) (k : Key)
    → GraphIsValid g
    → owner (resolve_reference g k)
      ≡ owner_by (is_some (lookup k g.nodes)) (lookup k g.status_to_node) k
unfolding resolve_reference
owner-resolve_reference g k v = elim (Option-cases (lookup k g.nodes)) [
  | inr (n, p) ↦ ground (arith, p, v.keyed k n p)
  | inl p ↦ elim (Option-cases (lookup k g.status_to_node)) [
    | inl q ↦ ground (arith, p, q)
    | inr (j, q) ↦
        let (n, there, shown) = v.backward k j q in ground (arith, p, q, there, v.keyed j n there)
  ]
]

link_node_lem :
    (g : Graph) (r : NewNode)
    → link_node g r ≡ modify_node (with_fresh g r) r.parent_id (append_child r.node_id)
unfolding link_node
link_node_lem g r = refl

link_node-nodes :
    (g : Graph) (r : NewNode) (k : Key)
    → is_some (lookup k (link_node g r).nodes) ≡ (r.node_id == k || is_some (lookup k g.nodes))
link_node-nodes g r k =
    rw
      (
        link_node_lem g r,
        lookup-modify_node (with_fresh g r) r.parent_id (append_child r.node_id) k,
      )
      (ground (arith, lookup-insert r.node_id k (fresh_node r) g.nodes))

link_node-status :
    (g : Graph) (r : NewNode) (k : Key)
    → lookup k (link_node g r).status_to_node
      ≡ (if r.status_message_id == k then some r.node_id else lookup k g.status_to_node)
link_node-status g r k =
    rw (link_node_lem g r, modify_node-status (with_fresh g r) r.parent_id (append_child r.node_id))
      (lookup-insert r.status_message_id k r.node_id g.status_to_node)

-- After a reply with a nonempty id is added to a valid graph, its prompt and its status message lead to it, and every other reference
-- leads where it led before.
pub add_node-resolves :
    (g : Graph) (r : NewNode) (h : Graph)
    → GraphIsValid g
    → is_text r.node_id ≡ true
    → add_node g r ≡ ok h
    → (owner (resolve_reference h r.node_id) ≡ some (r.node_id, prompt))
      × (owner (resolve_reference h r.status_message_id) ≡ some (r.node_id, status))
      × ((k : Key)
          → k ≢ r.node_id
          → k ≢ r.status_message_id
          → owner (resolve_reference h k) ≡ owner (resolve_reference g k))
add_node-resolves g r h v text added =
    let (checked, same) = add_node-checked g r h added in
    let new = check_node-IsNew g r checked in
    let after = λ (k : Key).
      rw same at (owner-resolve_reference (link_node g r) k (link_node-IsValid g r new v)) in
    (
      ground (arith, after r.node_id, link_node-nodes g r r.node_id),
      ground (
        arith,
        after r.status_message_id,
        link_node-nodes g r r.status_message_id,
        link_node-status g r r.status_message_id,
        new,
      ),
      λ k other unlike. ground (
        arith,
        after k,
        link_node-nodes g r k,
        link_node-status g r k,
        owner-resolve_reference g k v,
      ),
    )

-- In a valid graph a prompt reference is the id of its node and a status reference its node's
-- status message.
pub resolve_reference-carries :
    (g : Graph) (k : Key) (n : MessageNode) (kind : MessageReferenceKind)
    → GraphIsValid g
    → resolve_reference g k ≡ some (n, kind)
    → (lookup n.node_id g.nodes ≡ some n)
      × (((kind ≡ prompt) × (n.node_id ≡ k)) ⊎ ((kind ≡ status) × (n.status_message_id ≡ some k)))
unfolding resolve_reference
resolve_reference-carries g k n kind v h = elim (Option-cases (lookup k g.nodes)) [
  | inr (m, p) ↦ ground (arith, p, v.keyed k m p)
  | inl p ↦ elim (Option-cases (lookup k g.status_to_node)) [
    | inl q ↦ ground (arith, p, q)
    | inr (j, q) ↦
        let (m, there, shown) = v.backward k j q in
        ground (arith, p, q, there, shown, v.keyed j m there)
  ]
]

-- A node after a reply was added: the reply itself, or a node as it was but for its children.
pub link_node-node :
    (g : Graph) (r : NewNode) (k : Key) (n : MessageNode)
    → lookup k (link_node g r).nodes ≡ some n
    → ((is_pending n.state ≡ true) × (is_some n.status_message_id ≡ true))
      ⊎ ((m : MessageNode) × (lookup k g.nodes ≡ some m)
          × (n.state ≡ m.state)
          × (n.status_message_id ≡ m.status_message_id))
link_node-node g r k n h = elim (Option-cases (lookup k g.nodes)) [
  | inl p ↦ inl (ground (arith, p, nodes_at))
  | inr (m, p) ↦ elim (Bool-cases (r.node_id == k)) [
    | inl e ↦ inl (ground (arith, nodes_at))
    | inr e ↦ inr (m, p, ground (arith, nodes_at), ground (arith, nodes_at))
  ]
]
  where
    fresh_at :
        lookup k (with_fresh g r).nodes
        ≡ (if r.node_id == k then some (fresh_node r) else lookup k g.nodes)
    fresh_at = lookup-insert r.node_id k (fresh_node r) g.nodes

    nodes_at : lookup k (link_node g r).nodes ≡ (
        if r.parent_id == k
        then map_option
            (if r.node_id == k then some (fresh_node r) else lookup k g.nodes)
            (append_child r.node_id)
        else (if r.node_id == k then some (fresh_node r) else lookup k g.nodes))
    nodes_at = rw (
      link_node_lem g r,
      lookup-modify_node (with_fresh g r) r.parent_id (append_child r.node_id) k,
      fresh_at,
    )
