-- ===== src/Trees/Graph/Removing.antt =====
-- Removing nodes and status messages keeps the indexes of a graph in agreement.
use design.Common.{
  ◌≡◌, ◌≢◌, refl, Bool, false, Option, none, some, List, [], ◌∷◌, Key, ◌==◌, if◌then◌else◌,
  from_option_ind, lookup, remove, lookup-remove, arith,
}
use design.Trees.Node.{MessageNode, clear_status}
use design.Trees.Graph.{
  Graph, get_node, drop_child, modify_node, remove_node, remove_nodes, clear_status_of,
  clear_node_status, unlink_parent, unlink_status,
}
use design.Trees.Graph.Valid.{
  GraphIsValid, lookup-modify_node, modify_node-status, KeepsIds, modify_node-IsValid,
}

abbrev take_out : Graph → Key → Option Key → Graph
take_out g k s = record (unlink_status g s) { nodes = remove k (unlink_status g s).nodes }

abbrev dropped : Option Key → Key → Bool
dropped none s = false
dropped (some t) s = t == s

module _ (g : Graph) (k : Key) (n : MessageNode) (there : lookup k g.nodes ≡ some n)
    (v : GraphIsValid g) where
  -- What is left of the status index.
  after_unlink :
      (status : Option Key) (s : Key)
      → lookup s (unlink_status g status).status_to_node
        ≡ (if dropped status s then none else lookup s g.status_to_node)
  after_unlink none s = refl
  after_unlink (some t) s = lookup-remove t s g.status_to_node

  unlink-nodes : (status : Option Key) → (unlink_status g status).nodes ≡ g.nodes
  unlink-nodes none = refl
  unlink-nodes (some t) = refl

  after_remove :
      (status : Option Key) (j : Key)
      → lookup j (take_out g k status).nodes ≡ (if k == j then none else lookup j g.nodes)
  after_remove status j = rw (unlink-nodes status) (lookup-remove k j g.nodes)

  -- A status message whose index entry stays is not the one of this node.
  other_status :
      (s j : Key)
      → lookup s g.status_to_node ≡ some j
      → dropped n.status_message_id s ≡ false
      → j ≢ k
  other_status s j h d same = let (m, p, q) = v.backward s j h in ground (arith, there)

  take_out-IsValid : GraphIsValid (take_out g k n.status_message_id)
  take_out-IsValid = record {
    keyed = λ j m p. ground (arith, after_remove n.status_message_id j, v.keyed j m);
    forward = λ j s m p q. ground (
      arith,
      after_remove n.status_message_id j,
      after_unlink n.status_message_id s,
      v.forward j s m,
      v.forward k s n there,
    );
    backward = λ s j h.
        let here : lookup s g.status_to_node ≡ some j =
          ground (arith, after_unlink n.status_message_id s) in
        let (m, p, q) = v.backward s j here in
        (
          m,
          ground (
            arith,
            after_remove n.status_message_id j,
            after_unlink n.status_message_id s,
            other_status s j here,
          ),
          q,
        );
    apart = λ s j h. ground (
      arith,
      after_remove n.status_message_id s,
      after_unlink n.status_message_id s,
      v.apart s j,
    );
  }

drop_child-KeepsIds : (k : Key) → KeepsIds (drop_child k)
drop_child-KeepsIds k n = (refl, refl)

unlink_parent-IsValid :
    (g : Graph) (k : Key) (parent : Option Key)
    → GraphIsValid g
    → GraphIsValid (unlink_parent g k parent)
unlink_parent-IsValid g k none v = v
unlink_parent-IsValid g k (some p) v =
    modify_node-IsValid g p (drop_child k) (drop_child-KeepsIds k) v

unlink_parent-node :
    (g : Graph) (k : Key) (parent : Option Key) (n : MessageNode)
    → lookup k g.nodes ≡ some n
    → (m : MessageNode) × (lookup k (unlink_parent g k parent).nodes ≡ some m)
      × (m.status_message_id ≡ n.status_message_id)
unlink_parent-node g k none n h = (n, h, refl)
unlink_parent-node g k (some p) n h = (
  if p == k then drop_child k n else n,
  ground (arith, lookup-modify_node g p (drop_child k) k),
  ground arith,
)

remove_node-IsValid : (g : Graph) (k : Key) → GraphIsValid g → GraphIsValid (remove_node g k)
unfolding remove_node
remove_node-IsValid g k v = from_option_ind GraphIsValid (get_node g k) v λ n there.
    let (m, h, same) = unlink_parent-node g k n.parent_id n there in
    rw same at (
      take_out-IsValid (unlink_parent g k n.parent_id) k m h
        (unlink_parent-IsValid g k n.parent_id v))

pub remove_nodes-IsValid :
    (g : Graph) (ks : List Key) → GraphIsValid g → GraphIsValid (remove_nodes g ks)
unfolding remove_nodes
remove_nodes-IsValid g [] v = v
remove_nodes-IsValid g (k ∷ ks) v =
    remove_nodes-IsValid (remove_node g k) ks (remove_node-IsValid g k v)

clear_status-ids :
    (n : MessageNode)
    → ((clear_status n).node_id ≡ n.node_id) × ((clear_status n).status_message_id ≡ none)
unfolding clear_status
clear_status-ids n = ground arith

module _ (g : Graph) (k : Key) (n : MessageNode) (there : lookup k g.nodes ≡ some n)
    (v : GraphIsValid g) (t : Key) (shown : n.status_message_id ≡ some t) where
  cleared : Graph
  cleared = modify_node (record g { status_to_node = remove t g.status_to_node }) k clear_status

  cleared-node :
      (j : Key)
      → lookup j cleared.nodes ≡ (if k == j then some (clear_status n) else lookup j g.nodes)
  unfolding cleared
  cleared-node j = ground (
    arith,
    lookup-modify_node (record g { status_to_node = remove t g.status_to_node }) k clear_status j,
  )

  cleared-status :
      (s : Key)
      → lookup s cleared.status_to_node ≡ (if t == s then none else lookup s g.status_to_node)
  unfolding cleared
  cleared-status s =
      rw
        (modify_node-status (record g { status_to_node = remove t g.status_to_node }) k
          clear_status)
        (lookup-remove t s g.status_to_node)

  cleared-IsValid : GraphIsValid cleared
  cleared-IsValid = record {
    keyed =
        λ j m p. ground (arith, cleared-node j, v.keyed j m, v.keyed k n there, clear_status-ids n);
    forward = λ j s m p q. ground (
      arith,
      cleared-node j,
      cleared-status s,
      clear_status-ids n,
      v.forward j s m,
      v.forward k t n there shown,
    );
    backward = λ s j h.
        let here : lookup s g.status_to_node ≡ some j = ground (arith, cleared-status s) in
        let (m, p, q) = v.backward s j here in
        (m, ground (arith, cleared-node j, cleared-status s), q);
    apart = λ s j h. ground (
      arith,
      cleared-node s,
      cleared-status s,
      v.apart s j,
      v.apart t k (v.forward k t n there shown),
    );
  }

clear_node_status-IsValid :
    (g : Graph) (k : Key) (n : MessageNode) (shown : Option Key)
    → lookup k g.nodes ≡ some n
    → n.status_message_id ≡ shown
    → GraphIsValid g
    → GraphIsValid (clear_node_status g n shown)
clear_node_status-IsValid g k n none there same v = v
clear_node_status-IsValid g k n (some t) there same v =
    rw (v.keyed k n there) (unfold cleared in cleared-IsValid g k n there v t same)

pub clear_status_of-IsValid :
    (g : Graph) (k : Key) → GraphIsValid g → GraphIsValid (clear_status_of g k)
unfolding clear_status_of
clear_status_of-IsValid g k v =
    from_option_ind GraphIsValid (get_node g k) v
      λ n there. clear_node_status-IsValid g k n n.status_message_id there refl v
