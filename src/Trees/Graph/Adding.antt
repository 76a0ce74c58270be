-- ===== src/Trees/Graph/Adding.antt =====
-- Adding nodes, and the first node, keep the indexes of a graph in agreement.
use design.Common.{
  ◌≡◌, refl, subst, true, false, Option, none, some, [], ◌∷◌, Key, ◌==◌, if◌then◌else◌, Bool-cases,
  inl, inr, is_some, lookup, insert, lookup-insert, arith,
}
use design.Trees.Node.{MessageNode, ok}
use design.Trees.Graph.{
  Graph, NewNode, new_graph, check_node, link_node, add_node, fresh_node, append_child, is_key,
  status_entries,
}
use design.Trees.Graph.Valid.{GraphIsValid, modify_node-IsValid}

-- A graph as `add_node` leaves it before the parent's list of children grows.
abbrev pub with_fresh : Graph → NewNode → Graph
with_fresh g r = record g {
  nodes = insert r.node_id (fresh_node r) g.nodes;
  status_to_node = insert r.status_message_id r.node_id g.status_to_node;
}

-- What the checks of `add_node` leave of the new ids.
pub record IsNew (g : Graph) (r : NewNode) : Type 0 where
  pub new_id : lookup r.node_id g.nodes ≡ none
  pub new_id_status : lookup r.node_id g.status_to_node ≡ none
  pub new_status : lookup r.status_message_id g.status_to_node ≡ none
  pub new_status_id : lookup r.status_message_id g.nodes ≡ none
  pub distinct : r.status_message_id == r.node_id ≡ false
  pub parent_there : is_some (lookup r.parent_id g.nodes) ≡ true

pub check_node-IsNew : (g : Graph) (r : NewNode) → check_node g r ≡ none → IsNew g r
unfolding check_node
check_node-IsNew g r h = ground arith

module _ (g : Graph) (r : NewNode) (new : IsNew g r) (v : GraphIsValid g) where
  at_node :
      (k : Key)
      → lookup k (with_fresh g r).nodes
        ≡ (if r.node_id == k then some (fresh_node r) else lookup k g.nodes)
  at_node k = lookup-insert r.node_id k (fresh_node r) g.nodes

  at_status :
      (s : Key)
      → lookup s (with_fresh g r).status_to_node
        ≡ (if r.status_message_id == s then some r.node_id else lookup s g.status_to_node)
  at_status s = lookup-insert r.status_message_id s r.node_id g.status_to_node

  with_fresh-IsValid : GraphIsValid (with_fresh g r)
  with_fresh-IsValid = record {
    keyed = λ k n p. ground (arith, at_node k, v.keyed k n);
    forward = λ k s n p q. ground (arith, at_node k, at_status s, v.forward k s n, new.new_status);
    backward = λ s k h. elim (Bool-cases (r.status_message_id == s)) [
      | inl e ↦ (fresh_node r, ground (arith, at_node k, at_status s), ground (arith))
      | inr e ↦
          let (n, p, q) = v.backward s k (ground (arith, at_status s)) in
          (n, ground (arith, at_node k, new.new_id), q)
    ];
    apart = λ s k h.
        ground (arith, at_node s, at_status s, v.apart s k, new.new_id_status, new.new_status_id);
  }

  pub link_node-IsValid : GraphIsValid (link_node g r)
  unfolding link_node
  link_node-IsValid =
      modify_node-IsValid (with_fresh g r) r.parent_id (append_child r.node_id) (λ n. (refl, refl))
        with_fresh-IsValid

pub add_node_ok :
    (g : Graph) (r : NewNode) → check_node g r ≡ none → add_node g r ≡ ok (link_node g r)
unfolding add_node
add_node_ok g r h = rw h

pub add_node-checked :
    (g : Graph) (r : NewNode) (h : Graph)
    → add_node g r ≡ ok h
    → (check_node g r ≡ none) × (link_node g r ≡ h)
unfolding add_node
add_node-checked g r h added = ground arith

pub add_node-IsValid :
    (g : Graph) (r : NewNode) (h : Graph) → GraphIsValid g → add_node g r ≡ ok h → GraphIsValid h
add_node-IsValid g r h v added =
    let (checked, same) = add_node-checked g r h added in
    subst GraphIsValid same (link_node-IsValid g r (check_node-IsNew g r checked) v)

-- The graph of one node.
abbrev single : MessageNode → Graph
single root = record {
  root_id = root.node_id;
  identity = record { scope = root.scope; root_id = root.node_id };
  nodes = (root.node_id, root) ∷ [];
  status_to_node = status_entries root.status_message_id root.node_id;
}

single-status :
    (shown : Option Key) (k s : Key)
    → lookup s (status_entries shown k) ≡ (if (is_key shown s) then some k else none)
unfolding lookup
single-status none k s = refl
single-status (some t) k s = ground arith

single-IsValid :
    (root : MessageNode)
    → is_key root.status_message_id root.node_id ≡ false
    → GraphIsValid (single root)
unfolding lookup
single-IsValid root distinct = record {
  keyed = λ k n p. ground arith;
  forward = λ k s n p q. ground (arith, single-status root.status_message_id root.node_id s);
  backward = λ s k h. (
    root,
    ground (arith, single-status root.status_message_id root.node_id s),
    ground (arith, single-status root.status_message_id root.node_id s),
  );
  apart = λ s k h. ground (arith, single-status root.status_message_id root.node_id s);
}

pub new_graph-IsValid : (root : MessageNode) (g : Graph) → new_graph root ≡ ok g → GraphIsValid g
unfolding new_graph
new_graph-IsValid root g made =
    let distinct : is_key root.status_message_id root.node_id ≡ false = ground arith in
    let same : single root ≡ g = ground arith in
    subst GraphIsValid same (single-IsValid root distinct)
