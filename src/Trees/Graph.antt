-- ===== src/Trees/Graph.antt =====
-- messaging/trees/graph.py: nodes by id, and status messages to their nodes. A dictionary is an
-- association list in insertion order.
pub mod Valid
pub mod Adding
pub mod Removing
pub mod References
use design.Common.{
  Bool, false, not, Option, none, some, List, [], ◌∷◌, ◌++◌, map, Key, ◌==◌, if◌then◌else◌,
  from_option, is_some, is_text, filter, lookup, insert, remove, keys,
}
use design.Trees.Node.{
  MessageScope, scope_eq, MessageNode, MessageState, pending, MessageReferenceKind, prompt, status,
  clear_status, TreeError, cross_scope, unknown_parent, foreign_reference, duplicate_node,
  same_reference, taken_reference, taken_status, Result, ok, raised,
}

pub record TreeIdentity : Type 0 where
  pub scope : MessageScope
  pub root_id : Key

pub record Graph : Type 0 where
  pub root_id : Key
  pub identity : TreeIdentity
  pub nodes : List (Key × MessageNode)
  pub status_to_node : List (Key × Key)

abbrev pub is_key : Option Key → Key → Bool
is_key none k = false
is_key (some j) k = j == k

abbrev pub status_entries : Option Key → Key → List (Key × Key)
status_entries none node_id = []
status_entries (some s) node_id = (s, node_id) ∷ []

-- `MessageTreeGraph(root_node)`.
unfoldable pub new_graph : MessageNode → Result Graph
new_graph root =
    if is_key root.status_message_id root.node_id
    then raised same_reference
    else ok (record {
      root_id = root.node_id;
      identity = record { scope = root.scope; root_id = root.node_id };
      nodes = (root.node_id, root) ∷ [];
      status_to_node = status_entries root.status_message_id root.node_id;
    })

abbrev pub get_node : Graph → Key → Option MessageNode
get_node g k = lookup k g.nodes

abbrev pub has_node : Graph → Key → Bool
has_node g k = is_some (lookup k g.nodes)

abbrev pub has_status : Graph → Key → Bool
has_status g k = is_some (lookup k g.status_to_node)

-- `not node.parent_id` is true of an empty id as well.
abbrev pub parent_node : Graph → Option Key → Option MessageNode
parent_node g none = none
parent_node g (some p) = if is_text p then get_node g p else none

unfoldable pub get_parent : Graph → Key → Option MessageNode
unfolding lookup
get_parent g k = from_option (get_node g k) none (λ n. parent_node g n.parent_id)

unfoldable pub get_parent_session_id : Graph → Key → Option Key
unfolding get_parent
get_parent_session_id g k = from_option (get_parent g k) none (λ n. n.session_id)

unfoldable pub find_node_by_status_message : Graph → Key → Option MessageNode
unfolding lookup
find_node_by_status_message g s =
    from_option (lookup s g.status_to_node) none (λ k. if is_text k then get_node g k else none)

unfoldable pub resolve_reference : Graph → Key → Option (MessageNode × MessageReferenceKind)
unfolding lookup find_node_by_status_message
resolve_reference g r =
    from_option (get_node g r)
      (from_option (find_node_by_status_message g r) none (λ n. some (n, status)))
      (λ n. some (n, prompt))

abbrev pub set_node : Graph → MessageNode → Graph
set_node g n = record g { nodes = insert n.node_id n g.nodes }

-- An in-place change of the node object with this id, if there is one.
unfoldable pub modify_node : Graph → Key → (MessageNode → MessageNode) → Graph
unfolding lookup insert
modify_node g k f = from_option (get_node g k) g (λ n. record g { nodes = insert k (f n) g.nodes })

abbrev pub append_child : Key → MessageNode → MessageNode
append_child k n = record n { children_ids = n.children_ids ++ k ∷ [] }

pub record NewNode : Type 0 where
  pub node_id : Key
  pub scope : MessageScope
  pub prompt : Key
  pub status_message_id : Key
  pub parent_id : Key
  pub parent_reference_id : Key

abbrev pub owned_by : Option (MessageNode × MessageReferenceKind) → Key → Bool
owned_by none k = false
owned_by (some (n, _)) k = n.node_id == k

-- The checks of `add_node`, in their order.
unfoldable pub check_node : Graph → NewNode → Option TreeError
unfolding resolve_reference lookup
check_node g r =
    if not (scope_eq r.scope g.identity.scope)
    then some cross_scope
    else (if not (has_node g r.parent_id)
        then some unknown_parent
        else (if not (owned_by (resolve_reference g r.parent_reference_id) r.parent_id)
            then some foreign_reference
            else (if has_node g r.node_id
                then some duplicate_node
                else (if r.status_message_id == r.node_id
                    then some same_reference
                    else (if has_status g r.node_id
                        then some taken_reference
                        else (if has_status g r.status_message_id
                            then some taken_status
                            else (if has_node g r.status_message_id
                                then some taken_reference
                                else none)))))))

abbrev pub fresh_node : NewNode → MessageNode
fresh_node r = record {
  node_id = r.node_id;
  scope = r.scope;
  prompt = r.prompt;
  status_message_id = some r.status_message_id;
  state = pending;
  parent_id = some r.parent_id;
  parent_reference_id = some r.parent_reference_id;
  session_id = none;
  children_ids = [];
}

unfoldable pub link_node : Graph → NewNode → Graph
unfolding insert modify_node
link_node g r =
    modify_node
      (record g {
        nodes = insert r.node_id (fresh_node r) g.nodes;
        status_to_node = insert r.status_message_id r.node_id g.status_to_node;
      })
      r.parent_id (append_child r.node_id)

unfoldable pub add_node : Graph → NewNode → Result Graph
unfolding check_node link_node
add_node g r = from_option (check_node g r) (ok (link_node g r)) (λ e. raised e)

abbrev pub drop_child : Key → MessageNode → MessageNode
drop_child k n = record n { children_ids = filter (λ c. not (c == k)) n.children_ids }

abbrev pub unlink_parent : Graph → Key → Option Key → Graph
unlink_parent g k none = g
unlink_parent g k (some p) = modify_node g p (drop_child k)

abbrev pub unlink_status : Graph → Option Key → Graph
unlink_status g none = g
unlink_status g (some s) = record g { status_to_node = remove s g.status_to_node }

unfoldable pub remove_node : Graph → Key → Graph
unfolding lookup remove modify_node filter
remove_node g k = from_option (get_node g k) g λ n.
    let unlinked = unlink_status (unlink_parent g k n.parent_id) n.status_message_id in
    record unlinked { nodes = remove k unlinked.nodes }

-- The set is given in the order in which the loop takes it.
unfoldable pub remove_nodes : Graph → List Key → Graph
unfolding remove_node
remove_nodes g [] = g
remove_nodes g (k ∷ ks) = remove_nodes (remove_node g k) ks

abbrev pub clear_node_status : Graph → MessageNode → Option Key → Graph
clear_node_status g n none = g
clear_node_status g n (some s) =
    modify_node (record g { status_to_node = remove s g.status_to_node }) n.node_id clear_status

unfoldable pub clear_status_of : Graph → Key → Graph
unfolding lookup remove modify_node clear_status
clear_status_of g k = from_option (get_node g k) g (λ n. clear_node_status g n n.status_message_id)

unfoldable pub all_reference_ids : Graph → List Key
all_reference_ids g = keys g.nodes ++ keys g.status_to_node

-- What is kept of a node in a snapshot, and the snapshot of a tree.
pub record NodeSnapshot : Type 0 where
  pub node_id : Key
  pub status_message_id : Option Key
  pub state : MessageState
  pub parent_id : Option Key
  pub parent_reference_id : Option Key
  pub session_id : Option Key

pub record TreeSnapshot : Type 0 where
  pub scope : MessageScope
  pub root_id : Key
  pub nodes : List (Key × NodeSnapshot)

unfoldable pub node_to_snapshot : MessageNode → NodeSnapshot
node_to_snapshot n = record {
  node_id = n.node_id;
  status_message_id = n.status_message_id;
  state = n.state;
  parent_id = n.parent_id;
  parent_reference_id = n.parent_reference_id;
  session_id = n.session_id;
}

unfoldable pub snapshot : Graph → TreeSnapshot
unfolding node_to_snapshot
snapshot g = record {
  scope = g.identity.scope;
  root_id = g.root_id;
  nodes = map (λ (e : Key × MessageNode). (e.0, node_to_snapshot e.1)) g.nodes;
}
