-- ===== src/Trees/Runtime/Settle/Keeps.antt =====
-- What settling a claim's node keeps and achieves.
use design.Common.{
  ◌≡◌, refl, true, ◌||◌, Option, none, some, is_some, Key, if_cases, from_option_ind, lookup, arith,
}
use design.Trees.Node.{
  MessageNode, MessageState, completed, is_in_progress, is_error, is_runnable, update_state,
}
use design.Trees.Graph.{TreeSnapshot}
use design.Trees.Graph.Valid.{lookup-modify_node}
use design.Trees.Transitions.{ActiveClaim, runs_node}
use design.Trees.Runtime.{Tree}
use design.Trees.Runtime.Valid.{TreeIsValid, set_state-IsValid, update_state-fields}
use design.Trees.Runtime.Release.{IsSettled}
use design.Trees.Runtime.Settle.{may_settle, active_node, settle, complete_claim}

-- The tree stays valid; if a snapshot is returned, the claim's node is no longer in progress.
abbrev pub Completes : Tree × Option TreeSnapshot → Type 0
Completes r = TreeIsValid r.0 × (is_some r.1 ≡ true → IsSettled r.0)

pub active_node-id :
    (t : Tree) (active : Option ActiveClaim) (n : MessageNode)
    → TreeIsValid t
    → active_node t active ≡ some n
    → (lookup n.node_id t.graph.nodes ≡ some n)
      × (runs_node active n.node_id ≡ true)
      × ((k : Key) → runs_node active k ≡ true → k ≡ n.node_id)
active_node-id t none n v e = absurd (ground (arith))
active_node-id t (some a) n v e =
    let same = v.graph.keyed a.claim.node.node_id n e in
    (ground (arith, same, e), ground (arith, same), λ k h. ground (arith, same, h))

module _ (t : Tree) (v : TreeIsValid t) (n : MessageNode)
    (here : active_node t t.active ≡ some n) where
  pub settle-IsValid :
      (state : MessageState) (session_id : Option Key)
      → (is_runnable state ≡ true → is_runnable n.state ≡ true)
      → TreeIsValid (settle t n state session_id).0
  settle-IsValid state session_id runnable =
      let (there, runs, only) = active_node-id t t.active n v here in
      set_state-IsValid t (settle t n state session_id).0 n.node_id state session_id v refl refl
        (λ m p run. ground (arith, there, p, v.shown n.node_id n there (runnable run))) (λ _. runs)
        (λ j m _ p run. v.running j m p run)

  settle-IsSettled : (session_id : Option Key) → IsSettled (settle t n completed session_id).0
  settle-IsSettled session_id k m runs p run =
      let (there, _, only) = active_node-id t t.active n v here in
      ground (
        arith,
        only k runs,
        there,
        p,
        lookup-modify_node t.graph n.node_id (λ x. update_state x completed session_id) k,
        update_state-fields n completed session_id,
      )

-- In a valid tree `complete_claim` keeps the tree valid, and if it returns a snapshot, the node of
-- the active claim is no longer in progress, which is what releasing the claim asks for.
pub complete_claim-Completes :
    (t : Tree) (claim_id : Key) (session_id : Option Key)
    → TreeIsValid t
    → Completes (complete_claim t claim_id session_id)
unfolding complete_claim
complete_claim-Completes t claim_id session_id v =
    if_cases Completes (may_settle t.active claim_id)
      (λ _.
        from_option_ind Completes (active_node t t.active) (v, λ h. absurd (ground (arith, h)))
          λ n here.
            if_cases Completes (is_in_progress n.state || is_error n.state)
              (λ _. (
                settle-IsValid t v n here completed session_id (λ h. absurd (ground (arith, h))),
                λ _. settle-IsSettled t v n here session_id,
              ))
              (λ _. (v, λ h. absurd (ground (arith, h)))))
      (λ _. (v, λ h. absurd (ground (arith, h))))
