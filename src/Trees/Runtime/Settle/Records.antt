-- ===== src/Trees/Runtime/Settle/Records.antt =====
-- What recording a session does.
use design.Common.{
  ◌≡◌, refl, ◌⊎◌, inl, inr, true, false, if◌then◌else◌, ◌==◌, Option, none, some, Key, if_cases,
  Option-cases, Bool-cases, lookup, arith,
}
use design.Trees.Node.{MessageNode, in_progress, is_in_progress, update_state}
use design.Trees.Graph.{TreeSnapshot, snapshot}
use design.Trees.Graph.Valid.{lookup-modify_node}
use design.Trees.Transitions.{ActiveClaim}
use design.Trees.Runtime.{Tree}
use design.Trees.Runtime.Valid.{TreeIsValid}
use design.Trees.Runtime.Settle.{may_settle, active_node, settle, record_session}
use design.Trees.Runtime.Settle.Keeps.{settle-IsValid}

-- The claim is the active one and not cancelled, and its node is in progress.
pub record Runs (t : Tree) (claim_id : Key) (n : MessageNode) : Type 0 where
  pub active : ActiveClaim
  pub here : t.active ≡ some active
  pub own : active.claim.claim_id ≡ claim_id
  pub wanted : active.cancellation_requested ≡ false
  pub node : lookup active.claim.node.node_id t.graph.nodes ≡ some n
  pub running : n.state ≡ in_progress

-- The node with the session's id; an empty id leaves the old one.
abbrev pub with_session : Key → MessageNode → MessageNode
with_session session_id n = record n {
  session_id = if session_id == 0 then n.session_id else some session_id;
}

-- The tree with the session recorded in one node.
pub record IsRecorded (t : Tree) (session_id : Key) (n : MessageNode)
    (r : Tree × Option TreeSnapshot) : Type 0 where
  pub returned : r.1 ≡ some (snapshot r.0.graph)
  pub nodes :
      (k : Key)
      → lookup k r.0.graph.nodes
        ≡ (if n.node_id == k then some (with_session session_id n) else lookup k t.graph.nodes)
  pub queue : r.0.queue ≡ t.queue
  pub active : r.0.active ≡ t.active

-- The session is recorded in the running claim's node, or the claim does not run and the tree is
-- left as it was.
abbrev pub Records : Tree → (claim_id session_id : Key) → Tree × Option TreeSnapshot → Type 0
Records t claim_id session_id r =
    TreeIsValid r.0
    × (((n : MessageNode) × Runs t claim_id n × IsRecorded t session_id n r)
        ⊎ (((n : MessageNode) → ¬ Runs t claim_id n) × (r ≡ (t, none))))

module _ (t : Tree) (claim_id : Key) where
  Runs-iff :
      (n : MessageNode)
      → Runs t claim_id n
      → (may_settle t.active claim_id ≡ true)
        × (active_node t t.active ≡ some n)
        × (is_in_progress n.state ≡ true)
  Runs-iff n r =
      rw r.here (ground (arith, r.own, r.wanted), ground (arith, r.node), ground (arith, r.running))

  settles-Runs :
      (n : MessageNode)
      → may_settle t.active claim_id ≡ true
      → active_node t t.active ≡ some n
      → is_in_progress n.state ≡ true
      → Runs t claim_id n
  settles-Runs n m h p = elim (Option-cases t.active) [
    | inl e ↦ absurd (ground (arith, e))
    | inr (a, e) ↦ record {
      active = a;
      here = e;
      own = ground (arith, e);
      wanted = ground (arith, e);
      node = ground (arith, e);
      running = ground (arith);
    }
  ]

update_state-session :
    (n : MessageNode) (session_id : Key)
    → n.state ≡ in_progress
    → update_state n in_progress (some session_id) ≡ with_session session_id n
unfolding update_state
update_state-session n session_id h = ground (arith, h, Bool-cases (session_id == 0))

settle-IsRecorded :
    (t : Tree) (claim_id session_id : Key) (n : MessageNode)
    → TreeIsValid t
    → Runs t claim_id n
    → IsRecorded t session_id n (settle t n in_progress (some session_id))
settle-IsRecorded t claim_id session_id n v r = record {
  returned = refl;
  nodes = λ k. ground (
    arith,
    lookup-modify_node t.graph n.node_id (λ m. update_state m in_progress (some session_id)) k,
    r.node,
    v.graph.keyed r.active.claim.node.node_id n r.node,
    update_state-session n session_id r.running,
  );
  queue = refl;
  active = refl;
}

-- In a valid tree `record_session` leaves a valid tree. Either the claim is the active one, not
-- cancelled, and its node in progress: then it returns a snapshot, the node has the session's id,
-- or its old one if that is empty, and all other nodes, the queue and the active claim are as they
-- were. Or there is no such node, and it returns none and leaves the tree as it was.
pub record_session-Records :
    (t : Tree) (claim_id session_id : Key)
    → TreeIsValid t
    → Records t claim_id session_id (record_session t claim_id session_id)
unfolding record_session
record_session-Records t claim_id session_id v =
    if_cases (Records t claim_id session_id) (may_settle t.active claim_id)
      (λ m. elim (Option-cases (active_node t t.active)) [
        | inl e ↦ rw e (refuse (λ n r. ground (arith, e, Runs-iff t claim_id n r)))
        | inr (n, e) ↦ rw e (
            if_cases (Records t claim_id session_id) (is_in_progress n.state)
              (λ p.
                let runs = settles-Runs t claim_id n m e p in
                (
                  settle-IsValid t v n e in_progress (some session_id) (λ _. ground (arith, p)),
                  inl (n, runs, settle-IsRecorded t claim_id session_id n v runs),
                ))
              (λ p. refuse (λ n' r. ground (arith, e, p, Runs-iff t claim_id n' r))))
      ])
      (λ m. refuse (λ n r. ground (arith, m, Runs-iff t claim_id n r)))
  where
    refuse : ((n : MessageNode) → ¬ Runs t claim_id n) → Records t claim_id session_id (t, none)
    refuse h = (v, inr (h, refl))
