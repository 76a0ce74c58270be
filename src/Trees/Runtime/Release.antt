-- ===== src/Trees/Runtime/Release.antt =====
-- What releasing a claim does: `finish_and_claim_next` of messaging/trees/runtime.py.
use design.Common.{
  ◌≡◌, ◌≢◌, refl, Bool, true, false, Option, none, some, List, [], ◌∷◌, Key, if◌then◌else◌,
  Option-cases, Bool-cases, from_option, inl, inr, is_text, lookup,
}
use design.Trees.Node.{MessageNode, in_progress, is_pending}
use design.Trees.Queue.{Queue, put, discard}
use design.Trees.Queue
use design.Trees.Queue.Laws
use design.Trees.Graph.{Graph}
use design.Trees.Transitions.{NodeClaim, runs_node}
use design.Trees.Runtime.{
  Tree, claim, popped, claim_next, completion, finish_and_claim_next, holds_claim,
}
use design.Trees.Runtime.Valid.{TreeIsValid, IsIdle, Succeeds, and_then-Succeeds}
use design.Trees.Runtime.Claims.{IsClaimed, claim-Succeeds, queue_entries_from-ok}

-- The oldest queued prompt that still waits. An empty id ends the search, as it ends the loop.
abbrev pub waits_in : Graph → Key → Bool
waits_in g k = from_option (lookup k g.nodes) false (λ n. is_pending n.state)

unfoldable pub next_waiting : Graph → List Key → Option Key
next_waiting g [] = none
next_waiting g (k ∷ ks) =
    if is_text k then (if waits_in g k then some k else next_waiting g ks) else none

-- What the loop over the queue leaves: no claim if nobody waits, or the claim of the oldest prompt
-- that does.
pub data Successor (g : Graph) (found : Option Key) (claim_id : Key) (t' : Tree)
    : Option NodeClaim → Type 0 where
  nobody : found ≡ none → t'.active ≡ none → t'.graph ≡ g → Successor g found claim_id t' none
  oldest :
      (k : Key) (c : NodeClaim)
      → found ≡ some k
      → IsClaimed k claim_id t' c
      → Successor g found claim_id t' (some c)

popped-IsValid :
    (t : Tree) (k : Key) (ks : List Key)
    → TreeIsValid t
    → t.queue.deque ≡ k ∷ ks
    → TreeIsValid (popped t k ks)
popped-IsValid t k ks v h = record {
  graph = v.graph;
  queue =
      unfold Queue.pop_from in
      Laws.pop_from-IsValid (k ∷ ks) t.queue.index (rw h at v.queue.indexed)
        (rw h at v.queue.distinct);
  shown = v.shown;
  running = v.running;
}

claim_next-Succeeds :
    (t : Tree) (claim_id : Key) (ks : List Key)
    → TreeIsValid t
    → IsIdle t
    → t.active ≡ none
    → t.queue.deque ≡ ks
    → Succeeds
        (λ t' c. TreeIsValid t' × Successor t.graph (next_waiting t.graph ks) claim_id t' c)
        (claim_next t claim_id ks)
unfolding claim_next next_waiting
claim_next-Succeeds t claim_id [] v idle free listed = (v, nobody refl free refl)
claim_next-Succeeds t claim_id (k ∷ ks) v idle free listed =
    let after = popped t k ks in
    let w = popped-IsValid t k ks v listed in
    let rest = claim_next-Succeeds after claim_id ks w idle free refl in
    elim (Bool-cases (is_text k)) [
      | inr e ↦ rw e (w, nobody refl free refl)
      | inl e ↦ elim (Option-cases (lookup k t.graph.nodes)) [
        | inl p ↦ rw (e, p) rest
        | inr (n, p) ↦ elim (Bool-cases (is_pending n.state)) [
          | inr q ↦ rw (e, p, q) rest
          | inl q ↦
              rw (e, p, q)
                (and_then-Succeeds (IsClaimed k claim_id)
                  (λ t' c. TreeIsValid t' × Successor t.graph (some k) claim_id t' c)
                  (claim after claim_id n) _ (claim-Succeeds after claim_id k n w idle p q)
                  (λ c t' h. (h.valid, oldest k c refl h)))
        ]
      ]
    ]

-- The node of the active claim is no longer in progress: its run has completed or failed it, or it
-- was cancelled or removed.
abbrev pub IsSettled : Tree → Type 0
IsSettled t =
    (k : Key) (n : MessageNode)
    → runs_node t.active k ≡ true
    → lookup k t.graph.nodes ≡ some n
    → n.state ≢ in_progress

IsSettled-IsIdle : (t : Tree) → TreeIsValid t → IsSettled t → IsIdle t
IsSettled-IsIdle t v settled k n p run = settled k n (v.running k n p run) p run

completion-Succeeds :
    (P : Tree → Option NodeClaim → Type 0) (t : Tree) (c : Option NodeClaim)
    → TreeIsValid t
    → P t c
    → Succeeds (λ t' r. P t' r.next_claim) (completion t c)
completion-Succeeds P t c v h =
    let (entries, e) = queue_entries_from-ok t v 0 (Queue.items t.queue) in rw e h

-- When the active claim's holder finishes in a valid tree, its node no longer in progress if it is
-- still there, the call returns, the tree stays valid,
-- and the claim passes to the oldest queued prompt that still waits, or to nobody if none does.
pub finish_and_claim_next-Succeeds :
    (t : Tree) (finished claim_id : Key)
    → TreeIsValid t
    → IsSettled t
    → holds_claim t.active finished ≡ true
    → Succeeds
        (λ t' r.
          TreeIsValid t'
          × Successor t.graph (next_waiting t.graph (Queue.items t.queue)) claim_id t' r.next_claim)
        (finish_and_claim_next t finished claim_id)
unfolding finish_and_claim_next
finish_and_claim_next-Succeeds t finished claim_id v settled holds =
    let found = next_waiting t.graph (Queue.items t.queue) in
    let freed = record t { active = none } in
    let idle = IsSettled-IsIdle t v settled in
    let w : TreeIsValid freed = record {
      graph = v.graph;
      queue = v.queue;
      shown = v.shown;
      running = λ k n p run. absurd (idle k n p run);
    } in
    rw holds (
      and_then-Succeeds (λ t' c. TreeIsValid t' × Successor t.graph found claim_id t' c)
        (λ t' r. TreeIsValid t' × Successor t.graph found claim_id t' r.next_claim)
        (claim_next freed claim_id t.queue.deque) _
        (claim_next-Succeeds freed claim_id t.queue.deque w idle refl refl)
        (λ c t' (x, y).
          completion-Succeeds (λ s d. TreeIsValid s × Successor t.graph found claim_id s d) t' c x
            (x, y)))
