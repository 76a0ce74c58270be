-- ===== src/Trees/Samples.antt =====
-- The properties of the conversation trees on a small tree: prompt 1 with status message 11 runs,
-- its replies 2 and 3 wait.
use design.Common.{
  ◌≡◌, ◌≢◌, ◌⊎◌, refl, true, false, none, some, [], ◌∷◌, Key, lookup, insert, if◌then◌else◌, arith,
}
use design.Trees.Node.{
  MessageScope, MessageNode, prompt, status, pending, error, completed, TreeError, no_status, ok,
  raised, update_state,
}
use design.Trees.Queue.{Queue}
use design.Trees.Queue.Laws.{Promises, Queue-Promises}
use design.Trees.Queue.Laws
use design.Trees.Graph.{
  Graph, NewNode, modify_node, clear_status_of, new_graph, link_node, add_node, check_node,
  resolve_reference,
}
use design.Trees.Graph.Valid.{GraphIsValid}
use design.Trees.Graph.Adding.{new_graph-IsValid}
use design.Trees.Graph.References.{
  GraphHistory, starts, continues, adds, GraphHistory-IsValid, owner, add_node-resolves,
  resolve_reference-carries,
}
use design.Trees.Transitions.{ActiveClaim, request_cancellation, claim_of, runs_node}
use design.Trees.Runtime.{
  Tree, holds_claim, with_graph, enqueue_or_claim, add_and_enqueue, finish_and_claim_next,
}
use design.Trees.Runtime.Valid.{TreeIsValid, Succeeds, set_state-IsValid}
use design.Trees.Runtime.Claims.{Admission, enqueue_or_claim-Succeeds, add_and_enqueue-cases}
use design.Trees.Runtime.Release.{
  IsSettled, Successor, next_waiting, finish_and_claim_next-Succeeds,
}
use design.Trees.Runtime.Settle.{record_session, complete_claim}
use design.Trees.Runtime.Settle.Keeps.{Completes, complete_claim-Completes}
use design.Trees.Runtime.Settle.Records.{Records, record_session-Records}
use design.Trees.Runtime.Cancel.{cancel_all, cancel_node}
use design.Trees.Runtime.Cancel.Stops.{
  ActiveIsShown, IsStopped, cancel_all-Succeeds, cancel_all-raises,
}
use design.Trees.Runtime.Cancel.StopsNode.{NodeIsStopped, cancel_node-Succeeds}

abbrev chat : MessageScope
chat = record { platform = 1; chat_id = 5 }

abbrev root : MessageNode
root = record {
  node_id = 1;
  scope = chat;
  prompt = 1;
  status_message_id = some 11;
  state = pending;
  parent_id = none;
  parent_reference_id = none;
  session_id = none;
  children_ids = [];
}

abbrev reply : NewNode
reply = record {
  node_id = 2;
  scope = chat;
  prompt = 2;
  status_message_id = 12;
  parent_id = 1;
  parent_reference_id = 11;
}

abbrev alone : Graph
alone = record {
  root_id = 1;
  identity = record { scope = chat; root_id = 1 };
  nodes = (1, root) ∷ [];
  status_to_node = (11, 1) ∷ [];
}

alone-made : new_graph root ≡ ok alone
unfolding new_graph
alone-made = refl

program : Unit {0}
unfolding add_node check_node link_node resolve_reference enqueue_or_claim add_and_enqueue
    finish_and_claim_next cancel_all cancel_node lookup insert clear_status_of next_waiting
    modify_node update_state
program = tt

abbrev pair : Graph
pair = link_node alone reply

reply-added : add_node alone reply ≡ ok pair
unfolding program
reply-added = refl

pair-History : GraphHistory root pair
pair-History = continues (starts alone alone-made) (adds reply pair reply-added)

GraphHistory-IsValid_example : GraphIsValid pair
GraphHistory-IsValid_example = GraphHistory-IsValid pair-History

alone-IsValid : GraphIsValid alone
alone-IsValid = new_graph-IsValid root alone alone-made

add_node-resolves_example :
    (owner (resolve_reference pair 2) ≡ some (2, prompt))
    × (owner (resolve_reference pair 12) ≡ some (2, status))
    × ((k : Key)
        → k ≢ 2
        → k ≢ 12
        → owner (resolve_reference pair k) ≡ owner (resolve_reference alone k))
add_node-resolves_example = add_node-resolves alone reply pair alone-IsValid refl reply-added

alone-resolves : resolve_reference alone 11 ≡ some (root, status)
unfolding program
alone-resolves = refl

resolve_reference-carries_example :
    (lookup 1 alone.nodes ≡ some root)
    × (((status ≡ prompt) × (◌≡◌ {A = Key} 1 11))
        ⊎ ((status ≡ status) × (root.status_message_id ≡ some 11)))
resolve_reference-carries_example =
    resolve_reference-carries alone 11 root status alone-IsValid alone-resolves

abbrev waiting : Queue
waiting = record { deque = 2 ∷ 3 ∷ []; index = 3 ∷ 2 ∷ [] }

abbrev no_queue : Queue
no_queue = record { deque = []; index = [] }

no_queue-IsValid : Laws.IsValid no_queue
no_queue-IsValid = record { indexed = λ k. refl; distinct = tt }

Queue-Promises_example : Promises no_queue
Queue-Promises_example = Queue-Promises no_queue no_queue-IsValid

-- The tree before its root is admitted.
abbrev planted : Tree
planted = record { graph = pair; queue = no_queue; active = none }

planted-IsValid : TreeIsValid planted
unfolding program
planted-IsValid = record {
  graph = GraphHistory-IsValid pair-History;
  queue = no_queue-IsValid;
  shown = λ k n p run. ground arith;
  running = λ k n p run. ground arith;
}

enqueue_or_claim-Succeeds_example :
    Succeeds (λ t' d. TreeIsValid t' × Admission planted 1 50 t' d) (enqueue_or_claim planted 50 1)
enqueue_or_claim-Succeeds_example = enqueue_or_claim-Succeeds planted planted-IsValid 50 1

abbrev busy : Tree
busy = (enqueue_or_claim planted 50 1).0

busy-IsValid : TreeIsValid busy
unfolding program
busy-IsValid = enqueue_or_claim-Succeeds_example.0

abbrev second_reply : NewNode
second_reply = record reply { node_id = 3; status_message_id = 13 }

add_and_enqueue-cases_example :
    ((e : TreeError) × (check_node busy.graph second_reply ≡ some e)
      × (add_and_enqueue busy 51 second_reply ≡ (busy, raised e)))
    ⊎ ((check_node busy.graph second_reply ≡ none)
        × Succeeds
            (λ t' d.
              TreeIsValid t'
              × Admission (with_graph busy (link_node busy.graph second_reply)) 3 51 t' d)
            (add_and_enqueue busy 51 second_reply))
add_and_enqueue-cases_example = add_and_enqueue-cases busy busy-IsValid 51 second_reply

abbrev queued : Tree
queued = (enqueue_or_claim busy 51 2).0

queued-IsValid : TreeIsValid queued
unfolding program
queued-IsValid = (enqueue_or_claim-Succeeds busy busy-IsValid 51 2).0

-- Prompt 1 has completed, and its claim is not released yet.
abbrev settled : Tree
settled = with_graph queued (modify_node queued.graph 1 (λ n. update_state n completed none))

settled-IsValid : TreeIsValid settled
settled-IsValid =
    set_state-IsValid queued settled 1 completed none queued-IsValid refl refl
      (λ n p run. ground (arith)) (λ e. ground (arith))
      (λ j n _ p run. queued-IsValid.running j n p run)

settled-IsSettled : IsSettled settled
unfolding program
settled-IsSettled k n runs p = ground arith

holds_50 : holds_claim settled.active 50 ≡ true
unfolding program
holds_50 = refl

finish_and_claim_next-Succeeds_example :
    Succeeds
      (λ t' r.
        TreeIsValid t'
        × Successor settled.graph
            (next_waiting settled.graph settled.queue.deque)
            52
            t'
            r.next_claim)
      (finish_and_claim_next settled 50 52)
finish_and_claim_next-Succeeds_example =
    finish_and_claim_next-Succeeds settled 50 52 settled-IsValid settled-IsSettled holds_50

-- The successor is prompt 2.
settled-hands_over : next_waiting settled.graph settled.queue.deque ≡ some 2
unfolding program
settled-hands_over = refl

queued-ActiveIsShown : ActiveIsShown queued
unfolding program
queued-ActiveIsShown k n runs p failed = ground arith

cancel_all-Succeeds_example :
    Succeeds
      (λ t' r. IsStopped queued t' × (r.active_claim ≡ claim_of queued.active))
      (cancel_all queued)
cancel_all-Succeeds_example = cancel_all-Succeeds queued queued-IsValid queued-ActiveIsShown

cancel_node-Succeeds_example :
    Succeeds
      (λ t' r.
        NodeIsStopped queued t' 2
        × (r.active_claim ≡ (if runs_node queued.active 2 then claim_of queued.active else none)))
      (cancel_node queued 2)
cancel_node-Succeeds_example = cancel_node-Succeeds queued 2 queued-IsValid queued-ActiveIsShown

-- The chat clears status message 11 while prompt 1 runs.
abbrev cleared : Tree
cleared = with_graph queued (clear_status_of queued.graph 1)

abbrev claim_50 : ActiveClaim
claim_50 = record {
  claim = record {
    identity = record { scope = chat; root_id = 1 };
    claim_id = 50;
    node = record { scope = chat; node_id = 1; status_message_id = 11 };
    prompt = 1;
    parent_session_id = none;
  };
  cancellation_requested = false;
}

abbrev failed_root : MessageNode
failed_root = record root { status_message_id = none; state = error; children_ids = 2 ∷ [] }

cleared-active : cleared.active ≡ some claim_50
unfolding program
cleared-active = refl

cleared-root : lookup 1 cleared.graph.nodes ≡ some failed_root
unfolding program
cleared-root = refl

cancel_all-raises_example :
    cancel_all cleared
    ≡ (record cleared { active = request_cancellation cleared.active }, raised no_status)
cancel_all-raises_example =
    cancel_all-raises cleared claim_50 failed_root cleared-active cleared-root refl refl

complete_claim-Completes_example : Completes (complete_claim queued 50 (some 9))
complete_claim-Completes_example = complete_claim-Completes queued 50 (some 9) queued-IsValid

record_session-Records_example : Records queued 50 9 (record_session queued 50 9)
record_session-Records_example = record_session-Records queued 50 9 queued-IsValid
