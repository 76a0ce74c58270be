-- ===== src/Lib.antt =====
-- Verification of the Free Claude Code proxy (src/free_claude_code).
--
-- A request of a client is routed to a provider, whose calls pass through an admission controller:
-- it keeps the rate of calls below a limit, holds a slot of a semaphore for each open call, counts
-- the attempts of one logical operation, and when the provider fails lets a single probe through
-- until it recovers. Chat platforms reach the same agents through conversation trees: each tree
-- runs one prompt at a time, queues the others, and resolves replies to prompts and to the status
-- messages that the program posts. A request whose provider fails before it has sent anything goes
-- on to the next model of its route, and text that a provider sends is split at its think tags. What
-- a provider sends reaches the client as Anthropic events, which a ledger of content blocks writes;
-- the first of them are held back for a while, so that a failed attempt can be made again unseen.
-- Tools whose names an upstream would refuse are given other names on the way.
--
-- Files, and the code that each is about:
--   Common: lists, options, Boolean tests, and dictionaries as association lists.
--   Admission: providers/admission.py. Execution is ProviderExecution, Delay is _retry_delay, Gate
--     the recovery episode (_wait_for_gate, _attempt_*), Attempt is ProviderAttempt and
--     _open_attempt with the semaphore. Gate.Valid, Gate.Keeps and Attempt.Invariant prove the
--     invariants, Attempt.Runs states all interleavings as a step relation.
--   RateLimit: core/rate_limit.py, StrictSlidingWindowLimiter.
--   Trees: messaging/trees. Node is node.py, Queue is queue.py, Graph is graph.py, Transitions is
--     transitions.py, Runtime, Runtime.Cancel and Runtime.Settle are runtime.py. Graph.Valid,
--     Graph.Adding and Graph.Removing keep the two indexes of a graph in agreement; Runtime.Claims is
--     about admission, Runtime.Release about the hand-over of the claim.
--   Candidates: application/execution.py, the loop of _stream_candidates over a model's fallbacks.
--   Stream: the Anthropic event stream. Ledger is core/anthropic/streaming/ledger.py, Contract
--     core/anthropic/stream_contracts.py, Responses core/openai_responses/provider_stream.py, the
--     adapter from an upstream's events to Anthropic's. Tracks, Active, Accepted, Writers and CloseAll relate
--     the ledger to the checker of the contract; Linked, Passing, Stopping, Redacted, Orderly and
--     Stepping do so for each step of the adapter, Closing, Finishing, Meeting and Safety for a
--     whole response; Content, Conveys, Spoken, Told and Telling are about
--     the text it conveys.
--   Thinking: core/anthropic/thinking.py, ThinkTagParser. Scan and Begins are about the searches in the
--     buffer, Cut about one step, Feed about the loop of feed.
--   ToolNames: core/openai_tool_names.py, OpenAIToolNameCodec. Coding and Roundtrip are about encoding
--     and decoding, Searching about the loop of _unique_alias, Portable about the aliases.
--   Recovery: providers/stream_recovery.py. Invisible is about what a client sees of an attempt.
--   The modules called Samples evaluate the model on small inputs.
--
-- How the code is read:
--   A method that holds a lock between two awaits, or awaits nothing, is one function from the old
--   state to the new state and the result. Times are whole ticks; the clock's value is an argument,
--   read once in a critical section. Random draws and uuid4 values are arguments. In Attempt a
--   method that awaits the condition's lock is one step: no other task is taken to run while it
--   waits for the lock. Only aclose of an attempt without an outcome is more: aclose up to its await,
--   the shielded abandonment, and end_close, with any steps of other tasks before, between and after
--   them; a cancelled aclose is one whose end_close comes before the abandonment. In the step relation of Attempt.Runs the permit with which a task takes a
--   slot is arbitrary, so it may be as stale as the scheduler makes it.
--   Texts that are only compared (message, claim and session ids) are numbers, 0 the empty text.
--   An exception carries the status, the retryability and the Retry-After seconds that
--   providers/failure_policy.py and _retry_after_seconds read from it.
--   A ValueError of the trees keeps the changes made before it was raised.
--   The loops run over lists, but for feed of ThinkTagParser: it has one round more than its buffer
--     has characters, and every round that goes on makes the buffer shorter.
--   A candidate's stream is the list of its reads with the time that each took; a stream whose list
--     runs out never answers. A candidate may also fail to open, with an error that the loop
--     handles or with another one. Its callbacks return, and closing it only takes time.
--   In Stream an event is the value that emitter.py turns into text, and an upstream event holds the
--     fields that the adapter reads. The index of a block is one higher than in the code, so that -1
--     is 0. A tool's state is read again by its id where the code keeps the object. What an upstream's failure or a
--     KeyError ends keeps the events that were returned before it. The contract's
--     notion of white space, the decoding of tool names, the estimate of tokens and the usage
--     fields are arguments.
--   SHA-256 is an argument of ToolNames; a set of names is a list. The number of attempts of the
--     search for an alias is an argument, and none means that it still searches; more than there are
--     names are enough if its digests differ, and all such numbers give the same codec.
--
-- Not modelled: log lines and trace events; ProviderExecution.run_call; fail_claim and
-- remove_message_subtree of the trees, and restoring a tree from its snapshot; the manager and the
-- repository of trees; the ledger's buffers of task arguments, the text of events; the names in a request's body; the protocol conversions, the HTTP layer, configuration and storage.
pub mod Common
pub mod Admission
pub mod Candidates
pub mod RateLimit
pub mod Recovery
pub mod Stream
pub mod Thinking
pub mod ToolNames
pub mod Trees
