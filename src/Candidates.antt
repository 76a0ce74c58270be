-- ===== src/Candidates.antt =====
-- application/execution.py: the loop of `_stream_candidates` over a primary model and its fallbacks,
-- with its progress deadline. A candidate's stream is given as what its reads yield, in order.
mod Samples
pub mod Selection
pub mod Deadline
use design.Common.{
  ℕ, suc, ◌-◌, Bool, true, false, ◌||◌, List, [], ◌∷◌, ◌++◌, Key, is_text, leb, if◌then◌else◌,
}

-- What `await anext(provider_stream)` gives: a chunk, an ExecutionFailure, the end of the stream,
-- or some other exception.
pub data Read : Type 0 where
  chunk : (text : Key) → Read
  failure : (error : Key) → Read
  stop : Read
  crash : (error : Key) → Read

pub record Event : Type 0 where
  pub elapsed : ℕ
  pub read : Read

-- `open_candidate` raises an ExecutionFailure, breaks with another exception (also the TypeError for
-- a result that is no stream), or gives a stream that takes so long to close. A stream whose events
-- run out never answers again.
pub data Candidate : Type 0 where
  refuses breaks : (error : Key) → Candidate
  streams : (events : List Event) (cleanup : ℕ) → Candidate

-- How the reads of one candidate end.
pub data Ending : Type 0 where
  finished late : Ending
  failed crashed : (error : Key) → Ending

-- The chunks passed on, whether one was, and the time left before the deadline.
pub record Reading : Type 0 where
  pub chunks : List Key
  pub candidate_committed : Bool
  pub remaining : ℕ
  pub ending : Ending

abbrev pub ends_with : (committed : Bool) (remaining : ℕ) → Ending → Reading
ends_with committed remaining ending = record {
  chunks = [];
  candidate_committed = committed;
  remaining = remaining;
  ending = ending;
}

abbrev pub passes_on : Key → Reading → Reading
passes_on text r = record r { chunks = text ∷ r.chunks }

-- The `while` loop. An empty chunk neither commits the candidate nor moves the deadline.
unfoldable pub read_stream : (timeout remaining : ℕ) (committed : Bool) → List Event → Reading
read_stream timeout remaining committed [] = ends_with committed 0 late
read_stream timeout remaining committed (e ∷ es) =
    let fresh = read_stream timeout timeout true es in
    let same = read_stream timeout (remaining - e.elapsed) committed es in
    if leb remaining e.elapsed then ends_with committed 0 late else (elim e.read [
      | chunk text ↦ if is_text text then passes_on text fresh else same
      | failure error ↦ ends_with committed (remaining - e.elapsed) (failed error)
      | stop ↦ ends_with committed (remaining - e.elapsed) finished
      | crash error ↦ ends_with committed (remaining - e.elapsed) (crashed error)
    ])

-- `raised` is the ExecutionFailure of a candidate, `broken` any other exception.
pub data Outcome : Type 0 where
  returned : Outcome
  raised : (error : Key) → Outcome
  broken : (error : Key) → Outcome
  timed_out : (index : ℕ) → Outcome

-- The chunks, the calls of `candidate_selected` and `candidate_failed`, and how the body ends.
pub record Service : Type 0 where
  pub chunks : List Key
  pub selected : List ℕ
  pub failures : List Key
  pub outcome : Outcome

abbrev pub selection : Bool → ℕ → List ℕ
selection true index = index ∷ []
selection false index = []

abbrev pub ends : ℕ → Reading → Outcome → Service
ends index r outcome = record {
  chunks = r.chunks;
  selected = selection r.candidate_committed index;
  failures = [];
  outcome = outcome;
}

abbrev pub noted : Key → Service → Service
noted error s = record s { failures = error ∷ s.failures }

abbrev pub any_left : List Candidate → Bool
any_left [] = false
any_left (_ ∷ _) = true

-- What the next candidates do comes after what this one has done.
abbrev pub followed : ℕ → Reading → Service → Service
followed index r next = record next {
  chunks = r.chunks ++ next.chunks;
  selected = selection r.candidate_committed index ++ next.selected;
}

-- A failed candidate: the next one is tried if nothing was passed on and there is one.
abbrev pub after_failure : ℕ → Reading → Key → List Candidate → (next : Service) → Service
after_failure index r error others next = noted error (
    if r.candidate_committed
    then ends index r (raised error)
    else (if any_left others then followed index r next else ends index r (raised error)))

abbrev pub close_late : ℕ → Reading → (cleanup : ℕ) → (closed : Service) → Service
close_late index r cleanup closed =
    if leb r.remaining cleanup then ends index r (timed_out index) else closed

abbrev pub settle : ℕ → Reading → (cleanup : ℕ) → List Candidate → (next : Service) → Service
settle index r cleanup others next = elim r.ending [
  | late ↦ ends index r (timed_out index)
  | crashed error ↦ ends index r (broken error)
  | finished ↦ close_late index r cleanup (record (ends index r returned) { selected = index ∷ [] })
  | failed error ↦ close_late index r cleanup (after_failure index r error others next)
]

-- `provider_body` from the candidate of this index on.
unfoldable pub serve : (timeout remaining index : ℕ) → List Candidate → Service
unfolding read_stream
serve timeout remaining index [] = ends index (ends_with false remaining finished) returned
serve timeout remaining index (refuses error ∷ others) =
    let next = serve timeout remaining (suc index) others in
    after_failure index (ends_with false remaining (failed error)) error others next
serve timeout remaining index (breaks error ∷ others) =
    ends index (ends_with false remaining (crashed error)) (broken error)
serve timeout remaining index (streams events cleanup ∷ others) =
    let r = read_stream timeout remaining false events in
    let next = serve timeout (r.remaining - cleanup) (suc index) others in
    settle index r cleanup others next
