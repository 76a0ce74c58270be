-- ===== src/Candidates/Selection.antt =====
-- Which candidate serves a request.
use design.Common.{
  sym, subst, ℕ, suc, ◌+◌, ◌-◌, ◌≡◌, refl, ◌⊎◌, inl, inr, Bool, true, false, some, List, [], ◌∷◌,
  ◌++◌, Key, leb, Bool-cases, if_ind, if_cases, get_elem?, length, arith,
}
use design.Candidates.{
  Event, Candidate, refuses, breaks, streams, followed, Ending, finished, late, failed, crashed,
  Reading, read_stream, ends_with, Service, Outcome, returned, raised, broken, timed_out, ends,
  serve, settle, after_failure, any_left, noted,
}

-- Without a chunk that commits it, a candidate passes nothing on.
read_stream-uncommitted :
    (timeout remaining : ℕ) (committed : Bool) (es : List Event)
    → (read_stream timeout remaining committed es).candidate_committed ≡ false
    → ((read_stream timeout remaining committed es).chunks ≡ []) × (committed ≡ false)
unfolding read_stream
read_stream-uncommitted timeout remaining committed [] h = ground arith
read_stream-uncommitted timeout remaining committed (e ∷ es) h = ground (
  arith,
  read_stream-uncommitted timeout timeout true es,
  read_stream-uncommitted timeout (remaining - e.elapsed) committed es,
)

-- A candidate that is not committed leaves no trace in what follows.
followed-uncommitted :
    (index : ℕ) (r : Reading) (next : Service)
    → r.candidate_committed ≡ false
    → r.chunks ≡ []
    → followed index r next ≡ next
followed-uncommitted index r next off none_passed = rw (off, none_passed) refl

-- What the request got came from no candidate, or from the one that was selected.
pub data Source (candidates : List Candidate) (index : ℕ) (s : Service) : Type 0 where
  nobody : s.selected ≡ [] → s.chunks ≡ [] → Source candidates index s
  one :
      (i timeout remaining cleanup : ℕ) (events : List Event)
      → get_elem? candidates i ≡ some (streams events cleanup)
      → s.selected ≡ (index + i) ∷ []
      → s.chunks ≡ (read_stream timeout remaining false events).chunks
      → Source candidates index s

Source-noted :
    (error : Key) (cs : List Candidate) (index : ℕ) (s : Service)
    → Source cs index s
    → Source cs index (noted error s)
Source-noted error cs index s (nobody p q) = nobody p q
Source-noted error cs index s (one i timeout remaining cleanup events here p q) =
    one i timeout remaining cleanup events here p q

Source-later :
    (c : Candidate) (cs : List Candidate) (index : ℕ) (s : Service)
    → Source cs (suc index) s
    → Source (c ∷ cs) index s
Source-later c cs index s (nobody p q) = nobody p q
Source-later c cs index s (one i timeout remaining cleanup events here p q) =
    one (suc i) timeout remaining cleanup events (unfold get_elem? in here) (ground (arith)) q

module _ (timeout remaining cleanup index : ℕ) (events : List Event) (cs : List Candidate) where
  abbrev reading : Reading
  reading = read_stream timeout remaining false events

  ends-Source : (o : Outcome) → Source (streams events cleanup ∷ cs) index (ends index reading o)
  ends-Source o = elim (Bool-cases reading.candidate_committed) [
    | inl e ↦
        one 0 timeout remaining cleanup events (unfold get_elem? in refl) (ground (arith, e)) refl
    | inr e ↦
        nobody (ground (arith, e)) ((read_stream-uncommitted timeout remaining false events e).0)
  ]

  abbrev Keeps : Service → Type 0
  Keeps s = Source (streams events cleanup ∷ cs) index s

  after_failure-Source :
      (error : Key) (next : Service)
      → Source cs (suc index) next
      → Keeps (after_failure index reading error cs next)
  after_failure-Source error next h = Source-noted error (streams events cleanup ∷ cs) index _ (
      if_cases Keeps reading.candidate_committed (λ _. ends-Source (raised error))
        λ off.
          if_ind Keeps (any_left cs)
            (rw
              (followed-uncommitted index reading next off
                ((read_stream-uncommitted timeout remaining false events off).0))
              (Source-later (streams events cleanup) cs index next h))
            (ends-Source (raised error)))

  finished-Source : Keeps (record (ends index reading returned) { selected = index ∷ [] })
  finished-Source =
      one 0 timeout remaining cleanup events (unfold get_elem? in refl) (ground (arith)) refl

  settle-Source :
      (next : Service) (ending : Ending)
      → Source cs (suc index) next
      → reading.ending ≡ ending
      → Keeps (settle index reading cleanup cs next)
  settle-Source next late h e = rw e (ends-Source (timed_out index))
  settle-Source next (crashed error) h e = rw e (ends-Source (broken error))
  settle-Source next finished h e =
      rw e (
        if_ind Keeps (leb reading.remaining cleanup) (ends-Source (timed_out index))
          finished-Source)
  settle-Source next (failed error) h e = rw e (
      if_ind Keeps (leb reading.remaining cleanup) (ends-Source (timed_out index))
        (after_failure-Source error next h))

-- Whatever the candidates do, at most one is selected, and all chunks passed on are those of its
-- stream; if none is selected, nothing is passed on.
pub serve-Source :
    (timeout remaining index : ℕ) (cs : List Candidate)
    → Source cs index (serve timeout remaining index cs)
unfolding serve
serve-Source timeout remaining index [] = nobody refl refl
serve-Source timeout remaining index (refuses error ∷ cs) =
    Source-noted error (refuses error ∷ cs) index _ (
      if_ind (Source (refuses error ∷ cs) index) (any_left cs)
        (Source-later (refuses error) cs index _ (serve-Source timeout remaining (suc index) cs))
        (nobody refl refl))
serve-Source timeout remaining index (breaks error ∷ cs) = nobody refl refl
serve-Source timeout remaining index (streams events cleanup ∷ cs) =
    settle-Source timeout remaining cleanup index events cs _ _
      (serve-Source timeout ((read_stream timeout remaining false events).remaining - cleanup)
        (suc index) cs)
      refl

-- How many candidates failed before the end, counted by the calls of `candidate_failed`.
pub record Accounts (candidates : List Candidate) (index : ℕ) (s : Service) : Type 0 where
  pub when_returned : s.outcome ≡ returned → s.selected ≡ (index + length s.failures) ∷ []
  pub when_raised :
      (error : Key)
      → s.outcome ≡ raised error
      → (earlier : List Key) × (s.failures ≡ earlier ++ error ∷ [])
        × (((s.selected ≡ []) × (length s.failures ≡ length candidates))
            ⊎ (s.selected ≡ (index + length earlier) ∷ []))

Accounts-later :
    (c : Candidate) (cs : List Candidate) (index : ℕ) (error : Key) (s : Service)
    → Accounts cs (suc index) s
    → Accounts (c ∷ cs) index (noted error s)
Accounts-later c cs index error s h = record {
  when_returned = λ e. ground (arith, h.when_returned e);
  when_raised = λ x e.
      let (earlier, p, q) = h.when_raised x e in
      (error ∷ earlier, ground (arith, p), ground (arith, q));
}

module _ (timeout remaining cleanup index : ℕ) (c : Candidate) (r : Reading)
    (cs : List Candidate) where
  Ends : Service → Type 0
  Ends s = Accounts (c ∷ cs) index s

  timed_out-Accounts : Accounts (c ∷ cs) index (ends index r (timed_out index))
  timed_out-Accounts = record {
    when_returned = λ e. ground (arith);
    when_raised = λ x e. absurd (ground (arith));
  }

  broken-Accounts : (error : Key) → Accounts (c ∷ cs) index (ends index r (broken error))
  broken-Accounts error = record {
    when_returned = λ e. ground (arith);
    when_raised = λ x e. absurd (ground (arith));
  }

  finished-Accounts :
      Accounts (c ∷ cs) index (record (ends index r returned) { selected = index ∷ [] })
  finished-Accounts = record {
    when_returned = λ e. ground (arith);
    when_raised = λ x e. absurd (ground (arith));
  }

  failed-Accounts :
      (error : Key)
      → ((r.candidate_committed ≡ true) ⊎ (cs ≡ []))
      → Accounts (c ∷ cs) index (noted error (ends index r (raised error)))
  failed-Accounts error why = record {
    when_returned = λ e. absurd (ground (arith));
    when_raised = λ x e. ([], ground (arith), ground (arith, why));
  }

  none_left : any_left cs ≡ false → cs ≡ []
  none_left e = ground (arith)

  after_failure-Accounts :
      (error : Key) (next : Service)
      → (r.candidate_committed ≡ false → r.chunks ≡ [])
      → (any_left cs ≡ true → Accounts cs (suc index) next)
      → Accounts (c ∷ cs) index (after_failure index r error cs next)
  after_failure-Accounts error next quiet h =
      if_cases (λ x. Accounts (c ∷ cs) index (noted error x)) r.candidate_committed
        (λ e. failed-Accounts error (inl e))
        λ off.
          if_cases (λ x. Accounts (c ∷ cs) index (noted error x)) (any_left cs)
            (λ e.
              subst (λ x. Accounts (c ∷ cs) index (noted error x))
                (sym (followed-uncommitted index r next off (quiet off)))
                (Accounts-later c cs index error next (h e)))
            (λ e. failed-Accounts error (inr (none_left e)))

  settle-Accounts :
      (next : Service) (ending : Ending)
      → (r.candidate_committed ≡ false → r.chunks ≡ [])
      → (any_left cs ≡ true → Accounts cs (suc index) next)
      → r.ending ≡ ending
      → Accounts (c ∷ cs) index (settle index r cleanup cs next)
  settle-Accounts next late quiet h e = rw e timed_out-Accounts
  settle-Accounts next (crashed error) quiet h e = rw e (broken-Accounts error)
  settle-Accounts next finished quiet h e = rw e (
      if_ind (Accounts (c ∷ cs) index) (leb r.remaining cleanup) timed_out-Accounts
        finished-Accounts)
  settle-Accounts next (failed error) quiet h e = rw e (
      if_ind (Accounts (c ∷ cs) index) (leb r.remaining cleanup) timed_out-Accounts
        (after_failure-Accounts error next quiet h))

-- For at least one candidate: if the body returns, the candidate selected is the one after as many
-- failed ones as `candidate_failed` was called for. If it raises a candidate's failure, that is the
-- last one reported, and either no candidate was selected and every one has failed, or the failed
-- one was selected and all candidates before it had failed.
pub serve-Accounts :
    (timeout remaining index : ℕ) (cs : List Candidate)
    → any_left cs ≡ true
    → Accounts cs index (serve timeout remaining index cs)
unfolding serve
serve-Accounts timeout remaining index [] h = absurd (ground (arith))
serve-Accounts timeout remaining index (refuses error ∷ cs) h =
    after_failure-Accounts timeout remaining 0 index (refuses error)
      (ends_with false remaining (failed error)) cs error _ (λ _. refl)
      (serve-Accounts timeout remaining (suc index) cs)
serve-Accounts timeout remaining index (breaks error ∷ cs) h =
    broken-Accounts timeout remaining 0 index (breaks error)
      (ends_with false remaining (crashed error)) cs error
serve-Accounts timeout remaining index (streams events cleanup ∷ cs) h =
    let r = read_stream timeout remaining false events in
    settle-Accounts timeout remaining cleanup index (streams events cleanup) r cs _ r.ending
      (λ off. (read_stream-uncommitted timeout remaining false events off).0)
      (serve-Accounts timeout (r.remaining - cleanup) (suc index) cs) refl
