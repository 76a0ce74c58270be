-- ===== src/RateLimit/Progress.antt =====
-- A caller that sleeps as long as it is told is let in by the next round.
use design.Common.{
  ℕ, ◌+◌, ◌≤◌, ◌<◌, ◌≡◌, refl, sym, Bool, true, List, [], ◌∷◌, length, length-append, arith,
}
use design.RateLimit.{Limiter, admitted, sleep, drop_expired, decide_round, acquire_round}

length-drop_expired-le :
    (window now : ℕ) (ts : List ℕ) → length (drop_expired window now ts) ≤ length ts
unfolding drop_expired
length-drop_expired-le window now [] = omega arith
length-drop_expired-le window now (t ∷ ts) = ground (arith, length-drop_expired-le window now ts)

-- A round on a queue of at most the limit's length leaves at most the limit's length.
pub acquire_round-length-le :
    (l : Limiter) (now stamp : ℕ) (allowed : Bool)
    → length l.times ≤ l.rate_limit
    → length (acquire_round l now stamp allowed).0.times ≤ l.rate_limit
unfolding acquire_round decide_round
acquire_round-length-le l now stamp allowed h = ground (
  arith,
  length-drop_expired-le l.rate_window now l.times,
  length-append (drop_expired l.rate_window now l.times) (stamp ∷ []),
)

drop_first :
    (window now later : ℕ) (ts : List ℕ) (t : ℕ) (rest : List ℕ)
    → drop_expired window now ts ≡ t ∷ rest
    → t + window ≤ later
    → length (drop_expired window later (t ∷ rest)) < length (t ∷ rest)
unfolding drop_expired
drop_first window now later ts t rest e h = ground (arith, length-drop_expired-le window later rest)

after_sleep :
    (l : Limiter) (now stamp wait_time stamp' : ℕ) (allowed : Bool) (ts : List ℕ)
    → ts ≡ drop_expired l.rate_window now l.times
    → 0 < l.rate_limit
    → length ts ≤ l.rate_limit
    → (decide_round l now stamp allowed ts).1 ≡ sleep wait_time
    → (acquire_round (decide_round l now stamp allowed ts).0 (now + wait_time) stamp' true).1
      ≡ admitted
unfolding acquire_round decide_round
after_sleep l now stamp wait_time stamp' allowed [] from some_limit h e = ground arith
after_sleep l now stamp wait_time stamp' allowed (t ∷ rest) from some_limit h e =
    ground (arith, drop_first l.rate_window now (now + wait_time) l.times t rest (sym from))

-- If a round on a queue of at most the limit's length, the limit positive, tells its caller to
-- sleep, and nobody acquires meanwhile, the round after the sleep admits a caller whose condition
-- holds.
pub acquire_round-after_sleep :
    (l : Limiter) (now stamp wait_time stamp' : ℕ) (allowed : Bool)
    → 0 < l.rate_limit
    → length l.times ≤ l.rate_limit
    → (acquire_round l now stamp allowed).1 ≡ sleep wait_time
    → (acquire_round (acquire_round l now stamp allowed).0 (now + wait_time) stamp' true).1
      ≡ admitted
unfolding acquire_round
acquire_round-after_sleep l now stamp wait_time stamp' allowed some_limit h e =
    after_sleep l now stamp wait_time stamp' allowed (drop_expired l.rate_window now l.times) refl
      some_limit (omega (arith, length-drop_expired-le l.rate_window now l.times)) e
