-- ===== src/RateLimit.antt =====
-- core/rate_limit.py: StrictSlidingWindowLimiter. Times are whole ticks of `time.monotonic()`.
mod Samples
pub mod Window
pub mod Progress
use design.Common.{
  ℕ, ◌+◌, ◌-◌, Bool, true, false, List, [], ◌∷◌, ◌++◌, leb, ltb, if◌then◌else◌, length,
}

-- `times` holds the oldest acquisition first.
pub record Limiter : Type 0 where
  pub rate_limit : ℕ
  pub rate_window : ℕ
  pub times : List ℕ

-- One round of the loop in `_acquire`: it returns True or False, or sleeps and tries again.
pub data Round : Type 0 where
  admitted refused : Round
  sleep : (wait_time : ℕ) → Round

-- `t <= now - window`; the difference may be negative in the source, so it is moved across.
abbrev pub is_expired : (window now t : ℕ) → Bool
is_expired window now t = leb (t + window) now

unfoldable pub drop_expired : (window now : ℕ) → List ℕ → List ℕ
drop_expired window now [] = []
drop_expired window now (t ∷ ts) =
    if is_expired window now t then drop_expired window now ts else t ∷ ts

abbrev oldest : List ℕ → ℕ
oldest [] = 0
oldest (t ∷ _) = t

unfoldable pub decide_round :
    Limiter → (now stamp : ℕ) → (allowed : Bool) → List ℕ → Limiter × Round
decide_round l now stamp allowed ts =
    if ltb (length ts) l.rate_limit
    then (if allowed
        then (record l { times = ts ++ stamp ∷ [] }, admitted)
        else (record l { times = ts }, refused))
    else (record l { times = ts }, sleep (oldest ts + l.rate_window - now))

-- The critical section: the clock shows `now` at its start and `stamp` when the acquisition is
-- recorded; `allowed` is the answer of the condition, True if there is none.
unfoldable pub acquire_round : Limiter → (now stamp : ℕ) → (allowed : Bool) → Limiter × Round
unfolding drop_expired decide_round
acquire_round l now stamp allowed =
    decide_round l now stamp allowed (drop_expired l.rate_window now l.times)
