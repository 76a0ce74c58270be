-- ===== src/RateLimit/Window.antt =====
-- The guarantee of the limiter's docstring, over any sequence of rounds.
use design.Common.{
  ℕ, ◌+◌, ◌≤◌, ◌<◌, ◌≡◌, refl, Bool, ◌&&◌, List, [], ◌∷◌, leb, ltb, length, count, count-snoc,
  arith,
}
use design.RateLimit.{Limiter, Round, admitted, drop_expired, decide_round, acquire_round}

-- One round with the times that the clock shows in it.
pub record Call : Type 0 where
  pub now : ℕ
  pub stamp : ℕ
  pub allowed : Bool

abbrev note : Round → ℕ → List ℕ → List ℕ
note admitted stamp log = stamp ∷ log
note _ stamp log = log

-- The limiter after some rounds, and the log of all acquisitions, the newest first.
pub run : Limiter → List ℕ → List Call → Limiter × List ℕ
run l log [] = (l, log)
run l log (c ∷ cs) =
    let (l', r) = acquire_round l c.now c.stamp c.allowed in run l' (note r c.stamp log) cs

-- The clock never goes back.
abbrev pub IsMonotone : ℕ → List Call → Type 0
IsMonotone clock [] = Unit
IsMonotone clock (c ∷ cs) = (clock ≤ c.now) × (c.now ≤ c.stamp) × IsMonotone c.stamp cs

abbrev alive : (window c t : ℕ) → Bool
alive window c t = ltb c (t + window)

abbrev pub inside : (window from t : ℕ) → Bool
inside window from t = leb from t && ltb t (from + window)

count-drop_expired :
    (window now c : ℕ) (ts : List ℕ)
    → now ≤ c
    → count (alive window c) (drop_expired window now ts) ≡ count (alive window c) ts
unfolding count drop_expired
count-drop_expired window now c [] h = refl
count-drop_expired window now c (t ∷ ts) h = ground (arith, count-drop_expired window now c ts h)

count-le_length : (p : ℕ → Bool) (ts : List ℕ) → count p ts ≤ length ts
unfolding count
count-le_length p [] = omega arith
count-le_length p (t ∷ ts) = ground (arith, count-le_length p ts)

-- Each acquisition found fewer than `limit` earlier ones within the window before it.
abbrev IsSpaced : (limit window : ℕ) → List ℕ → Type 0
IsSpaced limit window [] = Unit
IsSpaced limit window (x ∷ log) = (count (alive window x) log < limit) × IsSpaced limit window log

inside-le-alive :
    (window from x : ℕ) (log : List ℕ)
    → x < from + window
    → count (inside window from) log ≤ count (alive window x) log
unfolding count
inside-le-alive window from x [] h = omega arith
inside-le-alive window from x (t ∷ log) h = ground (arith, inside-le-alive window from x log h)

IsSpaced-count :
    (limit window from : ℕ) (log : List ℕ)
    → IsSpaced limit window log
    → count (inside window from) log ≤ limit
unfolding count
IsSpaced-count limit window from [] h = omega arith
IsSpaced-count limit window from (x ∷ log) h =
    ground (arith, IsSpaced-count limit window from log h.1, inside-le-alive window from x log)

-- The queue of times still holds every acquisition that is alive.
record Tracks (clock : ℕ) (l : Limiter) (log : List ℕ) : Type 0 where
  spaced : IsSpaced l.rate_limit l.rate_window log
  kept :
      (c : ℕ)
      → clock ≤ c
      → count (alive l.rate_window c) log ≤ count (alive l.rate_window c) l.times

module _ (l : Limiter) (log : List ℕ) (clock now stamp : ℕ) (allowed : Bool) (late : clock ≤ now)
    (later : now ≤ stamp) where
  after : Limiter
  after = (acquire_round l now stamp allowed).0

  decide_round-Tracks :
      (ts : List ℕ)
      → IsSpaced l.rate_limit l.rate_window log
      → ((c : ℕ) → now ≤ c → count (alive l.rate_window c) log ≤ count (alive l.rate_window c) ts)
      → Tracks stamp
          (decide_round l now stamp allowed ts).0
          (note (decide_round l now stamp allowed ts).1 stamp log)
  unfolding decide_round count
  decide_round-Tracks ts spaced kept = record {
    spaced = ground (arith, kept stamp, count-le_length (alive l.rate_window stamp) ts, spaced);
    kept = λ c h. ground (arith, kept c, count-snoc (alive l.rate_window c) ts stamp);
  }

  acquire_round-Tracks :
      Tracks clock l log
      → Tracks stamp
          (acquire_round l now stamp allowed).0
          (note (acquire_round l now stamp allowed).1 stamp log)
  unfolding acquire_round
  acquire_round-Tracks v =
      decide_round-Tracks (drop_expired l.rate_window now l.times) v.spaced
        (λ c h. ground (arith, v.kept c, count-drop_expired l.rate_window now c l.times h))

acquire_round-settings :
    (l : Limiter) (now stamp : ℕ) (allowed : Bool)
    → ((acquire_round l now stamp allowed).0.rate_limit ≡ l.rate_limit)
      × ((acquire_round l now stamp allowed).0.rate_window ≡ l.rate_window)
unfolding acquire_round
acquire_round-settings l now stamp allowed = ground arith

run-count :
    (l : Limiter) (log : List ℕ) (clock from : ℕ) (calls : List Call)
    → Tracks clock l log
    → IsMonotone clock calls
    → count (inside l.rate_window from) (run l log calls).1 ≤ l.rate_limit
unfolding run
run-count l log clock from [] v h = IsSpaced-count l.rate_limit l.rate_window from log v.spaced
run-count l log clock from (c ∷ cs) v h =
    let (l', r) = acquire_round l c.now c.stamp c.allowed in
    let rest =
      run-count l' (note r c.stamp log) c.stamp from cs
        (acquire_round-Tracks l log clock c.now c.stamp c.allowed h.0 h.1 v) h.2 in
    ground (arith, rest, acquire_round-settings l c.now c.stamp c.allowed)

-- Whatever rounds are run, on a clock that never goes back, no interval of the window's length
-- holds more acquisitions than the limit.
pub run-within_limit :
    (rate_limit rate_window clock from : ℕ) (calls : List Call)
    → IsMonotone clock calls
    → let l : Limiter = record { rate_limit = rate_limit; rate_window = rate_window; times = [] } in
      count (inside rate_window from) (run l [] calls).1 ≤ rate_limit
run-within_limit rate_limit rate_window clock from calls h =
    run-count _ [] clock from calls (record { spaced = tt; kept = λ c p. omega arith }) h
