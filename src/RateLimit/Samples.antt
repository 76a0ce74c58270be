-- ===== src/RateLimit/Samples.antt =====
-- The properties of the limiter on small runs.
use design.Common.{◌+◌, ◌≤◌, ◌≡◌, refl, true, [], ◌∷◌, List, length, count, arith}
use design.RateLimit.{Limiter, admitted, sleep, acquire_round}
use design.RateLimit.Window.{Call, run, inside, IsMonotone, run-within_limit}
use design.RateLimit.Progress.{acquire_round-length-le, acquire_round-after_sleep}

abbrev calls : List Call
calls =
    record { now = 0; stamp = 1; allowed = true }
    ∷ record { now = 2; stamp = 2; allowed = true }
    ∷ record { now = 3; stamp = 3; allowed = true }
    ∷ record { now = 12; stamp = 12; allowed = true }
    ∷ []

calls-IsMonotone : IsMonotone 0 calls
calls-IsMonotone = ground arith

abbrev idle : Limiter
idle = record { rate_limit = 2; rate_window = 10; times = [] }

run-within_limit_example : count (inside 10 2) (run idle [] calls).1 ≤ 2
run-within_limit_example = run-within_limit 2 10 0 2 calls calls-IsMonotone

abbrev full : Limiter
full = record { rate_limit = 2; rate_window = 10; times = 1 ∷ 2 ∷ [] }

acquire_round-length-le_example : length (acquire_round full 11 12 true).0.times ≤ 2
acquire_round-length-le_example = acquire_round-length-le full 11 12 true (omega arith)

full-sleeps : (acquire_round full 4 4 true).1 ≡ sleep 7
unfolding acquire_round
full-sleeps = refl

acquire_round-after_sleep_example :
    (acquire_round (acquire_round full 4 4 true).0 (4 + 7) 12 true).1 ≡ admitted
acquire_round-after_sleep_example =
    acquire_round-after_sleep full 4 4 7 12 true (omega arith) (omega arith) full-sleeps
