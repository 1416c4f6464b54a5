-- ===== src/Platform/Breaker/Tests.antt =====
-- A breaker at concrete inputs: two failures open it for ten nanoseconds.
use go_marketplace_backend.Base.{◌≤◌, ◌≡◌, refl, List, [], ◌∷◌, ◌++◌, arith}
use go_marketplace_backend.Platform.Breaker.{
  closed, opened, Settings, new_breaker, move, acquire, succeeds, fails, release,
}
use go_marketplace_backend.Platform.Breaker.History.{
  BreakerStep, acquires, releases, step, run, admitted, calls, IsBreaker, admits_one_probe,
  opens_after_failures,
}

abbrev two_strikes : Settings
two_strikes = record { failures = 2; cooldown = 10 }

abbrev strikes : List BreakerStep
strikes = acquires 1 ∷ acquires 2 ∷ releases 3 fails ∷ releases 4 fails ∷ []

is_opened : (run two_strikes strikes new_breaker).state ≡ opened
unfolding run step acquire release move
is_opened = refl

opened_at_four : (run two_strikes strikes new_breaker).opened_at ≡ 4
unfolding run step acquire release move
opened_at_four = refl

admits_one_probe_example :
    (admitted two_strikes (calls (5 ∷ 13 ∷ [])) (run two_strikes strikes new_breaker) ≡ 0)
    × (admitted two_strikes (calls (14 ∷ 15 ∷ [])) (run two_strikes strikes new_breaker) ≤ 1)
    × IsBreaker two_strikes
        (run two_strikes (calls (14 ∷ 15 ∷ [])) (run two_strikes strikes new_breaker))
admits_one_probe_example =
    admits_one_probe two_strikes strikes (5 ∷ 13 ∷ []) (14 ∷ 15 ∷ []) (omega arith) is_opened
      (omega (arith, opened_at_four), (omega (arith, opened_at_four), tt))

is_closed : (run two_strikes (acquires 1 ∷ releases 2 succeeds ∷ []) new_breaker).state ≡ closed
unfolding run step acquire release move
is_closed = refl

-- Two calls, one after the other, that both fail.
abbrev two_failing : List BreakerStep
two_failing = acquires 3 ∷ releases 4 fails ∷ acquires 5 ∷ []

opens_after_failures_example :
    (run two_strikes
      (two_failing ++ releases 6 fails ∷ [])
      (run two_strikes (acquires 1 ∷ releases 2 succeeds ∷ []) new_breaker)).state
    ≡ opened
opens_after_failures_example =
    opens_after_failures two_strikes (acquires 1 ∷ releases 2 succeeds ∷ []) two_failing 6 is_closed
      (tt, (refl, (tt, tt))) (omega arith)
