-- ===== src/Platform/Breaker/History.antt =====
-- Sequences of the breaker's steps (internal/shared/platform/breaker/breaker.go), of any number of
-- concurrent calls.
use go_marketplace_backend.Base.{
  ℕ, suc, ◌+◌, ◌<◌, ◌≤◌, ◌≡◌, refl, true, false, List, [], ◌∷◌, ◌++◌, arith, inl, inr, All,
  Bool-cases, ltb,
}
use go_marketplace_backend.Platform.Breaker.{
  closed, opened, half_open, Settings, Breaker, new_breaker, move, acquire, CallResult, fails,
  release,
}

pub data BreakerStep : Type 0 where
  acquires : (now : ℕ) → BreakerStep
  releases : (now : ℕ) (result : CallResult) → BreakerStep

unfoldable pub step : Settings → BreakerStep → Breaker → Breaker
step s (acquires now) b = (acquire s now b).0
step s (releases now result) b = release s now result b

unfoldable pub run : Settings → List BreakerStep → Breaker → Breaker
run s [] b = b
run s (m ∷ ms) b = run s ms (step s m b)

-- How many calls are admitted.
unfoldable pub admitted : Settings → List BreakerStep → Breaker → ℕ
admitted s [] b = 0
admitted s (acquires now ∷ ms) b =
    let rest = admitted s ms (acquire s now b).0 in
    elim (acquire s now b).1 [ true ↦ suc rest | false ↦ rest ]
admitted s (releases now result ∷ ms) b = admitted s ms (release s now result b)

-- A probe is under way exactly in the half-opened state, and a closed breaker has seen fewer failures in
-- succession than the threshold.
pub record IsBreaker (s : Settings) (b : Breaker) : Type 0 where
  pub probing_half_open : b.state ≡ half_open → b.probing ≡ true
  pub probing_only : b.probing ≡ true → b.state ≡ half_open
  pub below_threshold : b.state ≡ closed → b.failures < s.failures

step-IsBreaker :
    (s : Settings) (m : BreakerStep) (b : Breaker)
    → 0 < s.failures
    → IsBreaker s b
    → IsBreaker s (step s m b)
unfolding step acquire release move
step-IsBreaker s (acquires now) b h v = ground (arith, h, v)
step-IsBreaker s (releases now result) b h v = ground (arith, h, v)

run-IsBreaker :
    (s : Settings) (ms : List BreakerStep) (b : Breaker)
    → 0 < s.failures
    → IsBreaker s b
    → IsBreaker s (run s ms b)
unfolding run
run-IsBreaker s [] b h v = v
run-IsBreaker s (m ∷ ms) b h v = run-IsBreaker s ms (step s m b) h (step-IsBreaker s m b h v)

new_breaker-IsBreaker : (s : Settings) → 0 < s.failures → IsBreaker s new_breaker
new_breaker-IsBreaker s h = record {
  probing_half_open = λ e. cc e;
  probing_only = λ e. cc e;
  below_threshold = λ _. h;
}

-- Calls that begin one after the other, none of them returning in between.
abbrev pub calls : List ℕ → List BreakerStep
calls [] = []
calls (t ∷ ts) = acquires t ∷ calls ts

half_open_none :
    (s : Settings) (ts : List ℕ) (b : Breaker)
    → b.state ≡ half_open
    → b.probing ≡ true
    → admitted s (calls ts) b ≡ 0
unfolding admitted acquire
half_open_none s [] b h p = refl
half_open_none s (t ∷ ts) b h p = let ih = half_open_none s ts b h p in ground (arith, h, p, ih)

opened_one :
    (s : Settings) (ts : List ℕ) (b : Breaker) → b.state ≡ opened → admitted s (calls ts) b ≤ 1
unfolding admitted acquire move
opened_one s [] b h = omega arith
opened_one s (t ∷ ts) b h =
    let ih = opened_one s ts b h in
    elim (Bool-cases (ltb t (b.opened_at + s.cooldown))) [
      | inl early ↦ ground (arith, h, early, ih)
      | inr late ↦
          let probe =
            half_open_none s ts (acquire s t b).0 (ground (arith, h, late))
              (ground (arith, h, late)) in
          ground (arith, h, late, probe)
    ]

early_none :
    (s : Settings) (ts : List ℕ) (b : Breaker)
    → b.state ≡ opened
    → All (λ (t : ℕ). t < b.opened_at + s.cooldown) ts
    → admitted s (calls ts) b ≡ 0
unfolding admitted acquire
early_none s [] b h early = refl
early_none s (t ∷ ts) b h (first, early) =
    let ih = early_none s ts b h early in ground (arith, h, first, ih)

-- With a positive threshold, whatever calls have begun and returned on a new breaker that is open
-- now: while no call returns, none that begins before it has cooled down is admitted, and at most
-- one at all; a probe is then under way exactly where the breaker is half open, and a closed one
-- has seen fewer failures in succession than the threshold.
pub admits_one_probe :
    (s : Settings) (ms : List BreakerStep) (early ts : List ℕ)
    → 0 < s.failures
    → (run s ms new_breaker).state ≡ opened
    → All (λ (t : ℕ). t < (run s ms new_breaker).opened_at + s.cooldown) early
    → (admitted s (calls early) (run s ms new_breaker) ≡ 0)
      × (admitted s (calls ts) (run s ms new_breaker) ≤ 1)
      × IsBreaker s (run s (calls ts) (run s ms new_breaker))
admits_one_probe s ms early ts h cut soon =
    let b = run s ms new_breaker in
    let v = run-IsBreaker s ms new_breaker h (new_breaker-IsBreaker s h) in
    (early_none s early b cut soon, opened_one s ts b cut, run-IsBreaker s (calls ts) b h v)

-- A call begins, or one returns a failure.
abbrev pub IsFailing : BreakerStep → Type 0
IsFailing (acquires now) = Unit {0}
IsFailing (releases now result) = result ≡ fails

-- How many calls return.
abbrev pub returned : List BreakerStep → ℕ
returned [] = 0
returned (acquires now ∷ ms) = returned ms
returned (releases now result ∷ ms) = suc (returned ms)

-- So many failures are counted that with those to come, and one more, a closed breaker opens.
abbrev IsNearly : Settings → ℕ → Breaker → Type 0
IsNearly s more b = b.state ≡ closed → s.failures ≤ suc (b.failures + more)

acquire-IsNearly :
    (s : Settings) (now more : ℕ) (b : Breaker)
    → IsNearly s more b
    → IsNearly s more (acquire s now b).0
unfolding acquire move
acquire-IsNearly s now more b h = ground (arith, h)

release-IsNearly :
    (s : Settings) (now more : ℕ) (b : Breaker)
    → IsNearly s (suc more) b
    → IsNearly s more (release s now fails b)
unfolding release move
release-IsNearly s now more b h = ground (arith, h)

last_failure :
    (s : Settings) (now : ℕ) (b : Breaker) → IsNearly s 0 b → (release s now fails b).state ≡ opened
unfolding release move
last_failure s now b h = ground (arith, h)

failures_from :
    (s : Settings) (fs : List BreakerStep) (now : ℕ) (b : Breaker)
    → All IsFailing fs
    → IsNearly s (returned fs) b
    → (run s (fs ++ releases now fails ∷ []) b).state ≡ opened
unfolding run step
failures_from s [] now b _ h = last_failure s now b h
failures_from s (acquires t ∷ fs) now b (_, v) h =
    failures_from s fs now (acquire s t b).0 v (acquire-IsNearly s t (returned fs) b h)
failures_from s (releases t result ∷ fs) now b (e, v) h =
    rw e (failures_from s fs now (release s t fails b) v (release-IsNearly s t (returned fs) b h))

-- Whatever calls have begun and returned on a new breaker that is closed now: when, with other calls
-- beginning in between or not, calls return failures and nothing else, as many as the threshold has or
-- more, then the breaker is open after the last of these failures.
pub opens_after_failures :
    (s : Settings) (ms fs : List BreakerStep) (now : ℕ)
    → (run s ms new_breaker).state ≡ closed
    → All IsFailing fs
    → s.failures ≤ suc (returned fs)
    → (run s (fs ++ releases now fails ∷ []) (run s ms new_breaker)).state ≡ opened
opens_after_failures s ms fs now shut v enough =
    failures_from s fs now (run s ms new_breaker) v (λ _. omega (arith, enough))
