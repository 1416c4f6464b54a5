-- ===== src/Platform/Breaker.antt =====
-- The circuit breaker (internal/shared/platform/breaker/breaker.go). `acquire` and `release` each hold the
-- mutex from their first line to their last, so that concurrent calls of `Do` are a sequence of these steps.
-- `Settings.Ignore` is a flag of the error that a call returns; `OnChange` collects the new states.
pub mod History
mod Tests
use go_marketplace_backend.Base.{
  ℕ, suc, ◌+◌, Bool, true, false, ◌&&◌, ◌||◌, not, List, [], ◌∷◌, ◌++◌, ltb, leb, if◌then◌else◌,
  Option, none, some,
}
use go_marketplace_backend.Base.Int.{ℤ, pos, pos_part, leb_ℤ}

pub data State : Type 0 where
  closed opened half_open : State

abbrev pub same_state : State → State → Bool
same_state closed closed = true
same_state opened opened = true
same_state half_open half_open = true
same_state _ _ = false

-- `cooldown` is in nanoseconds.
pub record Settings : Type 0 where
  pub failures : ℕ
  pub cooldown : ℕ

-- `failures` counts up to the threshold; `changes` is what `OnChange` is called with.
pub record Breaker : Type 0 where
  pub state : State
  pub failures : ℕ
  pub opened_at : ℕ
  pub probing : Bool
  pub changes : List State

-- The defaults of `New`.
unfoldable pub new_settings : ℤ → ℤ → Settings
new_settings failures cooldown = record {
  failures = if leb_ℤ failures (pos 0) then 5 else pos_part failures;
  cooldown = if leb_ℤ cooldown (pos 0) then 30000000000 else pos_part cooldown;
}

abbrev pub new_breaker : Breaker
new_breaker = record { state = closed; failures = 0; opened_at = 0; probing = false; changes = [] }

unfoldable pub move : State → Breaker → Breaker
move state b =
    if same_state b.state state
    then b
    else record b { state = state; changes = b.changes ++ state ∷ [] }

-- The breaker after `acquire`, and whether the call is admitted; otherwise it fails with `ErrOpen`.
unfoldable pub acquire : Settings → ℕ → Breaker → Breaker × Bool
unfolding move
acquire s now b = elim b.state [
  | closed ↦ (b, true)
  | opened ↦
      if ltb now (b.opened_at + s.cooldown)
      then (b, false)
      else (move half_open (record b { probing = true }), true)
  | half_open ↦ if b.probing then (b, false) else (record b { probing = true }, true)
]

-- What a call returns.
pub data CallResult : Type 0 where
  succeeds ignored fails : CallResult

abbrev pub is_failure : CallResult → Bool
is_failure fails = true
is_failure _ = false

unfoldable pub release : Settings → ℕ → CallResult → Breaker → Breaker
unfolding move
release s now result b =
    let calm = record b { probing = false } in
    let failed = record calm { failures = suc b.failures } in
    if not (is_failure result)
    then move closed (record calm { failures = 0 })
    else if same_state b.state half_open || leb s.failures (suc b.failures)
    then move opened (record failed { opened_at = now })
    else failed
