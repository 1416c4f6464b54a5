-- ===== src/Ordering/Saga/Progress.antt =====
-- The methods of the saga (internal/ordering/domain/saga.go) as one data type of commands: its commit, the
-- record of the capture, and the waits between compensations.
use go_marketplace_backend.Base.{
  ◌≡◌, refl, ◌+◌, ◌==◌, ℕ, zero, suc, ◌*◌, ◌^◌, ◌≤◌, true, false, List, [], ◌∷◌, if◌then◌else◌,
  arith, min, ◌-◌,
}
use native.Mathlib.Decide.{dec_le}
use go_marketplace_backend.Base.Int.{pos, min_ℤ, shift_left64}
use go_marketplace_backend.Base.Text.{Text, text_eq_iff, is_empty}
use go_marketplace_backend.Ordering.Saga.{
  CheckoutSaga, running, Step, refund_payment, redeem_promo, await_payment, begin_commit,
  commit_stock, capture_payment, complete, record_error, committing, is_expired, second,
  compensation_backoff, begin_compensation, compensate, fail_compensation, resume, change_payment,
  plan, return_stock, release_promo, close_order,
}

pub data SagaCommand : Type 0 where
  redeems : SagaCommand
  awaits : (payment_id : Text) → SagaCommand
  begins_commit : (payment_id : Text) → SagaCommand
  commits : SagaCommand
  captures : SagaCommand
  completes : SagaCommand
  records_error : (error : Text) → SagaCommand
  begins_compensation : (reason refund_id : Text) → SagaCommand
  compensates : (step : Step) → SagaCommand
  fails_compensation : (error : Text) (max_attempts : ℕ) → SagaCommand
  resumes : SagaCommand
  changes_payment : (payment_id : Text) → SagaCommand

-- The saga that a call leaves behind.
unfoldable pub call : SagaCommand → ℕ → CheckoutSaga → CheckoutSaga
call redeems now s = (redeem_promo now s).0
call (awaits payment_id) now s = (await_payment payment_id now s).0
call (begins_commit payment_id) now s = (begin_commit payment_id now s).0
call commits now s = (commit_stock now s).0
call captures now s = (capture_payment now s).0
call completes now s = (complete now s).0
call (records_error error) now s = record_error error now s
call (begins_compensation reason refund_id) now s = (begin_compensation reason refund_id now s).0
call (compensates step) now s = compensate step now s
call (fails_compensation error max_attempts) now s = fail_compensation error max_attempts now s
call resumes now s = (resume now s).0
call (changes_payment payment_id) now s = (change_payment payment_id now s).0

-- Where `BeginCommit` reports true, the saga was running with this very payment, and it is now
-- committing and not expired at any time.
pub begin_commit_guards :
    (payment_id : Text) (now : ℕ) (s : CheckoutSaga)
    → (begin_commit payment_id now s).1 ≡ true
    → (s.status ≡ running)
      × (s.payment_id ≡ payment_id)
      × (committing (begin_commit payment_id now s).0 ≡ true)
      × ((later : ℕ) → is_expired later (begin_commit payment_id now s).0 ≡ false)
unfolding begin_commit committing is_expired
begin_commit_guards payment_id now s e = (
  ground arith,
  ground (arith, text_eq_iff s.payment_id payment_id),
  ground arith,
  λ later. ground arith,
)

-- No call forgets that the payment was captured.
call-captured :
    (c : SagaCommand) (now : ℕ) (s : CheckoutSaga)
    → s.captured ≡ true
    → (call c now s).captured ≡ true
unfolding call redeem_promo await_payment begin_commit commit_stock capture_payment complete
    record_error begin_compensation compensate fail_compensation resume change_payment
call-captured redeems now s h = ground arith
call-captured (awaits payment_id) now s h = ground arith
call-captured (begins_commit payment_id) now s h = ground arith
call-captured commits now s h = ground arith
call-captured captures now s h = ground arith
call-captured completes now s h = ground arith
call-captured (records_error error) now s h = ground arith
call-captured (begins_compensation reason refund_id) now s h = ground arith
call-captured (compensates step) now s h = ground arith
call-captured (fails_compensation error max_attempts) now s h = ground arith
call-captured resumes now s h = ground arith
call-captured (changes_payment payment_id) now s h = ground arith

-- A history of calls, each at its time, failed ones included.
unfoldable pub run : List (ℕ × SagaCommand) → CheckoutSaga → CheckoutSaga
run [] s = s
run ((now, c) ∷ cs) s = run cs (call c now s)

run-captured :
    (cs : List (ℕ × SagaCommand)) (s : CheckoutSaga)
    → s.captured ≡ true
    → (run cs s).captured ≡ true
unfolding run
run-captured [] s h = h
run-captured ((now, c) ∷ cs) s h = run-captured cs (call c now s) (call-captured c now s h)

capture_payment-captured :
    (now : ℕ) (s : CheckoutSaga) → s.status ≡ running → (capture_payment now s).0.captured ≡ true
unfolding capture_payment
capture_payment-captured now s r = ground (arith, r)

plan-captured :
    (s : CheckoutSaga) → s.captured ≡ true → (rest : List Step) × (plan s ≡ refund_payment ∷ rest)
unfolding plan
plan-captured s h = (
  return_stock
      ∷ (if is_empty s.promo_code then close_order ∷ [] else release_promo ∷ close_order ∷ []),
  ground (arith, h),
)

-- Once a running saga has recorded the capture, every compensation plan after any further history of
-- calls begins with the refund.
pub captured_refunds :
    (now : ℕ) (s : CheckoutSaga) (cs : List (ℕ × SagaCommand))
    → s.status ≡ running
    → (rest : List Step) × (plan (run cs (capture_payment now s).0) ≡ refund_payment ∷ rest)
captured_refunds now s cs r =
    plan-captured (run cs (capture_payment now s).0)
      (run-captured cs (capture_payment now s).0 (capture_payment-captured now s r))

-- A doubling that stops at ten minutes.
abbrev pub doubling : ℕ → ℕ
doubling zero = 10 * second
doubling (suc k) = let before = doubling k in min (2 * before) (600 * second)

doubling-power : (k : ℕ) → doubling k ≡ min (10 * second * 2 ^ k) (600 * second)
doubling-power zero = refl
doubling-power (suc k) = let before = doubling-power k in ground (arith, before)

power_grows : (k m n : ℕ) → k + m ≡ n → 2 ^ k ≤ 2 ^ n
power_grows k zero n e = let same : k ≡ n = omega (arith, e) in rw same (omega arith)
power_grows k (suc m) zero e = absurd (omega (arith, e))
power_grows k (suc m) (suc n) e =
    let before = power_grows k m n (omega (arith, e)) in omega (arith, before)

shift_exact : (k : ℕ) → 2 ^ k ≤ 1024 → shift_left64 (10 * second) k ≡ pos (10 * second * 2 ^ k)
unfolding shift_left64
shift_exact k h = ground (arith, h)

shift_guarded :
    (k : ℕ)
    → min_ℤ (shift_left64 (10 * second) (min k 10)) (pos (600 * second))
      ≡ pos (min (10 * second * 2 ^ k) (600 * second))
shift_guarded k = elim (dec_le k 10) [
  | yes small ↦
      let fits : 2 ^ k ≤ 1024 = power_grows k (10 - k) 10 (omega (arith, small)) in
      let same : min k 10 ≡ k = ground (arith, small) in
      rw (same, shift_exact k fits) (ground arith)
  | no large ↦
      let grown : 1024 ≤ 2 ^ k = power_grows 10 (k - 10) k (omega (arith, large)) in
      let same : min k 10 ≡ 10 = ground (arith, large) in
      rw (same, shift_exact 10 (omega arith)) (ground (arith, grown))
]

-- The wait is nothing before the first failure, ten seconds after it, and after each further failure, however
-- many there are, twice the wait before it but at most ten minutes.
pub backoff-doubling :
    (k : ℕ) → (compensation_backoff 0 ≡ pos 0) × (compensation_backoff (suc k) ≡ pos (doubling k))
unfolding compensation_backoff
backoff-doubling k =
    let some_failures : (suc k == 0) ≡ false = ground arith in
    let shifts : suc k - 1 ≡ k = omega arith in
    (refl, rw (some_failures, shifts, doubling-power k, compensation_backoff) (shift_guarded k))
