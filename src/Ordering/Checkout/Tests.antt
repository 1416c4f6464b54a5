-- ===== src/Ordering/Checkout/Tests.antt =====
-- Checkouts at concrete inputs. The outside is a counter of the calls, which is the clock too, and every
-- call succeeds.
use go_marketplace_backend.Base.{
  ℕ, ◌+◌, ◌≡◌, ◌≢◌, refl, true, false, List, [], ◌∷◌, Option, none, some, Result, ok, err, arith,
}
use go_marketplace_backend.Base.Int.{pos, add64}
use go_marketplace_backend.Base.Text.{is_blank, text_eq, trim_space, rune_count, matches_class}
use go_marketplace_backend.Kernel.Identifier.{
  parse_id, normalize_uuid, normalize_from, normal_byte, nil_uuid,
}
use go_marketplace_backend.Payment.Types
use go_marketplace_backend.Kernel.Quantity.{new_quantity}
use go_marketplace_backend.Kernel.Money.{
  new_money, new_currency, new_basis_points, apply_percent, zero_money, add, sub, mul_quantity,
  compare, equals,
}
use go_marketplace_backend.Pricing.Promo.{validate}
use go_marketplace_backend.Pricing.Rules.{new_rule, matches, is_applicable, rule_discount, kind_of}
use go_marketplace_backend.Pricing.Promotion.{is_running, rule}
use go_marketplace_backend.Pricing.Offer.{line_of}
use go_marketplace_backend.Pricing.Calculator.{
  calculate, price_lines, price_line, applicable, select_rules, sort_rules, insert_rule,
  apply_rules, apply_promo,
}
use go_marketplace_backend.Pricing.Quotes.{
  handle, validate_lines, distinct_skus, new_sku, read_lines, cart_lines, price_of, category_ids,
  read_rules, running_rules, read_promo, view,
}
use go_marketplace_backend.Shipping.{tariff_quote, add_costs}
use go_marketplace_backend.Ordering.Status.{
  cancellable, Status, can_transition_to, transitions, valid_actor,
}
use go_marketplace_backend.Ordering.Types.{Order}
use go_marketplace_backend.Ordering.Address.{new_address, within, drop_formatting, matches_phone}
use go_marketplace_backend.Ordering.Place.{
  place, validate_items, validate_item, check_prices, build_parts, collect_all, collect, add_item,
  must_add, ship, ship_all, add_parts, add_part,
}
use go_marketplace_backend.Ordering.Order
use go_marketplace_backend.Ordering.Saga
use go_marketplace_backend.Ordering.Saga.{
  committing, pending, plan, compensate, fail_compensation, begin_compensation, is_done, truncate,
  CheckoutSaga, SagaStatus, stock_reserved, start_saga, at_step, begin_commit,
}
use go_marketplace_backend.Ordering.Draft.{
  draft_order, unavailable, price, price_items, price_item, add_total, add_promo, shipping_costs,
}
use go_marketplace_backend.Ordering.Draft.Tests.{seller, placed, stored, doors, rates, where_to}
use go_marketplace_backend.Ordering.Checkout.{
  Fails, Dependencies, World, pure, fail, ◌>>=◌, ◌>>◌, attempt, call, read, lift, save_order,
  save_saga, load_saga, mutate_saga, mutate_both, internal,
}
use go_marketplace_backend.Ordering.Checkout.Prepare.{PlaceOrder, prepare}
use go_marketplace_backend.Ordering.Checkout.Progress.{
  Reasons, payment_authorized, advance, commit_reserved, capture_authorized, complete_paid,
}
use go_marketplace_backend.Ordering.Checkout.Purchase.{place_order, start, redeem_code, pay}
use go_marketplace_backend.Ordering.Checkout.Agreement.{Agree}
use go_marketplace_backend.Ordering.Checkout.Compensation.{
  run, rounds, abort, execute, record_step, settle_payment, return_reserved,
}
use go_marketplace_backend.Ordering.Checkout.Orders.{cancel_order}
use go_marketplace_backend.Ordering.Checkout.Actors.{actor_for}
use go_marketplace_backend.Ordering.Checkout.Loop.{Loop, run-Loop}
use go_marketplace_backend.Ordering.Checkout.Stores.{IsConsistent}
use go_marketplace_backend.Ordering.Checkout.Closing.{IsClosed, abort_closes}
use go_marketplace_backend.Ordering.Checkout.Completion.{abort_total, run_undoes}
use go_marketplace_backend.Ordering.Checkout.History.{
  Request, places, authorizes, cancels, fresh_world, serve_all, serve_all-Agree,
  serve_all-IsConsistent,
}

abbrev succeeds : ℕ → Result Fails (Unit {0}) × ℕ
succeeds n = (ok tt, n + 1)

abbrev counting : Dependencies ℕ
counting = record {
  policy = record { payment_timeout = 100; compensation_attempts = 3; return_window = 1000 };
  now = λ n. n + 10;
  reference = λ n. b'r' ∷ n ∷ [];
  return_url = λ id. [];
  render = λ e. [];
  reserve = λ r o ls n. (ok 0, n + 1);
  commit = λ r. succeeds;
  release = λ r. succeeds;
  restore = λ r. succeeds;
  redeem_code = λ c o b s k. succeeds;
  release_code = λ c o. succeeds;
  create = λ r n. (
    ok (record { payment_id = r.payment_id; status = Types.Status.pending; redirect_url = [] }),
    n + 1,
  );
  capture = λ p a. succeeds;
  cancel_payment = λ p r. succeeds;
  refund = λ p r a t. succeeds;
  info = λ p n.
      (ok (record { payment_id = p; status = Types.Status.authorized; redirect_url = [] }), n + 1);
  remove_ordered = λ u ss. succeeds;
  is_member = λ s u n. (ok true, n + 1);
}

abbrev unexplained : Reasons
unexplained = record {
  promo_rejected = [];
  payment_rejected = [];
  stock_invalid = [];
  capture_rejected = [];
  not_payable = [];
  superseded = [];
  timed_out = [];
  retry_aborted = [];
  cancelled_prefix = [];
}

abbrev purchase : PlaceOrder
purchase = record {
  actor = record { user_id = seller; roles = [] };
  address = where_to;
  delivery_method = [];
  method_id = [];
  save_method = false;
  expected_total = pos 590;
}

-- An order is placed, and its payment is authorized.
abbrev bought : List Request
bought =
    places (record doors { order_id = seller }) (handle (λ s. s) stored (pos 100) 8)
      (tariff_quote rates) purchase
    ∷ authorizes seller (b'r' ∷ 1 ∷ [])
    ∷ []

abbrev or_else : Option Order → Order → Order
or_else none o = o
or_else (some o) _ = o

-- What would be read of an order that is not stored.
abbrev no_order : Order
no_order = placed

abbrev after_purchase : Option Order
after_purchase =
    (serve_all counting unexplained (λ s. s) bought (fresh_world 0)).store.orders seller

abbrev bought_order : Order
bought_order = or_else after_purchase no_order

abbrev status_of : Option Order → Option Status
status_of none = none
status_of (some o) = some o.status

is_bought : status_of after_purchase ≡ some Status.paid
unfolding serve_all place_order start redeem_code pay prepare draft_order handle validate_lines
    distinct_skus new_sku trim_space text_eq matches_class read_lines cart_lines price_of
    category_ids new_quantity line_of read_rules running_rules is_running rule new_rule validate
    new_basis_points read_promo calculate zero_money new_money new_currency price_lines price_line
    mul_quantity applicable select_rules sort_rules insert_rule is_applicable matches apply_rules
    rule_discount apply_percent sub add kind_of apply_promo view unavailable price price_items
    price_item parse_id normalize_uuid normalize_from normal_byte add_total add_promo add64
    tariff_quote add_costs shipping_costs nil_uuid place new_address within drop_formatting
    matches_phone rune_count validate_items validate_item check_prices build_parts collect_all
    collect add_item must_add ship ship_all add_parts add_part compare equals start_saga at_step
    begin_commit pure fail ◌>>=◌ ◌>>◌ attempt call read lift save_order save_saga load_saga
    mutate_saga mutate_both payment_authorized advance commit_reserved capture_authorized
    complete_paid Order.await_payment Order.mark_paid Order.transition can_transition_to transitions
    valid_actor Saga.await_payment Saga.commit_stock Saga.capture_payment Saga.complete
is_bought = refl

stored_as : (x : Option Order) (s : Status) → status_of x ≡ some s → x ≡ some (or_else x no_order)
stored_as none s e = cc
stored_as (some o) s e = refl

serve_all-Agree_example :
    (s : CheckoutSaga) × ((serve_all counting unexplained
          (λ s. s)
          bought
          (fresh_world 0)).store.sagas
        seller
      ≡ some s)
    × Agree seller bought_order s
serve_all-Agree_example =
    serve_all-Agree counting unexplained (λ s. s) bought 0 seller bought_order
      (stored_as after_purchase Status.paid is_bought)

-- The stock cannot be given back: a cancelled order whose compensation is under way.
abbrev stuck : Dependencies ℕ
stuck = record counting { release = λ r n. (err (internal 1 ∷ []), n + 1) }

abbrev half_undone : World ℕ
half_undone =
    serve_all stuck unexplained (λ s. s)
      (places (record doors { order_id = seller }) (handle (λ s. s) stored (pos 100) 8)
          (tariff_quote rates) purchase
        ∷ cancels (record { user_id = seller; roles = [] }) seller (b'x' ∷ [])
        ∷ [])
      (fresh_world 0)

run-Loop_example : Loop counting seller half_undone (run counting 9 seller half_undone)
run-Loop_example =
    run-Loop counting 9 seller half_undone
      (serve_all-IsConsistent stuck unexplained (λ s. s) _ (fresh_world 0) (λ _. tt)) (omega arith)

-- A checkout that awaits its payment.
abbrev awaiting_world : World ℕ
awaiting_world =
    serve_all counting unexplained (λ s. s)
      (places (record doors { order_id = seller }) (handle (λ s. s) stored (pos 100) 8)
          (tariff_quote rates) purchase
        ∷ [])
      (fresh_world 0)

awaiting_world-IsConsistent : IsConsistent awaiting_world.store
awaiting_world-IsConsistent =
    serve_all-IsConsistent counting unexplained (λ s. s) _ (fresh_world 0) (λ _. tt)

saga_status : Option CheckoutSaga → Option SagaStatus
saga_status none = none
saga_status (some s) = some s.status

abbrev no_saga : CheckoutSaga
no_saga = record {
  order_id = [];
  buyer_id = [];
  reservation_id = [];
  payment_id = [];
  refund_id = [];
  promo_code = [];
  amount = placed.total;
  status = SagaStatus.manual;
  step = stock_reserved;
  captured = false;
  compensations = [];
  reason = [];
  last_error = [];
  attempts = 0;
  deadline = 0;
  created_at = 0;
  updated_at = 0;
  version = 0;
}

abbrev stored_saga : Option CheckoutSaga → CheckoutSaga
stored_saga none = no_saga
stored_saga (some s) = s

is_still_running : saga_status (awaiting_world.store.sagas seller) ≡ some SagaStatus.running
unfolding serve_all place_order start redeem_code pay prepare draft_order handle validate_lines
    distinct_skus new_sku trim_space text_eq matches_class read_lines cart_lines price_of
    category_ids new_quantity line_of read_rules running_rules is_running rule new_rule validate
    new_basis_points read_promo calculate zero_money new_money new_currency price_lines price_line
    mul_quantity applicable select_rules sort_rules insert_rule is_applicable matches apply_rules
    rule_discount apply_percent sub add kind_of apply_promo view unavailable price price_items
    price_item parse_id normalize_uuid normalize_from normal_byte add_total add_promo add64
    tariff_quote add_costs shipping_costs nil_uuid place new_address within drop_formatting
    matches_phone rune_count validate_items validate_item check_prices build_parts collect_all
    collect add_item must_add ship ship_all add_parts add_part compare equals start_saga at_step
    begin_commit pure fail ◌>>=◌ ◌>>◌ attempt call read lift save_order save_saga load_saga
    mutate_saga mutate_both payment_authorized advance commit_reserved capture_authorized
    complete_paid Order.await_payment Order.mark_paid Order.transition can_transition_to transitions
    valid_actor Saga.await_payment Saga.commit_stock Saga.capture_payment Saga.complete saga_status
is_still_running = refl

saga_as :
    (x : Option CheckoutSaga) (status : SagaStatus)
    → saga_status x ≡ some status
    → (x ≡ some (stored_saga x)) × ((stored_saga x).status ≡ status)
unfolding saga_status
saga_as none status e = cc
saga_as (some s) status e = (refl, ground (arith, e))

abbrev awaiting_saga : CheckoutSaga
awaiting_saga = stored_saga (awaiting_world.store.sagas seller)

awaiting_saga_stored :
    (awaiting_world.store.sagas seller ≡ some awaiting_saga)
    × (awaiting_saga.status ≡ SagaStatus.running)
awaiting_saga_stored =
    saga_as (awaiting_world.store.sagas seller) SagaStatus.running is_still_running

running_open :
    (s : CheckoutSaga)
    → s.status ≡ SagaStatus.running
    → (s.status ≢ SagaStatus.completed) × (s.status ≢ SagaStatus.manual)
running_open s e = (λ h. cc (e, h), λ h. cc (e, h))

-- The same outside, with one reference for all.
abbrev naming : Dependencies ℕ
naming = record counting { reference = λ n. b'r' ∷ [] }

is_named : (v : ℕ) → is_blank (naming.reference v) ≡ false
unfolding trim_space
is_named v = refl

aborts : (abort naming seller [] awaiting_world).0 ≡ ok tt
aborts =
    (abort_total naming (λ p v. (_, refl)) (λ p r v. (_, refl)) (λ p r n t v. (_, refl))
      (λ r v. (_, refl)) (λ c o v. (_, refl)) seller [] awaiting_world awaiting_saga is_named
      awaiting_world-IsConsistent awaiting_saga_stored.0
      (running_open awaiting_saga awaiting_saga_stored.1).0
      (running_open awaiting_saga awaiting_saga_stored.1).1).0

abort_total_example :
    ((abort naming seller [] awaiting_world).0 ≡ ok tt)
    × IsClosed seller (abort naming seller [] awaiting_world).1.store
abort_total_example =
    abort_total naming (λ p v. (_, refl)) (λ p r v. (_, refl)) (λ p r n t v. (_, refl))
      (λ r v. (_, refl)) (λ c o v. (_, refl)) seller [] awaiting_world awaiting_saga is_named
      awaiting_world-IsConsistent awaiting_saga_stored.0
      (running_open awaiting_saga awaiting_saga_stored.1).0
      (running_open awaiting_saga awaiting_saga_stored.1).1

abort_closes_example : IsClosed seller (abort naming seller [] awaiting_world).1.store
abort_closes_example =
    abort_closes naming seller [] awaiting_world awaiting_saga awaiting_world-IsConsistent
      awaiting_saga_stored.0 (running_open awaiting_saga awaiting_saga_stored.1).0
      (running_open awaiting_saga awaiting_saga_stored.1).1 aborts

half_undone-IsConsistent : IsConsistent half_undone.store
half_undone-IsConsistent =
    serve_all-IsConsistent stuck unexplained (λ s. s) _ (fresh_world 0) (λ _. tt)

is_compensating : saga_status (half_undone.store.sagas seller) ≡ some SagaStatus.compensating
unfolding serve_all place_order start redeem_code pay prepare draft_order handle validate_lines
    distinct_skus new_sku trim_space text_eq matches_class read_lines cart_lines price_of
    category_ids new_quantity line_of read_rules running_rules is_running rule new_rule validate
    new_basis_points read_promo calculate zero_money new_money new_currency price_lines price_line
    mul_quantity applicable select_rules sort_rules insert_rule is_applicable matches apply_rules
    rule_discount apply_percent sub add kind_of apply_promo view unavailable price price_items
    price_item parse_id normalize_uuid normalize_from normal_byte add_total add_promo add64
    tariff_quote add_costs shipping_costs nil_uuid place new_address within drop_formatting
    matches_phone rune_count validate_items validate_item check_prices build_parts collect_all
    collect add_item must_add ship ship_all add_parts add_part compare equals start_saga at_step
    begin_commit pure fail ◌>>=◌ ◌>>◌ attempt call read lift save_order save_saga load_saga
    mutate_saga mutate_both payment_authorized advance commit_reserved capture_authorized
    complete_paid Order.await_payment Order.mark_paid Order.transition can_transition_to transitions
    valid_actor Saga.await_payment Saga.commit_stock Saga.capture_payment Saga.complete saga_status
    cancel_order actor_for run execute record_step settle_payment return_reserved pending plan
    compensate fail_compensation begin_compensation Order.cancel is_done truncate committing
    cancellable
is_compensating = refl

abbrev half_undone_saga : CheckoutSaga
half_undone_saga = stored_saga (half_undone.store.sagas seller)

half_undone_saga_stored :
    (half_undone.store.sagas seller ≡ some half_undone_saga)
    × (half_undone_saga.status ≡ SagaStatus.compensating)
half_undone_saga_stored =
    saga_as (half_undone.store.sagas seller) SagaStatus.compensating is_compensating

run_undoes_example :
    ((run counting rounds seller half_undone).0 ≡ ok tt)
    × IsClosed seller (run counting rounds seller half_undone).1.store
run_undoes_example =
    run_undoes counting (λ p v. (_, refl)) (λ p r v. (_, refl)) (λ p r n t v. (_, refl))
      (λ r v. (_, refl)) (λ c o v. (_, refl)) seller half_undone half_undone_saga
      half_undone-IsConsistent half_undone_saga_stored.0 half_undone_saga_stored.1
