-- ===== src/Consignment/Manager.antt =====
-- The event handlers of the consignment service (cmd/consignment-service/manager/event.go and
-- manager.go). Tracing and logging are left out.
pub mod Handlers
pub mod Publishing
pub mod Capture
pub mod Undo
pub mod Endings
mod Tests
use shippy.Prelude.{
  ℕ, ℤ, pos, ◌+ℤ◌, ◌-ℤ◌, to_int32, ltb_ℤ, leb_ℤ, ◌&&◌, String, Bool, true, false, Option, none,
  some, List, [], ◌∷◌, ◌++◌, ◌==◌, if◌then◌else◌, Result, ⊤, Exec, pure, raise, lift, on_error,
  with_text, ignore, ◌>>=◌, ◌>>◌,
}
use Prim.Native.String.{◌++◌ as ◌+++◌}
use shippy.Prelude.Decimal.{decimal}
use shippy.Prelude.Backoff.{Backoff}
use shippy.Prelude.Dict.{Dict}
use shippy.Events.{
  Timestamp, PaymentAuthorisedEvent, PaymentCapturedEvent, ReservationConfirmedEvent,
  ReservationExpiredEvent, ConsignmentConfirmationFailedEvent, Wire, payment_authorised_topic,
  payment_captured_topic, confirmation_failed_topic, reservation_expired_topic,
  reservation_confirmed_topic,
}
use shippy.Reservation.Manager.Handlers.{active_handlers}
use shippy.Consignment.{
  Consignment, ConsignmentUpdate, ConsignmentStore, PaymentClient, update_status, status_pending,
  status_confirmed, status_cancelled, status_confirmation_pending, ok,
}

abbrev pub backoff_attempts : ℕ
backoff_attempts = 3

abbrev pub max_retries : ℕ
max_retries = 3

-- The calls of the metrics: a duration is in nanoseconds.
pub data MetricCall : Type 0 where
  observe_saga_duration : ℤ → String → MetricCall
  inc_saga_total : String → MetricCall

-- What a `Manager` acts on.
pub record World (Store Payment : Type 0) : Type 0 where
  pub store : Store
  pub payment : Payment
  pub metrics : List MetricCall

-- `event.RetryCount++` on an `int32`
unfoldable pub count_retry : PaymentAuthorisedEvent → PaymentAuthorisedEvent
count_retry event = record event { retry_count = to_int32 (event.retry_count +ℤ pos 1) }

-- `fmt.Sprintf("%s-%d", …)`
unfoldable pub retry_key : PaymentAuthorisedEvent → String
retry_key event = event.consignment_id +++ ("-" +++ decimal event.retry_count)

-- The message that `publishCaptureFailedToDLQ` makes of an event.
unfoldable pub capture_failed : PaymentAuthorisedEvent → ConsignmentConfirmationFailedEvent
capture_failed event = record {
  consignment_id = event.consignment_id;
  reservation_id = "";
  vessel_id = "";
  payment_id = event.payment_id;
  weight = pos 0;
  containers = pos 0;
  cache_cleared = false;
  payment_captured = event.payment_captured;
  payment_auth_id = event.payment_auth_id;
  saga_started_at = event.saga_started_at;
}

-- The message that announces a captured payment.
unfoldable pub payment_event : PaymentAuthorisedEvent → PaymentCapturedEvent
payment_event event = record {
  reservation_info = some (record {
    id = event.reservation_id;
    vessel_id = event.vessel_id;
    consignment_id = "";
    number_of_containers = event.containers;
    weight = event.weight;
  });
  consignment_id = event.consignment_id;
  payment_id = event.payment_id;
  saga_started_at = event.saga_started_at;
}

unfoldable pub captured_update : PaymentAuthorisedEvent → ConsignmentUpdate
captured_update event = record {
  status = some status_confirmation_pending;
  payment_id = some event.payment_id;
}

-- The metrics of a saga that has ended; `now` is when `time.Since` reads the clock. The duration is left
-- as a difference of timestamps, which the source gives in seconds.
unfoldable pub saga_metrics : Timestamp → Option Timestamp → String → List MetricCall
saga_metrics now none outcome = inc_saga_total outcome ∷ []
saga_metrics now (some t) outcome =
    if leb_ℤ t (pos 0) && leb_ℤ (pos 0) t
    then inc_saga_total outcome ∷ []
    else observe_saga_duration (now -ℤ t) outcome ∷ inc_saga_total outcome ∷ []

module _ (wire : Wire) (store : ConsignmentStore wire.Bytes) (payment_cli : PaymentClient)
    (backoff : Backoff) where
  abbrev pub Manager : Type 0
  Manager = World store.State payment_cli.State

  abbrev pub on_store : {A : Type 0} → Exec store.State A → Exec Manager A
  on_store m w = ((m w.store).0, record w { store = (m w.store).1 })

  abbrev pub on_payment : {A : Type 0} → Exec payment_cli.State A → Exec Manager A
  on_payment m w = ((m w.payment).0, record w { payment = (m w.payment).1 })

  abbrev create_event : String → String → wire.Bytes → Exec store.State ⊤
  create_event topic key payload =
      store.create_event (record { topic = topic; key = key; payload = payload })

  unfoldable pub publish_capture_failed_to_dlq : PaymentAuthorisedEvent → Exec store.State ⊤
  publish_capture_failed_to_dlq event = do
    payload ←
        with_text "failed to marshal confirmation failed event"
          (lift (wire.confirmation_failed.marshal (capture_failed event)))
    create_event confirmation_failed_topic event.consignment_id payload

  -- The rest of `publishPaymentAuthorised`, for an event with retries left.
  unfoldable pub publish_retry : PaymentAuthorisedEvent → Exec store.State ⊤
  publish_retry event = do
    payload ← with_text "failed to marshal event" (lift (wire.payment_authorised.marshal event))
    with_text "failed to create outbox event"
        (create_event payment_authorised_topic (retry_key event) payload)

  unfoldable pub publish_payment_authorised : PaymentAuthorisedEvent → Exec store.State ⊤
  publish_payment_authorised event =
      if ltb_ℤ (pos max_retries) event.retry_count
      then publish_capture_failed_to_dlq event
      else publish_retry event

  unfoldable pub publish_payment_captured :
      String → String → PaymentCapturedEvent → Exec store.State ⊤
  publish_payment_captured topic key event = do
    payload ←
        with_text "failed to marshal payment captured event"
          (lift (wire.payment_captured.marshal event))
    create_event topic key payload

  -- The writes of the transaction.
  unfoldable pub record_writes : PaymentAuthorisedEvent → Exec store.State ⊤
  record_writes event =
      publish_payment_captured payment_captured_topic event.consignment_id (payment_event event)
      >> store.update event.consignment_id (captured_update event)

  -- `handlePaymentAuthorisedEvent` from `event.PaymentCaptured = true` on.
  unfoldable pub record_capture : PaymentAuthorisedEvent → Exec store.State ⊤
  record_capture event =
      on_error (store.with_transaction (record_writes event))
        (λ _.
          with_text "failed to schedule event retry"
            (publish_payment_authorised (count_retry event)))
        (λ _. pure tt)

  abbrev pub with_key : PaymentAuthorisedEvent → PaymentAuthorisedEvent
  with_key event = record event { idempotency_key = event.consignment_id }

  unfoldable pub payment_authorised : PaymentAuthorisedEvent → Exec Manager ⊤
  payment_authorised event =
      if event.payment_captured
      then on_store (record_capture event)
      else on_error
          (backoff.retry backoff_attempts
            (on_payment (payment_cli.capture event.payment_auth_id event.consignment_id)))
          (λ _.
            with_text "failed to schedule event retry"
              (on_store (publish_payment_authorised (count_retry (with_key event)))))
          (λ payment_id. on_store (
            record_capture
              (record (with_key event) { payment_id = payment_id; payment_captured = true })))

  -- The payment of a consignment that could not be confirmed; a failure is only logged.
  unfoldable pub undo_payment : ConsignmentConfirmationFailedEvent → Exec Manager ⊤
  undo_payment event =
      if event.payment_captured
      then ignore (
          backoff.retry backoff_attempts
            (on_payment (payment_cli.refund event.payment_id event.consignment_id)))
      else ignore
          (backoff.retry backoff_attempts (on_payment (payment_cli.void event.payment_auth_id)))

  abbrev pub set_status : String → String → String → Exec Manager ⊤
  set_status text id status = with_text text (on_store (update_status store id status))

  abbrev pub count : List MetricCall → Exec Manager ⊤
  count calls w = (ok tt, record w { metrics = w.metrics ++ calls })

  unfoldable pub failed_confirmation :
      Timestamp → ConsignmentConfirmationFailedEvent → Exec Manager ⊤
  failed_confirmation now event =
      undo_payment event
      >> set_status "failed to cancel consignment" event.consignment_id status_cancelled
      >> count (saga_metrics now event.saga_started_at "cancelled")

  -- A pending consignment that has a payment gets it back; a failure is only logged.
  unfoldable pub refund_expired : Consignment → Exec Manager ⊤
  refund_expired c =
      if c.payment_id == ""
      then pure tt
      else ignore
          (backoff.retry backoff_attempts (on_payment (payment_cli.refund c.payment_id c.id)))

  unfoldable pub cancel_expired : ReservationExpiredEvent → Consignment → Exec Manager ⊤
  cancel_expired event c =
      if c.status == status_pending
      then refund_expired c
        >> set_status "failed to cancel consignment" event.consignment_id status_cancelled
      else pure tt

  unfoldable pub expired_reservation : ReservationExpiredEvent → Exec Manager ⊤
  expired_reservation event =
      with_text "failed to get consignment" (on_store (store.get_by_id event.consignment_id))
      >>= cancel_expired event

  unfoldable pub reservation_confirmed : Timestamp → ReservationConfirmedEvent → Exec Manager ⊤
  reservation_confirmed now event =
      set_status "failed to confirm consignment" event.consignment_id status_confirmed
      >> count (saga_metrics now event.saga_started_at "confirmed")
