-- ===== src/Consignment/Manager/Tests.antt =====
-- Runs of the consignment service's manager, and its theorems at concrete events.
use shippy.Prelude.{
  ℕ, pos, true, false, none, some, ◌≡◌, ◌≢◌, refl, [], ◌∷◌, Result, ok, err, errorf, ⊤,
}
use shippy.Prelude.Backoff.{Attempts}
use shippy.Events.{
  PaymentAuthorisedEvent, ConsignmentConfirmationFailedEvent, ReservationExpiredEvent,
  ReservationConfirmedEvent,
}
use shippy.Testing.{wire, backoff, retry_loop}
use shippy.Consignment.{
  Consignment, find, set_one, status_pending, status_confirmed, status_cancelled,
  status_confirmation_pending,
}
use shippy.Consignment.Manager.{
  Manager, count_retry, with_key, payment_authorised, record_capture, record_writes,
  publish_payment_captured, captured_update, failed_confirmation, saga_metrics, expired_reservation,
  reservation_confirmed,
}
use shippy.Consignment.Memory.{store, payment_cli}
use shippy.Consignment.Manager.Publishing.{Retried}
use shippy.Consignment.Manager.Capture.{
  Kept, captured_with, capture_call, captured_payment_survives, failed_capture_tries_again,
}
use shippy.Consignment.Manager.Undo.{HasStatus, Finished, failed_confirmation_cancels, refund_call}
use shippy.Consignment.Manager.Endings.{Refunded, redelivery_reopens, expiry_cancels_pending}

abbrev consignment : Consignment
consignment = record {
  id = "c1";
  weight = pos 40;
  description = "tea";
  containers = [];
  vessel_id = "v1";
  reservation_id = "r1";
  status = status_pending;
  payment_id = "";
}

abbrev Service : Type 0
Service = Manager wire store payment_cli backoff

-- A service with one pending consignment, whose payment service fails so many times.
abbrev service : ℕ → Service
service failures = record {
  store = record { up = true; docs = record { consignments = consignment ∷ []; events = [] } };
  payment = record { failures = failures; calls = [] };
  metrics = [];
}

abbrev authorised : PaymentAuthorisedEvent
authorised = record {
  consignment_id = "c1";
  reservation_id = "r1";
  vessel_id = "v1";
  payment_auth_id = "a1";
  idempotency_key = "";
  weight = pos 40;
  containers = pos 4;
  retry_count = pos 0;
  cache_cleared = false;
  payment_captured = false;
  payment_id = "";
  saga_started_at = none;
}

-- Three failures of a capture are retried at once; the consignment then waits for its confirmation.
capture_after_three :
    find "c1"
      (payment_authorised wire store payment_cli backoff authorised
        (service 3)).1.store.docs.consignments
    ≡ some (record consignment { status = status_confirmation_pending; payment_id = "a1" })
unfolding payment_authorised record_capture record_writes publish_payment_captured captured_update
    find set_one retry_loop
capture_after_three = refl

four_failures :
    (capture_call wire store payment_cli backoff authorised (service 4)).0
    ≡ err (errorf "unavailable")
unfolding retry_loop
four_failures = refl

captures : (capture_call wire store payment_cli backoff authorised (service 3)).0 ≡ ok "a1"
unfolding retry_loop
captures = refl

captured_payment_survives_example :
    let r : Result ⊤ × Service =
      payment_authorised wire store payment_cli backoff authorised (service 3) in
    (r.1.payment ≡ (capture_call wire store payment_cli backoff authorised (service 3)).1.payment)
    × Kept wire store payment_cli backoff
        (captured_with wire store payment_cli backoff authorised "a1")
        (service 3).store.docs
        r.1.store.docs
        r.0
captured_payment_survives_example =
    captured_payment_survives wire store payment_cli backoff authorised (service 3) "a1" refl
      captures

failed_capture_tries_again_example :
    let r : Result ⊤ × Service =
      payment_authorised wire store payment_cli backoff authorised (service 4) in
    let e' : PaymentAuthorisedEvent =
      count_retry (with_key wire store payment_cli backoff authorised) in
    (r.1.payment ≡ (capture_call wire store payment_cli backoff authorised (service 4)).1.payment)
    × (r.1.store.docs.consignments ≡ (service 4).store.docs.consignments)
    × (r.0 ≡ ok tt
        → Retried wire store payment_cli backoff e' (service 4).store.docs r.1.store.docs)
failed_capture_tries_again_example =
    failed_capture_tries_again wire store payment_cli backoff authorised (service 4)
      (errorf "unavailable") refl four_failures

abbrev failed : ConsignmentConfirmationFailedEvent
failed = record {
  consignment_id = "c1";
  reservation_id = "r1";
  vessel_id = "v1";
  payment_id = "a1";
  weight = pos 40;
  containers = pos 4;
  cache_cleared = true;
  payment_captured = true;
  payment_auth_id = "";
  saga_started_at = none;
}

failed_confirmation_cancels_example :
    let r : Result ⊤ × Service =
      failed_confirmation wire store payment_cli backoff (pos 9) failed (service 1) in
    ((x : Result ⊤) × (u : Service) × (r.1.payment ≡ u.payment)
      × Attempts (refund_call wire store payment_cli backoff failed) 4 (service 1) x u)
    × Finished wire store payment_cli backoff "c1" status_cancelled
        (saga_metrics (pos 9) none "cancelled")
        (service 1).store
        []
        r.0
        r.1
failed_confirmation_cancels_example =
    failed_confirmation_cancels wire store payment_cli backoff (pos 9) failed (service 1)

abbrev expired : ReservationExpiredEvent
expired = record {
  reservation_id = "r1";
  vessel_id = "v1";
  consignment_id = "c1";
  weight = pos 40;
  containers = pos 4;
}

expiry_cancels_pending_example :
    let r : Result ⊤ × Service =
      expired_reservation wire store payment_cli backoff expired (service 0) in
    (status_pending ≢ status_pending
      → (r.0 ≡ ok tt)
        × (r.1.payment ≡ (service 0).payment)
        × (r.1.store.docs ≡ (service 0).store.docs))
    × (status_pending ≡ status_pending
        → (r.0 ≡ ok tt
            → HasStatus wire store payment_cli backoff "c1" status_cancelled
                (service 0).store.docs
                r.1.store.docs)
          × Refunded wire store payment_cli backoff consignment (service 0) r.1.payment)
unfolding find
expiry_cancels_pending_example =
    expiry_cancels_pending wire store payment_cli backoff expired (service 0) consignment refl

abbrev confirmed : ReservationConfirmedEvent
confirmed = record { reservation_id = "r1"; consignment_id = "c1"; saga_started_at = none }

redelivery_reopens_example :
    let w1 : Service =
      (reservation_confirmed wire store payment_cli backoff (pos 9) confirmed (service 0)).1 in
    (c : Consignment) × (find "c1" w1.store.docs.consignments
      ≡ some (record c { status = status_confirmed }))
    × (find "c1"
          (payment_authorised wire store payment_cli backoff authorised
            w1).1.store.docs.consignments
        ≡ some (record c { status = status_confirmation_pending; payment_id = "a1" }))
unfolding reservation_confirmed record_writes publish_payment_captured captured_update find set_one
    retry_loop
redelivery_reopens_example =
    redelivery_reopens wire store payment_cli backoff (pos 9) confirmed authorised (service 0) "a1"
      refl refl refl refl refl
