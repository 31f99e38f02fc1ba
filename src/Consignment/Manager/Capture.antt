-- ===== src/Consignment/Manager/Capture.antt =====
-- The capture of an authorised payment (handlePaymentAuthorisedEvent of
-- cmd/consignment-service/manager/event.go).
use shippy.Prelude.{
  String, true, false, ◌≡◌, refl, subst, ◌⊎◌, inl, inr, Result, ok, err, Error, Result-cases, ⊤,
  Exec, with_text, with_text-state, with_text-ok,
}
use shippy.Prelude.Backoff.{Backoff}
use shippy.Prelude.Keeps.{Keeps-retry}
use shippy.Events.{PaymentAuthorisedEvent, Wire}
use shippy.Consignment.{ConsignmentStore, PaymentClient}
use shippy.Consignment.Manager.{
  Manager, backoff_attempts, count_retry, with_key, on_store, on_payment, record_writes,
  record_capture, payment_authorised, publish_payment_authorised,
}
use shippy.Consignment.Manager.Publishing.{
  publish_authorised-Retried, Data, Retried, Recorded, retried, Transaction-Recorded,
}

module _ (wire : Wire) (store : ConsignmentStore wire.Bytes) (payment_cli : PaymentClient)
    (backoff : Backoff) where
  abbrev World : Type 0
  World = Manager wire store payment_cli backoff

  abbrev data_of : World → Data wire store payment_cli backoff
  data_of w = store.view w.store

  -- With `u` the data after the transaction, which wrote all or nothing: a success has recorded the
  -- payment, or has scheduled the event once more.
  abbrev pub Kept :
      PaymentAuthorisedEvent
      → Data wire store payment_cli backoff
      → Data wire store payment_cli backoff
      → Result ⊤
      → Type 0
  Kept e v v' r =
      (u : Data wire store payment_cli backoff) × ((u ≡ v)
        ⊎ Recorded wire store payment_cli backoff e v u)
      × (v'.consignments ≡ u.consignments)
      × (r ≡ ok tt
          → Recorded wire store payment_cli backoff e v v'
            ⊎ Retried wire store payment_cli backoff (count_retry e) u v')

  record_capture-Kept :
      (e : PaymentAuthorisedEvent) (s : store.State)
      → let r = record_capture wire store payment_cli backoff e s in
        Kept e (store.view s) (store.view r.1) r.0
  unfolding record_capture
  record_capture-Kept e s =
      let fn : Exec store.State ⊤ = record_writes wire store payment_cli backoff e in
      let t : store.State = (store.with_transaction fn s).1 in
      let (either, sure) =
        Transaction-Recorded wire store payment_cli backoff e (store.transaction fn s) in
      elim (Result-cases (store.with_transaction fn s).0) [
        | inl (a, p) ↦
            let q : Recorded wire store payment_cli backoff e (store.view s) (store.view t) =
              sure p in
            rw p (store.view t, inr q, refl, λ _. inl q)
        | inr (x, p) ↦
            let (c, q) = retried wire store payment_cli backoff (count_retry e) t in
            rw p (store.view t, either, c, λ h. inr (q h))
      ]

  pub record_capture-Recorded :
      (e : PaymentAuthorisedEvent) (s : store.State)
      → (store.with_transaction (record_writes wire store payment_cli backoff e) s).0 ≡ ok tt
      → Recorded wire store payment_cli backoff e
          (store.view s)
          (store.view (record_capture wire store payment_cli backoff e s).1)
  unfolding record_capture
  record_capture-Recorded e s h =
      let fn : Exec store.State ⊤ = record_writes wire store payment_cli backoff e in
      let (either, sure) =
        Transaction-Recorded wire store payment_cli backoff e (store.transaction fn s) in
      rw h (sure h)

  abbrev pub captured_with : PaymentAuthorisedEvent → String → PaymentAuthorisedEvent
  captured_with e payment_id = record (with_key wire store payment_cli backoff e) {
    payment_id = payment_id;
    payment_captured = true;
  }

  abbrev pub capture_call : PaymentAuthorisedEvent → Exec World String
  capture_call e = backoff.retry backoff_attempts (
      on_payment wire store payment_cli backoff
        (payment_cli.capture e.payment_auth_id e.consignment_id))

  pub capture_call-store :
      (e : PaymentAuthorisedEvent) (w : World) → (capture_call e w).1.store ≡ w.store
  capture_call-store e w = Keeps-retry (λ s. s.store ≡ w.store) backoff _ _ (λ s p. p) w refl

  abbrev handle : PaymentAuthorisedEvent → Exec World ⊤
  handle = payment_authorised wire store payment_cli backoff

  -- Once the payment service has captured a payment, it is not forgotten. Whatever the handler
  -- returns, the consignment is updated only together with the announcement of the payment in the
  -- outbox; and if the handler reports the event as done, the payment is recorded so, or an event
  -- that carries its id is in the outbox: the authorised event with one more retry, or after the
  -- last one the failed event. In each case a pending row of the same topic and key may stand for
  -- the new one. The payment service is called no further.
  pub captured_payment_survives :
      (e : PaymentAuthorisedEvent) (w : World) (payment_id : String)
      → e.payment_captured ≡ false
      → (capture_call e w).0 ≡ ok payment_id
      → let r = handle e w in
        (r.1.payment ≡ (capture_call e w).1.payment)
        × Kept (captured_with e payment_id) (data_of w) (data_of r.1) r.0
  unfolding payment_authorised
  captured_payment_survives e w payment_id fresh captured =
      let q = record_capture-Kept (captured_with e payment_id) (capture_call e w).1.store in
      let e' : PaymentAuthorisedEvent = captured_with e payment_id in
      let t : Result ⊤ × store.State =
        record_capture wire store payment_cli backoff e' (capture_call e w).1.store in
      simp (fresh, captured)
        (refl, subst (λ s. Kept e' (store.view s) (store.view t.1) t.0) (capture_call-store e w) q)

  -- An event whose payment has been captured calls the payment service no more, and is recorded or
  -- scheduled again as it is.
  pub captured_event_captures_no_more :
      (e : PaymentAuthorisedEvent) (w : World)
      → e.payment_captured ≡ true
      → let r = handle e w in
        (r.1.payment ≡ w.payment) × (r.1.metrics ≡ w.metrics) × Kept e (data_of w) (data_of r.1) r.0
  unfolding payment_authorised
  captured_event_captures_no_more e w captured =
      simp captured (refl, refl, record_capture-Kept e w.store)

  schedule : PaymentAuthorisedEvent → Exec World ⊤
  schedule e = with_text "failed to schedule event retry" (
      on_store wire store payment_cli backoff (
        publish_payment_authorised wire store payment_cli backoff
          (count_retry (with_key wire store payment_cli backoff e))))

  handle-failed :
      (e : PaymentAuthorisedEvent) (w : World) (x : Error)
      → e.payment_captured ≡ false
      → (capture_call e w).0 ≡ err x
      → handle e w ≡ schedule e (capture_call e w).1
  unfolding payment_authorised schedule
  handle-failed e w x fresh failed = simp (fresh, failed)

  -- A capture that fails, retries included, leaves the consignments as they are. If the event is
  -- reported as done, it is scheduled with its retry counted, or after the last retry as a failed
  -- event: that message is a new row of the outbox, or the outbox is as it was since a row of its topic
  -- and key, whose payload may be another, is pending.
  pub failed_capture_tries_again :
      (e : PaymentAuthorisedEvent) (w : World) (x : Error)
      → e.payment_captured ≡ false
      → (capture_call e w).0 ≡ err x
      → let r = handle e w in
        let e' = count_retry (with_key wire store payment_cli backoff e) in
        (r.1.payment ≡ (capture_call e w).1.payment)
        × ((data_of r.1).consignments ≡ (data_of w).consignments)
        × (r.0 ≡ ok tt → Retried wire store payment_cli backoff e' (data_of w) (data_of r.1))
  unfolding schedule
  failed_capture_tries_again e w x fresh failed =
      let text : String = "failed to schedule event retry" in
      let e' : PaymentAuthorisedEvent = count_retry (with_key wire store payment_cli backoff e) in
      let w1 : World = (capture_call e w).1 in
      let m : Exec World ⊤ =
        on_store wire store payment_cli backoff
          (publish_payment_authorised wire store payment_cli backoff e') in
      let (c, q) = publish_authorised-Retried wire store payment_cli backoff e' w1.store in
      let same : w1.store ≡ w.store = capture_call-store e w in
      rw (handle-failed e w x fresh failed) (
        rw (with_text-state text m w1) (
          refl,
          subst (λ s. (data_of (m w1).1).consignments ≡ (store.view s).consignments) same c,
          λ h.
              subst
                (λ s. Retried wire store payment_cli backoff e' (store.view s) (data_of (m w1).1))
                same (q (with_text-ok text m w1 tt h)),
        ))
