-- ===== src/Consignment/Manager/Endings.antt =====
-- The end of a saga by an expiry or by a confirmation (handleExpiredReservationEvent and
-- handleReservationConfirmedEvent of cmd/consignment-service/manager/event.go), and an authorised
-- payment that is delivered once more after it.
use shippy.Prelude.{
  String, Bool-cases, true, false, some, ◌≡◌, ◌≢◌, refl, ◌∙◌, sym, ap, subst, subst₂, inl, inr,
  Result, ok, ⊤, Exec, suc, ◌==◌, eq_iff,
}
use shippy.Prelude.Backoff.{Backoff, Attempts}
use shippy.Prelude.Keeps.{Keeps-retry}
use shippy.Events.{
  Timestamp, PaymentAuthorisedEvent, ReservationConfirmedEvent, ReservationExpiredEvent, Wire,
}
use shippy.Consignment.{
  Consignment, ConsignmentStore, PaymentClient, find, set_one, status_pending, status_confirmed,
  status_cancelled, status_confirmation_pending,
}
use shippy.Consignment.Find.{find-set_one}
use shippy.Consignment.Manager.{
  Manager, backoff_attempts, on_store, on_payment, set_status, saga_metrics, captured_update,
  record_capture, record_writes, payment_authorised, refund_expired, cancel_expired,
  expired_reservation, reservation_confirmed,
}
use shippy.Consignment.Manager.Undo.{HasStatus, Finished, finish-Finished, set_status-HasStatus}
use shippy.Consignment.Manager.Capture.{
  captured_with, capture_call, capture_call-store, record_capture-Recorded,
}

module _ (wire : Wire) (store : ConsignmentStore wire.Bytes) (payment_cli : PaymentClient)
    (backoff : Backoff) where
  abbrev World : Type 0
  World = Manager wire store payment_cli backoff

  abbrev refund_call : Consignment → Exec World ⊤
  refund_call c = on_payment wire store payment_cli backoff (payment_cli.refund c.payment_id c.id)

  -- The payment after the refund of an expired consignment.
  abbrev pub Refunded : Consignment → World → payment_cli.State → Type 0
  Refunded c w payment =
      (c.payment_id ≡ "" → payment ≡ w.payment)
      × (c.payment_id ≢ ""
          → (x : Result ⊤) × (u : World) × (payment ≡ u.payment)
            × Attempts (refund_call c) (suc backoff_attempts) w x u)

  refund_expired-Refunded :
      (c : Consignment) (w : World)
      → let r = refund_expired wire store payment_cli backoff c w in
        (r.0 ≡ ok tt) × (r.1.store ≡ w.store) × Refunded c w r.1.payment
  unfolding refund_expired
  refund_expired-Refunded c w = elim (Bool-cases (c.payment_id == "")) [
    | inl p ↦ simp p (refl, refl, ((λ _. refl), λ h. absurd (h ((eq_iff c.payment_id "").0 p))))
    | inr p ↦
        let call : Result ⊤ × World = backoff.retry backoff_attempts (refund_call c) w in
        simp p (
          refl,
          Keeps-retry (λ s. s.store ≡ w.store) backoff backoff_attempts (refund_call c) (λ s q. q) w
              refl,
          (
            (λ h. let t = (eq_iff c.payment_id "").1 h in cc),
            λ h. (call.0, call.1, refl, backoff.attempts backoff_attempts (refund_call c) w),
          ),
        )
  ]

  -- A confirmed reservation confirms its consignment, whatever status that had, and is counted once
  -- where it is reported as done. The payment service is not called.
  pub confirmation_finishes :
      (now : Timestamp) (e : ReservationConfirmedEvent) (w : World)
      → let r = reservation_confirmed wire store payment_cli backoff now e w in
        (r.1.payment ≡ w.payment)
        × Finished wire store payment_cli backoff e.consignment_id status_confirmed
            (saga_metrics now e.saga_started_at "confirmed")
            w.store
            w.metrics
            r.0
            r.1
  unfolding reservation_confirmed
  confirmation_finishes now e w =
      finish-Finished wire store payment_cli backoff "failed to confirm consignment"
        e.consignment_id status_confirmed (saga_metrics now e.saga_started_at "confirmed") w

  abbrev handle : PaymentAuthorisedEvent → Exec World ⊤
  handle = payment_authorised wire store payment_cli backoff

  handle-captured :
      (a : PaymentAuthorisedEvent) (w : World) (payment_id : String)
      → a.payment_captured ≡ false
      → (capture_call wire store payment_cli backoff a w).0 ≡ ok payment_id
      → handle a w
        ≡ on_store wire store payment_cli backoff
            (record_capture wire store payment_cli backoff
              (captured_with wire store payment_cli backoff a payment_id))
            (capture_call wire store payment_cli backoff a w).1
  unfolding payment_authorised
  handle-captured a w payment_id fresh captured = simp (fresh, captured)

  -- Let a confirmation be reported as done, and the authorised payment of the same consignment be
  -- delivered again, with a capture that answers and a transaction that commits. Then the consignment
  -- waits for its confirmation again, though it was confirmed.
  pub redelivery_reopens :
      (now : Timestamp) (e : ReservationConfirmedEvent) (a : PaymentAuthorisedEvent) (w : World)
      (payment_id : String)
      → a.consignment_id ≡ e.consignment_id
      → a.payment_captured ≡ false
      → (reservation_confirmed wire store payment_cli backoff now e w).0 ≡ ok tt
      → let w1 = (reservation_confirmed wire store payment_cli backoff now e w).1 in
        let w2 = (capture_call wire store payment_cli backoff a w1).1 in
        (capture_call wire store payment_cli backoff a w1).0 ≡ ok payment_id
        → (store.with_transaction
            (record_writes wire store payment_cli backoff
              (captured_with wire store payment_cli backoff a payment_id))
            w2.store).0
          ≡ ok tt
        → (c : Consignment) × (find e.consignment_id (store.view w1.store).consignments
            ≡ some (record c { status = status_confirmed }))
          × (find e.consignment_id (store.view (handle a w1).1.store).consignments
              ≡ some (record c { status = status_confirmation_pending; payment_id = payment_id }))
  unfolding captured_update
  redelivery_reopens now e a w payment_id same fresh confirmed captured committed =
      let e' : PaymentAuthorisedEvent = captured_with wire store payment_cli backoff a payment_id in
      let w1 : World = (reservation_confirmed wire store payment_cli backoff now e w).1 in
      let w2 : World = (capture_call wire store payment_cli backoff a w1).1 in
      let w3 : store.State = (record_capture wire store payment_cli backoff e' w2.store).1 in
      let (_, (finished, _)) = confirmation_finishes now e w in
      let (((c, there, done), _, _), _) = finished confirmed in
      let (_, _, after) =
        record_capture-Recorded wire store payment_cli backoff e' w2.store committed in
      let after' : (store.view w3).consignments
          ≡ set_one e.consignment_id (captured_update e') (store.view w1.store).consignments =
        subst₂
          (λ id s.
            (store.view w3).consignments
            ≡ set_one id (captured_update e') (store.view s).consignments)
          same (capture_call-store wire store payment_cli backoff a w1) after in
      rw (handle-captured a w1 payment_id fresh captured) (
        c,
        done,
        ap (find e.consignment_id) after'
            ∙ find-set_one e.consignment_id (captured_update e') (store.view w1.store).consignments
                (record c { status = status_confirmed }) done,
      )

  cancel_expired-pending :
      (e : ReservationExpiredEvent) (c : Consignment) (w : World)
      → c.status ≡ status_pending
      → let r = cancel_expired wire store payment_cli backoff e c w in
        (r.0 ≡ ok tt
          → HasStatus wire store payment_cli backoff e.consignment_id status_cancelled
              (store.view w.store)
              (store.view r.1.store))
        × Refunded c w r.1.payment
  unfolding cancel_expired
  cancel_expired-pending e c w pending =
      let (done, same, refunded) = refund_expired-Refunded c w in
      let w1 : World = (refund_expired wire store payment_cli backoff c w).1 in
      let (p, q) =
        set_status-HasStatus wire store payment_cli backoff "failed to cancel consignment"
          e.consignment_id status_cancelled w1 in
      let is_pending : (c.status == status_pending) ≡ true =
        (eq_iff c.status status_pending).1 pending in
      let text : String = "failed to cancel consignment" in
      let r : Result ⊤ × World =
        set_status wire store payment_cli backoff text e.consignment_id status_cancelled w1 in
      let steps : cancel_expired wire store payment_cli backoff e c w ≡ r =
        simp (is_pending, done) in
      rw steps (
        (λ h.
            subst
              (λ s.
                HasStatus wire store payment_cli backoff e.consignment_id status_cancelled
                  (store.view s) (store.view r.1.store))
              same (q h)),
        subst (λ x. Refunded c w x) (sym p) refunded,
      )

  cancel_expired-other :
      (e : ReservationExpiredEvent) (c : Consignment) (w : World)
      → c.status ≢ status_pending
      → cancel_expired wire store payment_cli backoff e c w ≡ (ok tt, w)
  unfolding cancel_expired
  cancel_expired-other e c w other = elim (Bool-cases (c.status == status_pending)) [
    | inl p ↦ absurd (other ((eq_iff c.status status_pending).0 p))
    | inr p ↦ simp p
  ]

  -- The expiry of a reservation, for the consignment `c` that the database has for it. One that is
  -- not pending keeps its data and its payment, and the event is done. A pending one is cancelled if
  -- the event is reported as done; a payment it has was given back by one run of retries, with the
  -- consignment's id as their key, and without a payment the payment service is not called.
  pub expiry_cancels_pending :
      (e : ReservationExpiredEvent) (w : World) (c : Consignment)
      → (store.get_by_id e.consignment_id w.store).0 ≡ ok c
      → let w1 : World = record w { store = (store.get_by_id e.consignment_id w.store).1 } in
        let r = expired_reservation wire store payment_cli backoff e w in
        (c.status ≢ status_pending
          → (r.0 ≡ ok tt) × (r.1.payment ≡ w.payment) × (store.view r.1.store ≡ store.view w.store))
        × (c.status ≡ status_pending
            → (r.0 ≡ ok tt
                → HasStatus wire store payment_cli backoff e.consignment_id status_cancelled
                    (store.view w.store)
                    (store.view r.1.store))
              × Refunded c w1 r.1.payment)
  unfolding expired_reservation
  expiry_cancels_pending e w c found =
      let w1 : World = record w { store = (store.get_by_id e.consignment_id w.store).1 } in
      let (same, _) = store.get_by_id_lem e.consignment_id w.store in
      rw found (
        (λ other. rw (cancel_expired-other e c w1 other) (refl, refl, same)),
        λ pending.
            let (q, p) = cancel_expired-pending e c w1 pending in
            (
              (λ h.
                  subst
                    (λ v.
                      HasStatus wire store payment_cli backoff e.consignment_id status_cancelled v
                        (store.view (cancel_expired wire store payment_cli backoff e c w1).1.store))
                    same (q h)),
              p,
            ),
      )
