-- ===== src/Consignment/Manager/Undo.antt =====
-- The end of a consignment that could not be confirmed (handleFailedConfirmationEvent and
-- handleExpiredReservationEvent of cmd/consignment-service/manager/event.go).
use shippy.Prelude.{
  if◌then◌else◌, String, Bool, Bool-cases, true, false, none, some, ◌≡◌, ◌≢◌, refl, sym, subst,
  subst₂, List, ◌++◌, inl, inr, Result, ok, Result-cases, ⊤, Exec, suc, ◌>>◌,
}
use shippy.Prelude.Backoff.{Backoff, Attempts}
use shippy.Prelude.Keeps.{Keeps-retry}
use shippy.Events.{Timestamp, ConsignmentConfirmationFailedEvent, Wire}
use shippy.Consignment.{
  Consignment, ConsignmentUpdate, ConsignmentStore, PaymentClient, View, Written, find,
  status_cancelled, update_status,
}
use shippy.Consignment.Find.{find-set_one, find-set_other}
use shippy.Consignment.Manager.{
  set_status, count, MetricCall, Manager, backoff_attempts, on_payment, undo_payment,
  failed_confirmation, saga_metrics,
}

module _ (wire : Wire) (store : ConsignmentStore wire.Bytes) (payment_cli : PaymentClient)
    (backoff : Backoff) where
  abbrev World : Type 0
  World = Manager wire store payment_cli backoff

  abbrev Data : Type 0
  Data = View wire.Bytes

  -- The consignment with this id was there and has the new status; no other has changed, nor has
  -- the outbox.
  abbrev pub HasStatus : String → String → Data → Data → Type 0
  HasStatus id status v v' =
      ((c : Consignment) × (find id v.consignments ≡ some c)
        × (find id v'.consignments ≡ some (record c { status = status })))
      × ((j : String) → id ≢ j → find j v'.consignments ≡ find j v.consignments)
      × (v'.events ≡ v.events)

  abbrev status_only : String → ConsignmentUpdate
  status_only status = record { status = some status; payment_id = none }

  pub update_status-HasStatus :
      (id status : String) (s : store.State)
      → (update_status store id status s).0 ≡ ok tt
      → HasStatus id status (store.view s) (store.view (update_status store id status s).1)
  update_status-HasStatus id status s h =
      let v : Data = store.view s in
      let after : store.State = (update_status store id status s).1 in
      let ((c, there), wrote) =
        subst (Written id (status_only status) v (store.view after)) h
          (store.update_lem id (status_only status) s refl) in
      subst (HasStatus id status v) (sym wrote) (
        (c, there, find-set_one id (status_only status) v.consignments c there),
        λ j ne. find-set_other id j (status_only status) v.consignments ne,
        refl,
      )

  abbrev pub void_call : ConsignmentConfirmationFailedEvent → Exec World ⊤
  void_call e = on_payment wire store payment_cli backoff (payment_cli.void e.payment_auth_id)

  abbrev pub refund_call : ConsignmentConfirmationFailedEvent → Exec World ⊤
  refund_call e =
      on_payment wire store payment_cli backoff (payment_cli.refund e.payment_id e.consignment_id)

  abbrev undo_call : ConsignmentConfirmationFailedEvent → Exec World ⊤
  undo_call e = if e.payment_captured then refund_call e else void_call e

  undo_payment-call :
      (e : ConsignmentConfirmationFailedEvent) (w : World)
      → undo_payment wire store payment_cli backoff e w
        ≡ (ok tt, (backoff.retry backoff_attempts (undo_call e) w).1)
  unfolding undo_payment
  undo_payment-call e w = elim (Bool-cases e.payment_captured) [ inl p ↦ simp p | inr p ↦ simp p ]

  undo_call-keeps :
      (captured : Bool) (e : ConsignmentConfirmationFailedEvent) (w : World)
      → let w1 =
          (backoff.retry backoff_attempts (if captured then refund_call e else void_call e) w).1 in
        (w1.store ≡ w.store) × (w1.metrics ≡ w.metrics)
  undo_call-keeps true e w = (
    Keeps-retry (λ s. s.store ≡ w.store) backoff backoff_attempts (refund_call e) (λ s p. p) w refl,
    Keeps-retry (λ s. s.metrics ≡ w.metrics) backoff backoff_attempts (refund_call e) (λ s p. p) w
        refl,
  )
  undo_call-keeps false e w = (
    Keeps-retry (λ s. s.store ≡ w.store) backoff backoff_attempts (void_call e) (λ s p. p) w refl,
    Keeps-retry (λ s. s.metrics ≡ w.metrics) backoff backoff_attempts (void_call e) (λ s p. p) w
        refl,
  )

  pub set_status-HasStatus :
      (text id status : String) (w : World)
      → let r = set_status wire store payment_cli backoff text id status w in
        (r.1.payment ≡ w.payment)
        × (r.0 ≡ ok tt → HasStatus id status (store.view w.store) (store.view r.1.store))
  set_status-HasStatus text id status w =
      elim (Result-cases (update_status store id status w.store).0) [
        | inl (a, p) ↦ rw p (refl, λ _. update_status-HasStatus id status w.store p)
        | inr (x, p) ↦ rw p (refl, λ h. cc)
      ]

  -- A result that is reported as done has set the status and counted the end of the saga; any other
  -- has counted nothing.
  abbrev pub Finished :
      String → String → List MetricCall → store.State → List MetricCall → Result ⊤ → World → Type 0
  Finished id status calls s metrics r w' =
      (r ≡ ok tt
        → HasStatus id status (store.view s) (store.view w'.store)
          × (w'.metrics ≡ metrics ++ calls))
      × (r ≢ ok tt → w'.metrics ≡ metrics)

  pub finish-Finished :
      (text id status : String) (calls : List MetricCall) (w : World)
      → let r =
          (set_status wire store payment_cli backoff text id status
              >> count wire store payment_cli backoff calls)
            w in
        (r.1.payment ≡ w.payment) × Finished id status calls w.store w.metrics r.0 r.1
  finish-Finished text id status calls w =
      elim (Result-cases (update_status store id status w.store).0) [
        | inl (a, p) ↦ rw p (
          refl,
          ((λ _. (update_status-HasStatus id status w.store p, refl)), λ h. absurd (h refl)),
        )
        | inr (x, p) ↦ rw p (refl, ((λ h. cc), λ _. refl))
      ]

  -- A failed confirmation that is reported as done has cancelled its consignment, whatever the
  -- payment service answered and whatever status the consignment had, and is counted once; one that
  -- is not reported as done is not counted. The payment service saw one run of retries and nothing
  -- else: refunds of the payment, with the consignment as their key, where it was captured, and
  -- otherwise voids of its authorisation.
  pub failed_confirmation_cancels :
      (now : Timestamp) (e : ConsignmentConfirmationFailedEvent) (w : World)
      → let r = failed_confirmation wire store payment_cli backoff now e w in
        ((x : Result ⊤) × (u : World) × (r.1.payment ≡ u.payment)
          × Attempts
              (if e.payment_captured then refund_call e else void_call e)
              (suc backoff_attempts)
              w
              x
              u)
        × Finished e.consignment_id status_cancelled
            (saga_metrics now e.saga_started_at "cancelled")
            w.store
            w.metrics
            r.0
            r.1
  unfolding failed_confirmation
  failed_confirmation_cancels now e w =
      let call : Result ⊤ × World = backoff.retry backoff_attempts (undo_call e) w in
      let (same_store, same_metrics) = undo_call-keeps e.payment_captured e w in
      let calls : List MetricCall = saga_metrics now e.saga_started_at "cancelled" in
      let text : String = "failed to cancel consignment" in
      let (p, done) = finish-Finished text e.consignment_id status_cancelled calls call.1 in
      let r : Result ⊤ × World =
        (set_status wire store payment_cli backoff text e.consignment_id status_cancelled
            >> count wire store payment_cli backoff calls)
          call.1 in
      rw (undo_payment-call e w) (
        (call.0, call.1, p, backoff.attempts backoff_attempts (undo_call e) w),
        subst₂ (λ s m. Finished e.consignment_id status_cancelled calls s m r.0 r.1) same_store
            same_metrics done,
      )
