-- ===== src/Saga.antt =====
-- The steps of the saga that cross from one service to the other: what one manager writes to its outbox,
-- handled by the other (cmd/consignment-service/manager and cmd/reservation-service/manager).
mod Tests
use shippy.Prelude.{
  suc, String, Bool, true, Option, none, some, ◌≡◌, ◌≢◌, refl, sym, ap, ◌⊎◌, List, [], ◌∷◌, ◌++◌,
  Result, ok, err, ⊤, Exec, with_text, lift, ◌>>=◌,
}
use shippy.Prelude.Backoff.{Backoff, Attempts}
use shippy.Prelude.Dict.{lookup}
use shippy.Events.{Timestamp, Wire, CapacityEvent, confirm_action, confirmation_failed_topic}
use shippy.Outbox.{OutboxEvent, OutboxRepository, IsPending}
use shippy.Consignment.{ConsignmentStore, PaymentClient, status_cancelled}
use shippy.Consignment.Manager.{backoff_attempts, on_payment, failed_confirmation, saga_metrics}
use shippy.Consignment.Manager as Consignments
use shippy.Consignment.Manager.Handlers.{
  handle_failed_confirmation_event, event_handlers as consignment_handlers,
}
use shippy.Consignment.Manager.Undo.{Finished, failed_confirmation_cancels}
use shippy.Reservation.{ReservationCache, VesselClient}
use shippy.Reservation.Manager.{process_capacity_event, confirmation_failed}
use shippy.Reservation.Manager as Reservations
use shippy.Reservation.Manager.Handlers.{
  failed_capacity, release_of_failed, event_handlers as reservation_handlers,
}
use shippy.Reservation.Manager.Outcomes.{failed_confirmation_is_announced}

-- The message is a new row, or one of its topic and key is pending.
abbrev pub IsQueued :
    {Bytes : Type 0}
    → String
    → String
    → Bytes
    → List (OutboxEvent Bytes)
    → List (OutboxEvent Bytes)
    → Type 0
IsQueued topic key payload before after =
    (after ≡ before ++ record { topic = topic; key = key; payload = payload } ∷ [])
    ⊎ ((after ≡ before) × IsPending topic key before)

module _ (wire : Wire) (store : ConsignmentStore wire.Bytes) (payment_cli : PaymentClient)
    (backoff : Backoff) (cache : ReservationCache) (outbox : OutboxRepository wire.Bytes)
    (vessel_cli : VesselClient) where
  abbrev pub Consignment : Type 0
  Consignment = Consignments.Manager wire store payment_cli backoff

  abbrev pub Reservation : Type 0
  Reservation = Reservations.Manager wire cache outbox vessel_cli backoff

  abbrev process : CapacityEvent → Exec Reservation ⊤
  process = process_capacity_event wire cache outbox vessel_cli backoff

  -- The refunds of the payment of an event by the consignment service, and the end of the saga.
  abbrev pub Refunded : Timestamp → CapacityEvent → Consignment → Result ⊤ → Consignment → Type 0
  Refunded now e w r w' =
      ((x : Result ⊤) × (u : Consignment) × (w'.payment ≡ u.payment)
        × Attempts
            (on_payment wire store payment_cli backoff
              (payment_cli.refund e.payment_id e.consignment_id))
            (suc backoff_attempts) w x u)
      × Finished wire store payment_cli backoff e.consignment_id status_cancelled
          (saga_metrics now e.saga_started_at "cancelled") w.store w.metrics r w'

  -- A confirmation that the reservation service gives up reaches the consignment service: where the
  -- handler of the failed event reports it as done, there is a message, for which the consignment service
  -- has a handler, and on that message the handler refunds the payment with the consignment as its key,
  -- in one run of retries, and cancels the consignment if it reports the message as done. The message is
  -- a new row of the outbox, or it is left out since a row of its topic and key, whose payload may be
  -- another, is pending.
  pub given_up_is_Refunded :
      (e : CapacityEvent) (r : Reservation)
      → (failed_capacity wire cache outbox vessel_cli backoff confirm_action e r).0 ≡ ok tt
      → let r1 = (process (release_of_failed e) r).1 in
        let r2 = (failed_capacity wire cache outbox vessel_cli backoff confirm_action e r).1 in
        (payload : wire.Bytes) × IsQueued confirmation_failed_topic e.consignment_id payload
          (outbox.rows r1.outbox)
          (outbox.rows r2.outbox)
        × ((handler : Timestamp → wire.Bytes → Exec Consignment ⊤) × (lookup
                confirmation_failed_topic
                (consignment_handlers wire store payment_cli backoff)
              ≡ some handler)
            × ((now : Timestamp) (w : Consignment)
                → Refunded now e w (handler now payload w).0 (handler now payload w).1))
  unfolding handle_failed_confirmation_event consignment_handlers lookup
  given_up_is_Refunded e r done =
      let (announced, _) =
        failed_confirmation_is_announced wire cache outbox vessel_cli backoff e r in
      let (payload, readable, queued) = announced done in
      (
        payload,
        queued,
        (
          handle_failed_confirmation_event wire store payment_cli backoff,
          refl,
          λ now w. rw readable (
              failed_confirmation_cancels wire store payment_cli backoff now
                (confirmation_failed wire cache outbox vessel_cli backoff e) w),
        ),
      )
