-- ===== src/Reservation/Manager/Outcomes.antt =====
-- What the processing of one event leaves in the outbox and at the vessel service
-- (cmd/reservation-service/manager/event.go).
use shippy.Prelude.{
  true, false, ◌≡◌, ◌≢◌, refl, subst, List, inl, inr, ok, err, Error, Result-cases, is_ok, ⊤, Exec,
  with_text,
}
use shippy.Prelude.Backoff.{Backoff}
use shippy.Prelude.Keeps.{Keeps-retry}
use shippy.Events.{
  CapacityAction, confirm_action, release_action, unspecified_action, other_action, CapacityEvent,
  ReservationConfirmedEvent, Wire, confirmation_failed_topic,
}
use shippy.Outbox.{OutboxEvent, OutboxRepository, Scheduled}
use shippy.Reservation.{ReservationCache, VesselClient}
use shippy.Reservation.Manager.{
  Manager, reservation_id, count_retry, retry_topic, retry_key, publish_retry_event,
  confirmation_failed, publish_confirmation_failed, publish_reservation_confirmed, vessel_call,
  confirmed, call_vessel, process_capacity_event,
}
use shippy.Reservation.Manager.Handlers.{failed_capacity, release_of_failed}
use shippy.Reservation.Manager.Publishing.{
  publish, publish-Publishes, with_text-Publishes, publish_retry-Publishes,
}

module _ (wire : Wire) (cache : ReservationCache) (outbox : OutboxRepository wire.Bytes)
    (vessel_cli : VesselClient) (backoff : Backoff) where
  abbrev World : Type 0
  World = Manager wire cache outbox vessel_cli backoff

  abbrev rows : World → List (OutboxEvent wire.Bytes)
  rows w = outbox.rows w.outbox

  vessel_call-outbox :
      (a : CapacityAction) (e : CapacityEvent) (w : World)
      → (vessel_call wire cache outbox vessel_cli backoff a e w).1.outbox ≡ w.outbox
  unfolding vessel_call
  vessel_call-outbox confirm_action e w =
      Keeps-retry (λ s. s.outbox ≡ w.outbox) backoff _ _ (λ s p. p) w refl
  vessel_call-outbox release_action e w =
      Keeps-retry (λ s. s.outbox ≡ w.outbox) backoff _ _ (λ s p. p) w refl
  vessel_call-outbox unspecified_action e w = refl
  vessel_call-outbox (other_action n) e w = refl

  abbrev confirmed_message : CapacityEvent → ReservationConfirmedEvent
  confirmed_message e = record {
    reservation_id = reservation_id e;
    consignment_id = e.consignment_id;
    saga_started_at = e.saga_started_at;
  }

  confirmed-final :
      (a : CapacityAction) (e : CapacityEvent) (w : World)
      → ((confirmed wire cache outbox vessel_cli backoff a e w).0 ≡ ok tt)
        × ((confirmed wire cache outbox vessel_cli backoff a e w).1.vessel ≡ w.vessel)
  unfolding confirmed publish_reservation_confirmed
  confirmed-final confirm_action e w =
      elim (Result-cases (wire.reservation_confirmed.marshal (confirmed_message e))) [
        | inr (x, p) ↦ rw p (refl, refl)
        | inl (payload, p) ↦ rw p (refl, refl)
      ]
  confirmed-final release_action e w = (refl, refl)
  confirmed-final unspecified_action e w = (refl, refl)
  confirmed-final (other_action n) e w = (refl, refl)

  -- The event with its cache cleared, at the vessel service.
  call_vessel-failed :
      (e : CapacityEvent) (w : World) (x : Error)
      → (vessel_call wire cache outbox vessel_cli backoff e.action e w).0 ≡ err x
      → let w1 = (vessel_call wire cache outbox vessel_cli backoff e.action e w).1 in
        let r = call_vessel wire cache outbox vessel_cli backoff e w in
        (r.1.vessel ≡ w1.vessel)
        × (r.0 ≡ ok tt
            → Scheduled wire.capacity
                (retry_topic (count_retry e))
                (retry_key (count_retry e))
                (count_retry e)
                (rows w)
                (rows r.1))
  unfolding call_vessel
  call_vessel-failed e w x failed =
      let w1 : World = (vessel_call wire cache outbox vessel_cli backoff e.action e w).1 in
      let (v, c, s) =
        publish_retry-Publishes wire cache outbox vessel_cli backoff
          "failed to schedule release retry" e w1 in
      rw failed (
        v,
        λ h.
            subst
              (λ o.
                Scheduled wire.capacity (retry_topic (count_retry e)) (retry_key (count_retry e))
                  (count_retry e) (outbox.rows o)
                  (rows
                    (with_text "failed to schedule release retry"
                      (publish_retry_event wire cache outbox vessel_cli backoff e) w1).1))
              (vessel_call-outbox e.action e w) (s h),
      )

  call_vessel-done :
      (e : CapacityEvent) (w : World)
      → (vessel_call wire cache outbox vessel_cli backoff e.action e w).0 ≡ ok tt
      → let w1 = (vessel_call wire cache outbox vessel_cli backoff e.action e w).1 in
        let r = call_vessel wire cache outbox vessel_cli backoff e w in
        (r.0 ≡ ok tt) × (r.1.vessel ≡ w1.vessel)
  unfolding call_vessel
  call_vessel-done e w done = rw done (confirmed-final e.action e _)

  abbrev process : CapacityEvent → Exec World ⊤
  process = process_capacity_event wire cache outbox vessel_cli backoff

  process-cleared :
      (e : CapacityEvent) (w : World)
      → e.cache_cleared ≡ true
      → process e w ≡ call_vessel wire cache outbox vessel_cli backoff e w
  unfolding process_capacity_event
  process-cleared e w h = simp h

  -- An event whose cache is cleared and whose call of the vessel service fails, retries included:
  -- if it is reported as done, the same event with its retry counted is a new row of the outbox, under
  -- the topic and the key of that retry, or the outbox is as it was since a row of this topic and key,
  -- whose payload may be another, is pending. Nothing else has been called on the vessel service.
  pub failed_call_tries_again :
      (e : CapacityEvent) (w : World) (x : Error)
      → e.cache_cleared ≡ true
      → (vessel_call wire cache outbox vessel_cli backoff e.action e w).0 ≡ err x
      → let w1 = (vessel_call wire cache outbox vessel_cli backoff e.action e w).1 in
        let r = process e w in
        (r.1.vessel ≡ w1.vessel)
        × (r.0 ≡ ok tt
            → Scheduled wire.capacity
                (retry_topic (count_retry e))
                (retry_key (count_retry e))
                (count_retry e)
                (rows w)
                (rows r.1))
  failed_call_tries_again e w x cleared failed =
      rw (process-cleared e w cleared) (call_vessel-failed e w x failed)

  -- An event whose cache is cleared and whose call of the vessel service succeeds is reported as
  -- done, whatever the cache and the outbox then do: also where a confirmation could not be
  -- announced. The vessel service is called no further.
  pub successful_call_is_final :
      (e : CapacityEvent) (w : World)
      → e.cache_cleared ≡ true
      → (vessel_call wire cache outbox vessel_cli backoff e.action e w).0 ≡ ok tt
      → let w1 = (vessel_call wire cache outbox vessel_cli backoff e.action e w).1 in
        let r = process e w in (r.0 ≡ ok tt) × (r.1.vessel ≡ w1.vessel)
  successful_call_is_final e w cleared done =
      rw (process-cleared e w cleared) (call_vessel-done e w done)

  -- Without the cached data there is no call: where an event has not cleared the cache and its
  -- deletion fails or finds nothing, the vessel service is as before. Where the deletion fails, an
  -- event that is reported as done is scheduled again with its retry counted.
  pub uncleared_makes_no_call :
      (e : CapacityEvent) (w : World)
      → e.cache_cleared ≡ false
      → (cache.delete_data (reservation_id e) w.cache).0 ≢ ok true
      → let r = process e w in
        (r.1.vessel ≡ w.vessel)
        × (is_ok (cache.delete_data (reservation_id e) w.cache).0 ≡ false
            → r.0 ≡ ok tt
            → Scheduled wire.capacity
                (retry_topic (count_retry e))
                (retry_key (count_retry e))
                (count_retry e)
                (rows w)
                (rows r.1))
  unfolding process_capacity_event
  uncleared_makes_no_call e w uncleared missing =
      elim (Result-cases (cache.delete_data (reservation_id e) w.cache).0) [
        | inl (true, p) ↦ absurd (missing p)
        | inl (false, p) ↦ simp (uncleared, p) (refl, λ h. cc)
        | inr (x, p) ↦
            let w1 : World = record w {
              cache = (cache.delete_data (reservation_id e) w.cache).1;
            } in
            let (v, c, s) =
              publish_retry-Publishes wire cache outbox vessel_cli backoff
                "failed to schedule capacity retry" e w1 in
            simp (uncleared, p) (v, λ _ h. s h)
      ]

  -- A confirmation whose retries are used up: if its event is reported as done, the failure is in
  -- the outbox for the consignment service, with the payment to refund, whether or not the release
  -- of the capacity went through. A release whose retries are used up changes nothing.
  pub failed_confirmation_is_announced :
      (e : CapacityEvent) (w : World)
      → let w1 = (process (release_of_failed e) w).1 in
        let r = failed_capacity wire cache outbox vessel_cli backoff confirm_action e w in
        (r.0 ≡ ok tt
          → Scheduled wire.confirmation_failed confirmation_failed_topic e.consignment_id
              (confirmation_failed wire cache outbox vessel_cli backoff e)
              (rows w1)
              (rows r.1))
        × (failed_capacity wire cache outbox vessel_cli backoff release_action e w ≡ (ok tt, w))
  unfolding failed_capacity publish_confirmation_failed
  failed_confirmation_is_announced e w =
      let w1 : World = (process (release_of_failed e) w).1 in
      let message = confirmation_failed wire cache outbox vessel_cli backoff e in
      let q =
        publish-Publishes wire cache outbox vessel_cli backoff wire.confirmation_failed
          "failed to marshal failed confirmation event" confirmation_failed_topic e.consignment_id
          message w1 in
      let (v, c, s) =
        with_text-Publishes wire cache outbox vessel_cli backoff wire.confirmation_failed
          "failed to publish capacity confirmation failure event" confirmation_failed_topic
          e.consignment_id message
          (publish wire cache outbox vessel_cli backoff wire.confirmation_failed
            "failed to marshal failed confirmation event" confirmation_failed_topic e.consignment_id
            message)
          w1 q in
      (s, refl)
