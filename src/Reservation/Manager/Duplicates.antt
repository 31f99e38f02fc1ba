-- ===== src/Reservation/Manager/Duplicates.antt =====
-- Of the events of one reservation only the first acts: the deletion of the cached data decides
-- (processCapacityEvent of cmd/reservation-service/manager/event.go).
use shippy.Prelude.{Bool, true, false, ◌≡◌, ◌∙◌, sym, subst, ok, ⊤, Exec, lift, with_text, String}
use shippy.Prelude.Backoff.{Backoff}
use shippy.Prelude.Keeps.{Keeps, Keeps-on_error, Keeps-bind, Keeps-with_text, Keeps-retry}
use shippy.Events.{
  CapacityAction, confirm_action, release_action, unspecified_action, other_action, CapacityEvent,
  Wire,
}
use shippy.Outbox.{OutboxRepository}
use shippy.Reservation.{ReservationCache, VesselClient}
use shippy.Reservation.Manager.{
  Manager, reservation_id, count_retry, publish_counted, publish_retry_event,
  publish_reservation_confirmed, vessel_call, confirmed, call_vessel, process_capacity_event,
}

module _ (wire : Wire) (cache : ReservationCache) (outbox : OutboxRepository wire.Bytes)
    (vessel_cli : VesselClient) (backoff : Backoff) where
  abbrev pub World : Type 0
  World = Manager wire cache outbox vessel_cli backoff

  abbrev process : CapacityEvent → Exec World ⊤
  process = process_capacity_event wire cache outbox vessel_cli backoff

  module _ (id : String) where
    -- The data of the reservation is gone.
    abbrev pub IsGone : World → Type 0
    IsGone w = cache.has_data w.cache id ≡ false

    publish_counted-IsGone :
        (e : CapacityEvent) → Keeps IsGone (publish_counted wire cache outbox vessel_cli backoff e)
    unfolding publish_counted
    publish_counted-IsGone e =
        Keeps-bind IsGone (with_text "failed to marshal event" (lift (wire.capacity.marshal e))) _
          (Keeps-with_text IsGone "failed to marshal event" (lift (wire.capacity.marshal e))
            (λ s p. p))
          (λ payload. Keeps-with_text IsGone "failed to create outbox event" _ (λ s p. p))

    publish_confirmed-IsGone :
        (e : CapacityEvent)
        → Keeps IsGone (publish_reservation_confirmed wire cache outbox vessel_cli backoff e)
    unfolding publish_reservation_confirmed
    publish_confirmed-IsGone e =
        Keeps-bind IsGone (with_text "failed to marshal reservation confirmed event" (lift _)) _
          (Keeps-with_text IsGone "failed to marshal reservation confirmed event" (lift _)
            (λ s p. p))
          (λ payload s p. p)

    vessel_call-IsGone :
        (a : CapacityAction) (e : CapacityEvent)
        → Keeps IsGone (vessel_call wire cache outbox vessel_cli backoff a e)
    unfolding vessel_call
    vessel_call-IsGone confirm_action e = Keeps-retry IsGone backoff _ _ (λ s p. p)
    vessel_call-IsGone release_action e = Keeps-retry IsGone backoff _ _ (λ s p. p)
    vessel_call-IsGone unspecified_action e = λ s p. p
    vessel_call-IsGone (other_action n) e = λ s p. p

    confirmed-IsGone :
        (a : CapacityAction) (e : CapacityEvent)
        → Keeps IsGone (confirmed wire cache outbox vessel_cli backoff a e)
    unfolding confirmed
    confirmed-IsGone confirm_action e = publish_confirmed-IsGone e
    confirmed-IsGone release_action e = λ s p. p
    confirmed-IsGone unspecified_action e = λ s p. p
    confirmed-IsGone (other_action n) e = λ s p. p

    pub retry-IsGone :
        (e : CapacityEvent)
        → Keeps IsGone (publish_retry_event wire cache outbox vessel_cli backoff e)
    unfolding publish_retry_event
    retry-IsGone e = publish_counted-IsGone (count_retry e)

    pub call_vessel-IsGone :
        (e : CapacityEvent) → Keeps IsGone (call_vessel wire cache outbox vessel_cli backoff e)
    unfolding call_vessel
    call_vessel-IsGone e =
        Keeps-on_error IsGone (vessel_call wire cache outbox vessel_cli backoff e.action e) _ _
          (vessel_call-IsGone e.action e)
          (λ x. Keeps-with_text IsGone "failed to schedule release retry" _ (retry-IsGone e))
          (λ _ s p.
            confirmed-IsGone e.action e _
              (cache.has_data-delete_id (reservation_id e) id s.cache ∙ p))

  -- After an event whose deletion of the cached data did not fail, the data is gone.
  pub process-IsGone :
      (e : CapacityEvent) (w : World) (b : Bool)
      → e.cache_cleared ≡ false
      → (cache.delete_data (reservation_id e) w.cache).0 ≡ ok b
      → cache.has_data (process e w).1.cache (reservation_id e) ≡ false
  unfolding process_capacity_event
  process-IsGone e w true uncleared deleted =
      rw (uncleared, deleted)
        (call_vessel-IsGone (reservation_id e) (record e { cache_cleared = true }) _
          (cache.delete_data_lem (reservation_id e) w.cache true deleted).1)
  process-IsGone e w false uncleared deleted =
      rw (uncleared, deleted) (cache.delete_data_lem (reservation_id e) w.cache false deleted).1

  pub skipped :
      (e : CapacityEvent) (w : World) (b : Bool)
      → e.cache_cleared ≡ false
      → cache.has_data w.cache (reservation_id e) ≡ false
      → (cache.delete_data (reservation_id e) w.cache).0 ≡ ok b
      → process e w ≡ (ok tt, record w { cache = (cache.delete_data (reservation_id e) w.cache).1 })
  unfolding process_capacity_event
  skipped e w true uncleared gone deleted =
      let (there, _) = cache.delete_data_lem (reservation_id e) w.cache true deleted in cc
  skipped e w false uncleared gone deleted = rw (uncleared, deleted)

  -- Take two events of one reservation that have not cleared the cache, such as a captured payment
  -- and an expiry, or one event delivered twice, and let neither deletion fail. Once the first has
  -- been processed, successfully or not, the second is reported as done and leaves the vessel
  -- service and the outbox as they are.
  pub second_event_skipped :
      (e e' : CapacityEvent) (w : World) (b b' : Bool)
      → reservation_id e' ≡ reservation_id e
      → e.cache_cleared ≡ false
      → e'.cache_cleared ≡ false
      → (cache.delete_data (reservation_id e) w.cache).0 ≡ ok b
      → let w1 = (process e w).1 in
        (cache.delete_data (reservation_id e') w1.cache).0 ≡ ok b'
        → process e' w1
          ≡ (ok tt, record w1 { cache = (cache.delete_data (reservation_id e') w1.cache).1 })
  second_event_skipped e e' w b b' same uncleared uncleared' deleted deleted' =
      skipped e' (process e w).1 b' uncleared'
        (subst (λ id. cache.has_data (process e w).1.cache id ≡ false) (sym same)
          (process-IsGone e w b uncleared deleted))
        deleted'
