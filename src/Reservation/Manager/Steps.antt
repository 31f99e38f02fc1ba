-- ===== src/Reservation/Manager/Steps.antt =====
-- The jobs of the reservation service beside one another: the handlers of the consumer, the cleanup and
-- the publisher, which Start of cmd/reservation-service/manager/manager.go runs in goroutines, and
-- what other instances of the service do to the cache and the outbox that they share.
use shippy.Prelude.{
  String, Bool, true, false, Option, none, some, ◌≡◌, sym, subst, List, [], ◌∷◌, if◌then◌else◌, ok,
  ⊤, Exec, lift, with_text, ignore, pure,
}
use shippy.Prelude.Backoff.{Backoff}
use shippy.Prelude.Keeps.{Keeps, Keeps-on_error, Keeps-bind, Keeps-with_text}
use shippy.Events.{
  CapacityAction, confirm_action, release_action, unspecified_action, other_action, CapacityEvent,
  PaymentCapturedEvent, ReservationInfoMessage, Wire,
}
use shippy.Outbox.{OutboxRepository}
use shippy.Reservation.{ReservationCache, VesselClient, ReservationInfo}
use shippy.Reservation.Manager.{
  Manager, reservation_id, on_cache, call_vessel, process_capacity_event,
  publish_confirmation_failed, publish_reservation_expired,
}
use shippy.Reservation.Manager.Handlers.{
  handle_reservation_expired_event, handle_payment_captured_event, handle_capacity_event,
  handle_failed_capacity_event, failed_capacity, payment_captured, confirm_of_captured,
  release_of_expired, release_of_failed, publish_expired, release_reservations,
}
use shippy.Reservation.Manager.Duplicates.{
  IsGone, call_vessel-IsGone, retry-IsGone, process-IsGone, skipped,
}

module _ (wire : Wire) (cache : ReservationCache) (outbox : OutboxRepository wire.Bytes)
    (vessel_cli : VesselClient) (backoff : Backoff) where
  abbrev World : Type 0
  World = Manager wire cache outbox vessel_cli backoff

  -- A step of the service. A message comes to any of the handlers; elsewhere, data leaves the cache,
  -- and the outbox and the vessel service change in any way.
  pub data Step : World → World → Type 0 where
    expired_step :
        {w : World} (value : wire.Bytes)
        → Step w (handle_reservation_expired_event wire cache outbox vessel_cli backoff value w).1
    captured_step :
        {w : World} (value : wire.Bytes)
        → Step w (handle_payment_captured_event wire cache outbox vessel_cli backoff value w).1
    capacity_step :
        {w : World} (value : wire.Bytes)
        → Step w (handle_capacity_event wire cache outbox vessel_cli backoff value w).1
    failed_step :
        {w : World} (value : wire.Bytes)
        → Step w (handle_failed_capacity_event wire cache outbox vessel_cli backoff value w).1
    cleanup : {w : World} → Step w (release_reservations wire cache outbox vessel_cli backoff w).1
    elsewhere :
        {w v : World}
        → ((id : String) → cache.has_data w.cache id ≡ false → cache.has_data v.cache id ≡ false)
        → Step w v

  pub data Steps : World → World → Type 0 where
    done : {w : World} → Steps w w
    step : {w v u : World} → Step w v → Steps v u → Steps w u

  module _ (id : String) where
    abbrev Gone : World → Type 0
    Gone = IsGone wire cache outbox vessel_cli backoff id

    if-Gone :
        (b : Bool) (m n : Exec World ⊤)
        → Keeps Gone m
        → Keeps Gone n
        → Keeps Gone (if b then m else n)
    if-Gone true m n k l = k
    if-Gone false m n k l = l

    process-Gone :
        (e : CapacityEvent)
        → Keeps Gone (process_capacity_event wire cache outbox vessel_cli backoff e)
    unfolding process_capacity_event
    process-Gone e =
        if-Gone e.cache_cleared (call_vessel wire cache outbox vessel_cli backoff e) _
          (call_vessel-IsGone wire cache outbox vessel_cli backoff id e)
          (Keeps-on_error Gone (on_cache (cache.delete_data (reservation_id e))) _ _
            (λ s p. cache.delete_data-gone (reservation_id e) id s.cache p)
            (λ x.
              Keeps-with_text Gone "failed to schedule capacity retry" _
                (retry-IsGone wire cache outbox vessel_cli backoff id e))
            (λ deleted.
              if-Gone deleted
                (call_vessel wire cache outbox vessel_cli backoff
                  (record e { cache_cleared = true }))
                (pure tt)
                (call_vessel-IsGone wire cache outbox vessel_cli backoff id
                  (record e { cache_cleared = true }))
                (λ s p. p)))

    captured-Gone :
        (pb : PaymentCapturedEvent) (o : Option ReservationInfoMessage)
        → Keeps Gone (payment_captured wire cache outbox vessel_cli backoff pb o)
    unfolding payment_captured
    captured-Gone pb none = λ s p. p
    captured-Gone pb (some r) = process-Gone (confirm_of_captured pb)

    failure-Gone :
        (e : CapacityEvent)
        → Keeps Gone (publish_confirmation_failed wire cache outbox vessel_cli backoff e)
    unfolding publish_confirmation_failed
    failure-Gone e =
        Keeps-bind Gone (with_text "failed to marshal failed confirmation event" (lift _)) _
          (Keeps-with_text Gone "failed to marshal failed confirmation event" (lift _) (λ s p. p))
          (λ payload s p. p)

    failed_capacity-Gone :
        (a : CapacityAction) (e : CapacityEvent)
        → Keeps Gone (failed_capacity wire cache outbox vessel_cli backoff a e)
    unfolding failed_capacity
    failed_capacity-Gone release_action e = λ s p. p
    failed_capacity-Gone unspecified_action e = λ s p. p
    failed_capacity-Gone (other_action n) e = λ s p. p
    failed_capacity-Gone confirm_action e =
        Keeps-bind Gone
          (ignore
            (process_capacity_event wire cache outbox vessel_cli backoff (release_of_failed e)))
          (λ _.
            with_text "failed to publish capacity confirmation failure event"
              (publish_confirmation_failed wire cache outbox vessel_cli backoff e))
          (process-Gone (release_of_failed e))
          (λ _.
            Keeps-with_text Gone "failed to publish capacity confirmation failure event"
              (publish_confirmation_failed wire cache outbox vessel_cli backoff e) (failure-Gone e))

    expired-Gone :
        (r : ReservationInfo)
        → Keeps Gone (publish_reservation_expired wire cache outbox vessel_cli backoff r)
    unfolding publish_reservation_expired
    expired-Gone r =
        Keeps-bind Gone (with_text "failed to marshal reservation expired event" (lift _)) _
          (Keeps-with_text Gone "failed to marshal reservation expired event" (lift _) (λ s p. p))
          (λ payload s p. p)

    publish_expired-Gone :
        (rs : List ReservationInfo)
        → Keeps Gone (publish_expired wire cache outbox vessel_cli backoff rs)
    unfolding publish_expired
    publish_expired-Gone [] = λ s p. p
    publish_expired-Gone (r ∷ rs) =
        Keeps-bind Gone
          (ignore (publish_reservation_expired wire cache outbox vessel_cli backoff r))
          (λ _. publish_expired wire cache outbox vessel_cli backoff rs) (expired-Gone r)
          (λ _. publish_expired-Gone rs)

    Step-Gone : {w v : World} → Step w v → Gone w → Gone v
    unfolding handle_reservation_expired_event handle_payment_captured_event handle_capacity_event
        handle_failed_capacity_event release_reservations
    Step-Gone (expired_step {w = w} value) =
        Keeps-bind Gone
          (with_text "failed to unmarshal event" (lift (wire.reservation_expired.unmarshal value)))
          _ (Keeps-with_text Gone "failed to unmarshal event" (lift _) (λ s p. p))
          (λ pb. process-Gone (release_of_expired pb)) w
    Step-Gone (captured_step {w = w} value) =
        Keeps-bind Gone
          (with_text "failed to unmarshal event" (lift (wire.payment_captured.unmarshal value))) _
          (Keeps-with_text Gone "failed to unmarshal event" (lift _) (λ s p. p))
          (λ pb. captured-Gone pb pb.reservation_info) w
    Step-Gone (capacity_step {w = w} value) =
        Keeps-bind Gone
          (with_text "failed to unmarshal event" (lift (wire.capacity.unmarshal value))) _
          (Keeps-with_text Gone "failed to unmarshal event" (lift _) (λ s p. p))
          (λ e. process-Gone e) w
    Step-Gone (failed_step {w = w} value) =
        Keeps-bind Gone
          (with_text "failed to unmarshal event" (lift (wire.capacity.unmarshal value))) _
          (Keeps-with_text Gone "failed to unmarshal event" (lift _) (λ s p. p))
          (λ e. failed_capacity-Gone e.action e) w
    Step-Gone (cleanup {w = w}) =
        Keeps-bind Gone
          (with_text "failed to get expired reservations" (on_cache cache.get_expired)) _
          (Keeps-with_text Gone "failed to get expired reservations" (on_cache cache.get_expired)
            (λ s p. cache.get_expired-gone id s.cache p))
          publish_expired-Gone w
    Step-Gone (elsewhere kept) = kept id

    Steps-Gone : {w v : World} → Steps w v → Gone w → Gone v
    Steps-Gone done p = p
    Steps-Gone (step one rest) p = Steps-Gone rest (Step-Gone one p)

  -- Of the events of one reservation only the first acts, whatever happens in between: once an event
  -- that has not cleared the cache has been processed, successfully or not, with no failure of the
  -- deletion, then after any steps of the handlers, the cleanup and other instances, in any order, a
  -- further event of the reservation that has not cleared the cache is reported as done and leaves the
  -- vessel service and the outbox as they are. No step stores the reservation again, and the deletion
  -- of the second event does not fail.
  pub first_event_acts_alone :
      (e e' : CapacityEvent) (w v : World) (b b' : Bool)
      → reservation_id e' ≡ reservation_id e
      → e.cache_cleared ≡ false
      → e'.cache_cleared ≡ false
      → (cache.delete_data (reservation_id e) w.cache).0 ≡ ok b
      → Steps (process_capacity_event wire cache outbox vessel_cli backoff e w).1 v
      → (cache.delete_data (reservation_id e') v.cache).0 ≡ ok b'
      → process_capacity_event wire cache outbox vessel_cli backoff e' v
        ≡ (ok tt, record v { cache = (cache.delete_data (reservation_id e') v.cache).1 })
  first_event_acts_alone e e' w v b b' same uncleared uncleared' deleted steps deleted' =
      let gone =
        Steps-Gone (reservation_id e) steps
          (process-IsGone wire cache outbox vessel_cli backoff e w b uncleared deleted) in
      skipped wire cache outbox vessel_cli backoff e' v b' uncleared'
        (subst (λ id. cache.has_data v.cache id ≡ false) (sym same) gone) deleted'
