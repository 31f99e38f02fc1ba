-- ===== src/Reservation/Manager/Handlers.antt =====
-- The handlers that the consumer calls, the table of `New`, and the cleanup of expired
-- reservations (cmd/reservation-service/manager/event.go and manager.go).
use shippy.Prelude.{
  pos, String, false, Option, none, some, List, [], ◌∷◌, errorf, Result, ok, err, ⊤, Exec, pure,
  raise, lift, with_text, ignore, ◌>>=◌, ◌>>◌,
}
use shippy.Prelude.Backoff.{Backoff}
use shippy.Prelude.Dict.{Dict, lookup, insert}
use shippy.Events.{
  PaymentCapturedEvent, ReservationExpiredEvent, ReservationInfoMessage, CapacityAction,
  unspecified_action, release_action, confirm_action, other_action, CapacityEvent, Wire,
  payment_captured_topic, release_capacity_topic, confirm_capacity_topic, capacity_failed_topic,
  reservation_expired_topic,
}
use shippy.Outbox.{OutboxRepository}
use shippy.Reservation.{ReservationInfo, ReservationCache, VesselClient}
use shippy.Reservation.Manager.{
  Manager, on_cache, process_capacity_event, publish_reservation_expired,
  publish_confirmation_failed,
}

-- The event that an expired reservation stands for.
unfoldable pub release_of_expired : ReservationExpiredEvent → CapacityEvent
release_of_expired pb = record {
  action = release_action;
  reservation_info = some (record {
    id = pb.reservation_id;
    vessel_id = pb.vessel_id;
    consignment_id = pb.consignment_id;
    number_of_containers = pb.containers;
    weight = pb.weight;
  });
  cache_cleared = false;
  retry_count = pos 0;
  consignment_id = "";
  payment_id = "";
  saga_started_at = none;
}

-- The event that a captured payment stands for.
unfoldable pub confirm_of_captured : PaymentCapturedEvent → CapacityEvent
confirm_of_captured pb = record {
  action = confirm_action;
  reservation_info = pb.reservation_info;
  cache_cleared = false;
  retry_count = pos 0;
  consignment_id = pb.consignment_id;
  payment_id = pb.payment_id;
  saga_started_at = pb.saga_started_at;
}

-- The release that stands in for a confirmation whose retries are used up.
unfoldable pub release_of_failed : CapacityEvent → CapacityEvent
release_of_failed event = record {
  action = release_action;
  reservation_info = event.reservation_info;
  cache_cleared = event.cache_cleared;
  retry_count = pos 0;
  consignment_id = "";
  payment_id = "";
  saga_started_at = none;
}

-- `m.eventHandlers` is the table of the topics that `New` was given.
unfoldable pub active_handlers {ℓ} : {H : Type ℓ} → Dict H → List String → Dict H → Result (Dict H)
active_handlers handlers [] active = ok active
active_handlers handlers (topic ∷ topics) active = elim (lookup topic handlers) [
  | none ↦ err (errorf "no event handler for topic")
  | some handler ↦ active_handlers handlers topics (insert topic handler active)
]

module _ (wire : Wire) (cache : ReservationCache) (outbox : OutboxRepository wire.Bytes)
    (vessel_cli : VesselClient) (backoff : Backoff) where
  abbrev World : Type 0
  World = Manager wire cache outbox vessel_cli backoff

  abbrev process : CapacityEvent → Exec World ⊤
  process = process_capacity_event wire cache outbox vessel_cli backoff

  unfoldable pub handle_reservation_expired_event : wire.Bytes → Exec World ⊤
  handle_reservation_expired_event value = do
    pb ← with_text "failed to unmarshal event" (lift (wire.reservation_expired.unmarshal value))
    process (release_of_expired pb)

  unfoldable pub payment_captured :
      PaymentCapturedEvent → Option ReservationInfoMessage → Exec World ⊤
  payment_captured pb none = raise (errorf "payment captured event missing reservation_info")
  payment_captured pb (some _) = process (confirm_of_captured pb)

  unfoldable pub handle_payment_captured_event : wire.Bytes → Exec World ⊤
  unfolding payment_captured
  handle_payment_captured_event value = do
    pb ← with_text "failed to unmarshal event" (lift (wire.payment_captured.unmarshal value))
    payment_captured pb pb.reservation_info

  unfoldable pub handle_capacity_event : wire.Bytes → Exec World ⊤
  handle_capacity_event value = do
    event ← with_text "failed to unmarshal event" (lift (wire.capacity.unmarshal value))
    process event

  unfoldable pub failed_capacity : CapacityAction → CapacityEvent → Exec World ⊤
  failed_capacity release_action event = pure tt
  failed_capacity confirm_action event =
      ignore (process (release_of_failed event))
      >> with_text "failed to publish capacity confirmation failure event"
          (publish_confirmation_failed wire cache outbox vessel_cli backoff event)
  failed_capacity unspecified_action event = pure tt
  failed_capacity (other_action n) event = pure tt

  unfoldable pub handle_failed_capacity_event : wire.Bytes → Exec World ⊤
  handle_failed_capacity_event value = do
    event ← with_text "failed to unmarshal event" (lift (wire.capacity.unmarshal value))
    failed_capacity event.action event

  unfoldable pub event_handlers : Dict (wire.Bytes → Exec World ⊤)
  event_handlers =
      (payment_captured_topic, handle_payment_captured_event)
      ∷ (release_capacity_topic, handle_capacity_event)
      ∷ (confirm_capacity_topic, handle_capacity_event)
      ∷ (reservation_expired_topic, handle_reservation_expired_event)
      ∷ (capacity_failed_topic, handle_failed_capacity_event)
      ∷ []

  -- `New`, whose manager differs from its arguments in the table of handlers alone.
  unfoldable pub new : List String → Result (Dict (wire.Bytes → Exec World ⊤))
  new topics = active_handlers event_handlers topics []

  -- One event for each expired reservation; a failure is logged, and the loop goes on.
  unfoldable pub publish_expired : List ReservationInfo → Exec World ⊤
  publish_expired [] = pure tt
  publish_expired (r ∷ rs) =
      ignore (publish_reservation_expired wire cache outbox vessel_cli backoff r)
      >> publish_expired rs

  unfoldable pub release_reservations : Exec World ⊤
  release_reservations = do
    expired ← with_text "failed to get expired reservations" (on_cache cache.get_expired)
    publish_expired expired
