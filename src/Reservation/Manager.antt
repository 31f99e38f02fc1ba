-- ===== src/Reservation/Manager.antt =====
-- The event handlers of the reservation service (cmd/reservation-service/manager/event.go and
-- manager.go). Tracing and logging are left out.
pub mod Handlers
pub mod Retries
pub mod Duplicates
pub mod Publishing
pub mod Outcomes
pub mod Table
pub mod Steps
mod Tests
use shippy.Prelude.{
  ℕ, zero, suc, ℤ, pos, ◌+ℤ◌, to_int32, ltb_ℤ, String, Bool, true, false, Option, none, some, List,
  [], ◌∷◌, if◌then◌else◌, Error, errorf, wrap, Result, ok, err, ⊤, Exec, pure, raise, lift,
  on_error, with_text, ignore, ◌>>=◌, ◌>>◌,
}
use Prim.Native.String.{◌++◌}
use shippy.Prelude.Decimal.{decimal}
use shippy.Prelude.Backoff.{Backoff}
use shippy.Events.{
  ReservationInfoMessage, PaymentCapturedEvent, ReservationConfirmedEvent, ReservationExpiredEvent,
  ConsignmentConfirmationFailedEvent, CapacityAction, unspecified_action, release_action,
  confirm_action, other_action, CapacityEvent, info, Wire, release_capacity_topic,
  confirm_capacity_topic, capacity_failed_topic, reservation_expired_topic,
  confirmation_failed_topic, reservation_confirmed_topic,
}
use shippy.Outbox.{OutboxEvent, OutboxRepository}
use shippy.Vessel.Messages.{CapacityRequestMessage}
use shippy.Reservation.{ReservationInfo, ReservationCache, VesselClient}

abbrev pub max_retries : ℕ
max_retries = 3

-- What a `Manager` acts on.
pub record World (Cache Rows Vessel : Type 0) : Type 0 where
  pub cache : Cache
  pub outbox : Rows
  pub vessel : Vessel

module _ {C O V A : Type 0} where
  abbrev pub on_cache : Exec C A → Exec (World C O V) A
  on_cache m w = ((m w.cache).0, record w { cache = (m w.cache).1 })

  abbrev pub on_outbox : Exec O A → Exec (World C O V) A
  on_outbox m w = ((m w.outbox).0, record w { outbox = (m w.outbox).1 })

  abbrev pub on_vessel : Exec V A → Exec (World C O V) A
  on_vessel m w = ((m w.vessel).0, record w { vessel = (m w.vessel).1 })

-- `event.ReservationInfo.GetId()`
abbrev pub reservation_id : CapacityEvent → String
reservation_id event = (info event.reservation_info).id

unfoldable pub capacity_request : CapacityEvent → CapacityRequestMessage
capacity_request event = record {
  reservation_id = reservation_id event;
  vessel_id = (info event.reservation_info).vessel_id;
  weight = (info event.reservation_info).weight;
  number_of_containers = (info event.reservation_info).number_of_containers;
}

-- `event.RetryCount++` on an `int32`
unfoldable pub count_retry : CapacityEvent → CapacityEvent
count_retry event = record event { retry_count = to_int32 (event.retry_count +ℤ pos 1) }

-- The topic of a retry that has been counted.
unfoldable pub action_topic : CapacityAction → String
action_topic confirm_action = confirm_capacity_topic
action_topic release_action = release_capacity_topic
action_topic unspecified_action = capacity_failed_topic
action_topic (other_action n) = capacity_failed_topic

unfoldable pub retry_topic : CapacityEvent → String
unfolding action_topic
retry_topic event =
    if ltb_ℤ event.retry_count (pos max_retries)
    then action_topic event.action
    else capacity_failed_topic

-- `fmt.Sprintf("%s-%d", …)`
unfoldable pub retry_key : CapacityEvent → String
retry_key event = reservation_id event ++ ("-" ++ decimal event.retry_count)

module _ (wire : Wire) (cache : ReservationCache) (outbox : OutboxRepository wire.Bytes)
    (vessel_cli : VesselClient) (backoff : Backoff) where
  abbrev pub Manager : Type 0
  Manager = World cache.State outbox.State vessel_cli.State

  abbrev create_event : String → String → wire.Bytes → Exec Manager ⊤
  create_event topic key payload =
      on_outbox (outbox.create_event (record { topic = topic; key = key; payload = payload }))

  unfoldable pub publish_reservation_expired : ReservationInfo → Exec Manager ⊤
  publish_reservation_expired r = do
    payload ← with_text "failed to marshal reservation expired event" (
        lift (
          wire.reservation_expired.marshal (record {
            reservation_id = r.id;
            vessel_id = r.vessel_id;
            consignment_id = r.consignment_id;
            weight = to_int32 r.weight;
            containers = to_int32 r.number_of_containers;
          })))
    create_event reservation_expired_topic r.id payload

  unfoldable pub publish_reservation_confirmed : CapacityEvent → Exec Manager ⊤
  publish_reservation_confirmed event = do
    payload ← with_text "failed to marshal reservation confirmed event" (
        lift (
          wire.reservation_confirmed.marshal (record {
            reservation_id = reservation_id event;
            consignment_id = event.consignment_id;
            saga_started_at = event.saga_started_at;
          })))
    create_event reservation_confirmed_topic event.consignment_id payload

  -- The message that `publishConfirmationFailed` sends.
  abbrev pub confirmation_failed : CapacityEvent → ConsignmentConfirmationFailedEvent
  confirmation_failed event = record {
    consignment_id = event.consignment_id;
    reservation_id = reservation_id event;
    vessel_id = (info event.reservation_info).vessel_id;
    payment_id = event.payment_id;
    weight = (info event.reservation_info).weight;
    containers = (info event.reservation_info).number_of_containers;
    cache_cleared = true;
    payment_captured = true;
    payment_auth_id = "";
    saga_started_at = event.saga_started_at;
  }

  unfoldable pub publish_confirmation_failed : CapacityEvent → Exec Manager ⊤
  publish_confirmation_failed event = do
    payload ←
        with_text "failed to marshal failed confirmation event"
          (lift (wire.confirmation_failed.marshal (confirmation_failed event)))
    create_event confirmation_failed_topic event.consignment_id payload

  -- `publishRetryEvent` from `counted` on, the event whose retry has been counted.
  unfoldable pub publish_counted : CapacityEvent → Exec Manager ⊤
  publish_counted counted = do
    payload ← with_text "failed to marshal event" (lift (wire.capacity.marshal counted))
    with_text "failed to create outbox event"
        (create_event (retry_topic counted) (retry_key counted) payload)

  unfoldable pub publish_retry_event : CapacityEvent → Exec Manager ⊤
  publish_retry_event event = publish_counted (count_retry event)

  -- The call of the vessel service with retries, by the action of the event.
  unfoldable pub vessel_call : CapacityAction → CapacityEvent → Exec Manager ⊤
  vessel_call confirm_action event =
      backoff.retry max_retries (on_vessel (vessel_cli.confirm_capacity (capacity_request event)))
  vessel_call release_action event =
      backoff.retry max_retries (on_vessel (vessel_cli.release_capacity (capacity_request event)))
  vessel_call unspecified_action event = pure tt
  vessel_call (other_action n) event = pure tt

  -- A failed publication is only logged.
  unfoldable pub confirmed : CapacityAction → CapacityEvent → Exec Manager ⊤
  confirmed confirm_action event = ignore (publish_reservation_confirmed event)
  confirmed _ event = pure tt

  -- `processCapacityEvent` after the cache has been cleared.
  unfoldable pub call_vessel : CapacityEvent → Exec Manager ⊤
  call_vessel event =
      on_error (vessel_call event.action event)
        (λ _. with_text "failed to schedule release retry" (publish_retry_event event))
        (λ _.
          ignore (on_cache (cache.delete_id (reservation_id event)))
          >> confirmed event.action event)

  unfoldable pub process_capacity_event : CapacityEvent → Exec Manager ⊤
  process_capacity_event event =
      if event.cache_cleared
      then call_vessel event
      else on_error (on_cache (cache.delete_data (reservation_id event)))
          (λ _. with_text "failed to schedule capacity retry" (publish_retry_event event))
          (λ deleted.
            if deleted then call_vessel (record event { cache_cleared = true }) else pure tt)
