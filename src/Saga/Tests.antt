-- ===== src/Saga/Tests.antt =====
-- The two crossings at concrete events, on services in memory.
use shippy.Prelude.{
  pos, true, false, none, some, ◌≡◌, refl, sym, [], ◌∷◌, ok, err, errorf, ok_eq, ⊤, Exec,
}
use shippy.Prelude.Dict.{lookup}
use shippy.Events.{
  Timestamp, CapacityEvent, PaymentAuthorisedEvent, confirm_action, confirmation_failed_topic,
}
use shippy.Testing.{Message, wire, outbox, backoff}
use shippy.Consignment.{Consignment, status_pending}
use shippy.Consignment.Memory.{Base, store, payment_cli}
use shippy.Consignment.Manager.Handlers.{event_handlers as consignment_handlers}
use shippy.Reservation.{ReservationCache, VesselClient}
use shippy.Reservation.Manager.{process_capacity_event, publish_confirmation_failed}
use shippy.Reservation.Manager.Handlers.{
  failed_capacity, release_of_failed, event_handlers as reservation_handlers,
}
use shippy.Saga
use shippy.Saga.{IsQueued, Refunded, given_up_is_Refunded}

-- A cache without data, and a vessel service that takes every call.
abbrev cache : ReservationCache
cache = record {
  State = Unit;
  has_data = λ s id. false;
  store = λ id r s. (err (errorf "full"), s);
  get_data = λ id s. (err (errorf "not found"), s);
  get_expired = λ s. (ok [], s);
  delete_data = λ id s. (ok false, s);
  delete_id = λ id s. (ok false, s);
  refresh = λ id s. (ok false, s);
  store_lem = λ id r s h. cc;
  delete_data_lem = λ id s b h. (sym (ok_eq h), refl);
  has_data-delete_id = λ id j s. refl;
  delete_data-gone = λ id j s h. refl;
  get_expired-gone = λ j s h. refl;
}

abbrev vessel_cli : VesselClient
vessel_cli = record {
  State = Unit;
  reserve_capacity = λ spec s. (err (errorf "unavailable"), s);
  release_capacity = λ req s. (ok tt, s);
  confirm_capacity = λ req s. (ok tt, s);
}

abbrev event : CapacityEvent
event = record {
  action = confirm_action;
  reservation_info = some (record {
    id = "r1";
    vessel_id = "v1";
    consignment_id = "c1";
    number_of_containers = pos 4;
    weight = pos 40;
  });
  cache_cleared = false;
  retry_count = pos 3;
  consignment_id = "c1";
  payment_id = "p1";
  saga_started_at = none;
}

abbrev reservations : Saga.Reservation wire store payment_cli backoff cache outbox vessel_cli
reservations = record { cache = tt; outbox = record { up = true; events = [] }; vessel = tt }

given_up_is_Refunded_example :
    let r1 =
      (process_capacity_event wire cache outbox vessel_cli backoff
        (release_of_failed event)
        reservations).1 in
    let r2 =
      (failed_capacity wire cache outbox vessel_cli backoff confirm_action event reservations).1 in
    (payload : Message) × IsQueued confirmation_failed_topic "c1" payload r1.outbox.events
      r2.outbox.events
    × ((handler : Timestamp
          → Message
          → Exec (Saga.Consignment wire store payment_cli backoff cache outbox vessel_cli) ⊤)
        × (lookup confirmation_failed_topic (consignment_handlers wire store payment_cli backoff)
            ≡ some handler)
        × ((now : Timestamp)
              (w : Saga.Consignment wire store payment_cli backoff cache outbox vessel_cli)
            → Refunded wire store payment_cli backoff cache outbox vessel_cli now event w
                (handler now payload w).0
                (handler now payload w).1))
unfolding failed_capacity publish_confirmation_failed process_capacity_event release_of_failed
given_up_is_Refunded_example =
    given_up_is_Refunded wire store payment_cli backoff cache outbox vessel_cli event reservations
      refl

abbrev authorised : PaymentAuthorisedEvent
authorised = record {
  consignment_id = "c1";
  reservation_id = "r1";
  vessel_id = "v1";
  payment_auth_id = "a1";
  idempotency_key = "c1";
  weight = pos 40;
  containers = pos 4;
  retry_count = pos 0;
  cache_cleared = false;
  payment_captured = true;
  payment_id = "p1";
  saga_started_at = none;
}

abbrev consignment : Consignment
consignment = record {
  id = "c1";
  weight = pos 40;
  description = "tea";
  containers = [];
  vessel_id = "v1";
  reservation_id = "r1";
  status = status_pending;
  payment_id = "";
}

abbrev base : Base
base = record { up = true; docs = record { consignments = consignment ∷ []; events = [] } }
