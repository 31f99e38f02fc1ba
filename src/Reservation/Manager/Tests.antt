-- ===== src/Reservation/Manager/Tests.antt =====
-- Runs of the reservation service's manager, and its theorems at concrete events.
use shippy.Prelude.{
  ℕ, zero, suc, pos, String, Bool, true, false, Option, none, some, ◌≡◌, refl, sym, [], ◌∷◌, ◌==◌,
  arith, Result, ok, err, errorf, ⊤, Exec, if◌then◌else◌, ok_eq, eq_iff, List,
}
use shippy.Events.{CapacityEvent, ReservationInfoMessage, confirm_action}
use shippy.Outbox.{IsPending, Scheduled}
use shippy.Testing.{Message, capacity, wire, outbox, backoff, retry_loop}
use shippy.Reservation.{ReservationInfo, ReservationCache, VesselClient}
use shippy.Reservation.Manager.{
  Manager, count_retry, retry_topic, retry_key, vessel_call, confirmed, call_vessel,
  publish_retry_event, publish_counted, publish_reservation_confirmed, capacity_request,
  process_capacity_event,
}
use shippy.Reservation.Manager.Handlers.{handle_capacity_event, release_reservations}
use shippy.Reservation.Manager.Steps.{step, cleanup, capacity_step, done, first_event_acts_alone}
use shippy.Prelude.Decimal.{decimal}
use shippy.Reservation.Manager.Retries.{counted, retries_end}
use shippy.Reservation.Manager.Outcomes.{failed_call_tries_again, successful_call_is_final}
use shippy.Reservation.Manager.Table.{Announced, cleanup_announces}

-- A cache that holds the data of at most one reservation, and is always up.
abbrev holds : Option ReservationInfo → String → Bool
holds none id = false
holds (some r) id = r.id == id

abbrev drop_data : String → Exec (Option ReservationInfo) Bool
drop_data id s = (ok (holds s id), if holds s id then none else s)

drop_data_lem :
    (id : String) (s : Option ReservationInfo) (b : Bool)
    → (drop_data id s).0 ≡ ok b
    → (b ≡ holds s id) × (holds (drop_data id s).1 id ≡ false)
drop_data_lem id none b h = (sym (ok_eq h), refl)
drop_data_lem id (some r) b h = (sym (ok_eq h), ground arith)

drop_data-gone :
    (id j : String) (s : Option ReservationInfo)
    → holds s j ≡ false
    → holds (drop_data id s).1 j ≡ false
drop_data-gone id j none h = refl
drop_data-gone id j (some r) h = ground arith

abbrev list_expired : Exec (Option ReservationInfo) (List ReservationInfo)
list_expired none = (ok [], none)
list_expired (some r) = (ok (r ∷ []), some r)

get_expired-gone :
    (j : String) (s : Option ReservationInfo)
    → holds s j ≡ false
    → holds (list_expired s).1 j ≡ false
get_expired-gone j none h = h
get_expired-gone j (some r) h = h

abbrev cache : ReservationCache
cache = record {
  State = Option ReservationInfo;
  has_data = holds;
  store = λ id r s. (ok tt, some (record r { id = id }));
  store_lem = λ id r s h. (eq_iff id id).1 refl;
  get_data = λ id s. elim s [ some r ↦ (ok r, some r) | none ↦ (err (errorf "not found"), none) ];
  get_expired = list_expired;
  delete_data = drop_data;
  delete_id = λ id s. (ok true, s);
  refresh = λ id s. (ok true, s);
  delete_data_lem = drop_data_lem;
  has_data-delete_id = λ id j s. refl;
  delete_data-gone = drop_data-gone;
  get_expired-gone = get_expired-gone;
}

-- A vessel service that answers so many more calls with an error, and counts the others.
record Vessels : Type 0 where
  pub failures : ℕ
  pub calls : ℕ

answer : ℕ → ℕ → Result ⊤ × Vessels
answer zero n = (ok tt, record { failures = zero; calls = suc n })
answer (suc k) n = (err (errorf "unavailable"), record { failures = k; calls = n })

abbrev vessel_cli : VesselClient
vessel_cli = record {
  State = Vessels;
  reserve_capacity = λ spec s. (err (errorf "unavailable"), s);
  release_capacity = λ req s. answer s.failures s.calls;
  confirm_capacity = λ req s. answer s.failures s.calls;
}

abbrev reservation : ReservationInfo
reservation = record {
  id = "r1";
  vessel_id = "v1";
  consignment_id = "c1";
  number_of_containers = pos 4;
  weight = pos 40;
}

abbrev message : ReservationInfoMessage
message = record {
  id = "r1";
  vessel_id = "v1";
  consignment_id = "c1";
  number_of_containers = pos 4;
  weight = pos 40;
}

abbrev event : CapacityEvent
event = record {
  action = confirm_action;
  reservation_info = some message;
  cache_cleared = false;
  retry_count = pos 0;
  consignment_id = "c1";
  payment_id = "p1";
  saga_started_at = none;
}

abbrev cleared : CapacityEvent
cleared = record event { cache_cleared = true }

abbrev Service : Type 0
Service = Manager wire cache outbox vessel_cli backoff

abbrev service : ℕ → Service
service failures = record {
  cache = some reservation;
  outbox = record { up = true; events = [] };
  vessel = record { failures = failures; calls = 0 };
}

-- Three failures are retried at once; the confirmation is then announced.
confirm_after_three :
    (process_capacity_event wire cache outbox vessel_cli backoff event (service 3)).1.vessel
    ≡ record { failures = 0; calls = 1 }
unfolding process_capacity_event call_vessel vessel_call confirmed publish_reservation_confirmed
    retry_loop answer capacity_request
confirm_after_three = refl

-- Four failures schedule the event again.
four_failures :
    (vessel_call wire cache outbox vessel_cli backoff confirm_action cleared (service 4)).0
    ≡ err (errorf "unavailable")
unfolding vessel_call retry_loop answer capacity_request
four_failures = refl

no_failure :
    (vessel_call wire cache outbox vessel_cli backoff confirm_action cleared (service 0)).0 ≡ ok tt
unfolding vessel_call retry_loop answer capacity_request
no_failure = refl

deleted_again :
    (process_capacity_event wire cache outbox vessel_cli backoff event (service 4)).1.cache ≡ none
unfolding process_capacity_event call_vessel vessel_call publish_retry_event publish_counted
    retry_loop answer capacity_request
deleted_again = refl

-- In between, the cleanup runs and the captured payment comes again.
abbrev processed : Service
processed = (process_capacity_event wire cache outbox vessel_cli backoff event (service 4)).1

abbrev cleaned : Service
cleaned = (release_reservations wire cache outbox vessel_cli backoff processed).1

abbrev again : Service
again = (handle_capacity_event wire cache outbox vessel_cli backoff (capacity event) cleaned).1

first_event_acts_alone_example :
    process_capacity_event wire cache outbox vessel_cli backoff event again
    ≡ (ok tt, record again { cache = (drop_data "r1" again.cache).1 })
first_event_acts_alone_example =
    first_event_acts_alone wire cache outbox vessel_cli backoff event event (service 4) again true
      (holds again.cache "r1") refl refl refl refl
      (step cleanup (step (capacity_step (capacity event)) done)) refl

retries_end_example :
    let r : Result ⊤ × Service =
      publish_retry_event wire cache outbox vessel_cli backoff (counted 2 event) (service 0) in
    (r.1.vessel ≡ (service 0).vessel)
    × (r.1.cache ≡ (service 0).cache)
    × (r.0 ≡ ok tt
        → Scheduled wire.capacity "reservation.capacity.failed" "r1-3"
            (counted 3 event)
            []
            r.1.outbox.events)
unfolding decimal
retries_end_example =
    retries_end wire cache outbox vessel_cli backoff 2 event (service 0) (omega arith)

failed_call_tries_again_example :
    let r : Result ⊤ × Service =
      process_capacity_event wire cache outbox vessel_cli backoff cleared (service 4) in
    (r.1.vessel
      ≡ (vessel_call wire cache outbox vessel_cli backoff confirm_action cleared
          (service 4)).1.vessel)
    × (r.0 ≡ ok tt
        → Scheduled wire.capacity
            (retry_topic (count_retry cleared))
            (retry_key (count_retry cleared))
            (count_retry cleared)
            []
            r.1.outbox.events)
failed_call_tries_again_example =
    failed_call_tries_again wire cache outbox vessel_cli backoff cleared (service 4)
      (errorf "unavailable") refl four_failures

successful_call_is_final_example :
    let r : Result ⊤ × Service =
      process_capacity_event wire cache outbox vessel_cli backoff cleared (service 0) in
    (r.0 ≡ ok tt)
    × (r.1.vessel
        ≡ (vessel_call wire cache outbox vessel_cli backoff confirm_action cleared
            (service 0)).1.vessel)
successful_call_is_final_example =
    successful_call_is_final wire cache outbox vessel_cli backoff cleared (service 0) refl
      no_failure

cleanup_announces_example :
    let r : Result ⊤ × Service =
      release_reservations wire cache outbox vessel_cli backoff (service 0) in
    (r.0 ≡ ok tt)
    × Announced wire cache outbox vessel_cli backoff (reservation ∷ []) (service 0) r.1
    × ((topic key : String)
        → IsPending {Bytes = Message} topic key []
        → IsPending topic key r.1.outbox.events)
cleanup_announces_example =
    cleanup_announces wire cache outbox vessel_cli backoff (service 0) (reservation ∷ []) refl
