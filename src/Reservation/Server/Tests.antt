-- ===== src/Reservation/Server/Tests.antt =====
-- The calls of the reservation service at concrete requests, with a cache in memory and a vessel
-- service that counts.
use shippy.Prelude.{
  ◌⊎◌, ℕ, zero, suc, pos, String, Bool, true, false, Option, none, some, if◌then◌else◌, ◌==◌,
  eq_iff, arith, ◌≡◌, refl, sym, Result, ok, err, Error, errorf, redis_nil, ok_eq, ⊤, List,
}
use shippy.Testing.{backoff, retry_loop}
use shippy.Consignment.Messages.{ReserveCapacityRequest, ReservationResponse}
use shippy.Vessel.Messages.{VesselMessage}
use shippy.Reservation.{ReservationInfo, ReservationCache, VesselClient}
use shippy.Reservation.Server.{Handler, reserve_call, reserve_capacity, cache_reservation}
use shippy.Reservation.Server.Calls.{Kept, LeftAlone, GivenBack, reserve_capacity-outcome}

-- A cache of at most one reservation, which stores while it is up.
record Cached : Type 0 where
  pub up : Bool
  pub data_of : Option ReservationInfo

abbrev holds : Option ReservationInfo → String → Bool
holds none id = false
holds (some r) id = r.id == id

abbrev drop_data : String → Option ReservationInfo → Option ReservationInfo
drop_data id s = if holds s id then none else s

drop_data_lem : (id : String) (s : Option ReservationInfo) → holds (drop_data id s) id ≡ false
drop_data_lem id none = refl
drop_data_lem id (some r) = ground arith

store_data : Bool → String → ReservationInfo → Option ReservationInfo → Result ⊤ × Cached
store_data true id r s = (ok tt, record { up = true; data_of = some (record r { id = id }) })
store_data false id r s = (err (errorf "down"), record { up = false; data_of = s })

store_data_lem :
    (up : Bool) (id : String) (r : ReservationInfo) (s : Option ReservationInfo)
    → (store_data up id r s).0 ≡ ok tt
    → holds (store_data up id r s).1.data_of id ≡ true
unfolding store_data
store_data_lem true id r s h = (eq_iff id id).1 refl
store_data_lem false id r s h = cc

drop_data-gone :
    (id j : String) (s : Option ReservationInfo)
    → holds s j ≡ false
    → holds (drop_data id s) j ≡ false
drop_data-gone id j none h = refl
drop_data-gone id j (some r) h = ground arith

abbrev cache : ReservationCache
cache = record {
  State = Cached;
  has_data = λ s id. holds s.data_of id;
  store = λ id r s. store_data s.up id r s.data_of;
  get_data = λ id s. elim s.data_of [ some r ↦ (ok r, s) | none ↦ (err redis_nil, s) ];
  get_expired = λ s. (ok List.[], s);
  delete_data = λ id s. (ok (holds s.data_of id), record s { data_of = drop_data id s.data_of });
  delete_id = λ id s. (ok true, s);
  refresh = λ id s. (ok true, s);
  store_lem = λ id r s h. store_data_lem s.up id r s.data_of h;
  delete_data_lem = λ id s b h. (sym (ok_eq h), drop_data_lem id s.data_of);
  has_data-delete_id = λ id j s. refl;
  delete_data-gone = λ id j s h. drop_data-gone id j s.data_of h;
  get_expired-gone = λ j s h. h;
}

abbrev vessel : VesselMessage
vessel = record {
  id = "v1";
  capacity = pos 9;
  max_weight = pos 90;
  name = "Sea";
  reserved_weight = pos 40;
  reserved_capacity = pos 4;
  used_weight = pos 0;
  used_capacity = pos 0;
  available = true;
}

-- The number of the reservations less the releases.
abbrev vessel_cli : VesselClient
vessel_cli = record {
  State = ℕ;
  reserve_capacity = λ spec n. (ok vessel, suc n);
  release_capacity = λ req n. elim n [ zero ↦ (err (errorf "none"), zero) | suc m ↦ (ok tt, m) ];
  confirm_capacity = λ req n. (ok tt, n);
}

abbrev parse : String → Result String
parse s = if s == "" then err (errorf "invalid UUID") else ok s

abbrev Service : Type 0
Service = Handler cache vessel_cli backoff parse

abbrev service : Bool → Option ReservationInfo → Service
service up s = record { cache = record { up = up; data_of = s }; vessel = 0 }

abbrev request : String → ReserveCapacityRequest
request id = record { consignment_id = id; weight = pos 40; number_of_containers = pos 4 }

abbrev reservation : ReservationInfo
reservation = record {
  id = "r1";
  vessel_id = "v1";
  consignment_id = "c1";
  number_of_containers = pos 4;
  weight = pos 40;
}

-- A cache that is down makes the service give the capacity back.
given_back :
    (reserve_capacity cache vessel_cli backoff parse "r1"
      (request "c1")
      (service false none)).1.vessel
    ≡ 0
unfolding reserve_capacity cache_reservation store_data retry_loop
given_back = refl

kept :
    (reserve_capacity cache vessel_cli backoff parse "r1"
      (request "c1")
      (service true none)).1.vessel
    ≡ 1
unfolding reserve_capacity cache_reservation store_data retry_loop
kept = refl

reserve_capacity-outcome_example :
    let w : Service = service false none in
    let reserved = reserve_call cache vessel_cli backoff parse "r1" (request "c1") w in
    let r = reserve_capacity cache vessel_cli backoff parse "r1" (request "c1") w in
    ((response : ReservationResponse)
      → r.0 ≡ ok response
      → Kept cache vessel_cli backoff parse "r1" (request "c1") reserved response r.1)
    × ((x : Error)
        → r.0 ≡ err x
        → LeftAlone cache vessel_cli backoff parse (request "c1") reserved r.1
          ⊎ GivenBack cache vessel_cli backoff parse "r1" (request "c1") reserved r.1)
reserve_capacity-outcome_example =
    reserve_capacity-outcome cache vessel_cli backoff parse "r1" (request "c1") (service false none)

-- An id that cannot be read leaves the reservation at the vessel service.
unreadable_stays :
    (reserve_capacity cache vessel_cli backoff parse "r1" (request "") (service true none)).1
    ≡ record { cache = record { up = true; data_of = none }; vessel = 1 }
unfolding reserve_capacity cache_reservation store_data retry_loop
unreadable_stays = refl
