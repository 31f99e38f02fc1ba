-- ===== src/Reservation/Server.antt =====
-- The gRPC handler of the reservation service (cmd/reservation-service/server/handler.go). Logging is
-- left out.
pub mod Calls
mod Tests
use shippy.Prelude.{
  ℕ, ℤ, to_int32, String, Bool, true, false, if◌then◌else◌, Error, errorf, status, not_found,
  internal, is_redis_nil, Result, ⊤, Exec, pure, raise, lift, on_error, with_text, ignore, ◌>>=◌,
  ◌>>◌,
}
use shippy.Prelude.Backoff.{Backoff}
use shippy.Consignment.Messages.{ReserveCapacityRequest, ReservationResponse}
use shippy.Vessel.Messages.{VesselMessage, SpecificationMessage, CapacityRequestMessage}
use shippy.Reservation.{ReservationInfo, ReservationCache, VesselClient}

-- The bound of every `backoff.WithMaxRetries` of this file.
abbrev pub retries : ℕ
retries = 3

-- What a `GRPCHandler` acts on.
pub record World (Cache Vessel : Type 0) : Type 0 where
  pub cache : Cache
  pub vessel : Vessel

unfoldable pub specification : String → ReserveCapacityRequest → SpecificationMessage
specification reservation_id req = record {
  number_of_containers = req.number_of_containers;
  weight = req.weight;
  reservation_id = reservation_id;
}

-- The release that undoes a reservation.
unfoldable pub compensation : String → String → ReserveCapacityRequest → CapacityRequestMessage
compensation reservation_id vessel_id req = record {
  reservation_id = reservation_id;
  vessel_id = vessel_id;
  weight = req.weight;
  number_of_containers = req.number_of_containers;
}

unfoldable pub request_of : ReservationInfo → CapacityRequestMessage
request_of r = record {
  reservation_id = r.id;
  vessel_id = r.vessel_id;
  weight = to_int32 r.weight;
  number_of_containers = to_int32 r.number_of_containers;
}

unfoldable pub cached : String → String → String → ReserveCapacityRequest → ReservationInfo
cached reservation_id vessel_id consignment_id req = record {
  id = reservation_id;
  vessel_id = vessel_id;
  consignment_id = consignment_id;
  number_of_containers = req.number_of_containers;
  weight = req.weight;
}

-- The code for data that could not be read.
abbrev pub get_code : Error → Error
get_code e = if is_redis_nil e then status not_found else status internal

-- `parse` is `uuid.Parse`, which yields the canonical text.
module _ (cache : ReservationCache) (vessel_cli : VesselClient) (backoff : Backoff)
    (parse : String → Result String) where
  abbrev pub Handler : Type 0
  Handler = World cache.State vessel_cli.State

  abbrev pub on_cache : {A : Type 0} → Exec cache.State A → Exec Handler A
  on_cache m w = ((m w.cache).0, record w { cache = (m w.cache).1 })

  abbrev pub on_vessel : {A : Type 0} → Exec vessel_cli.State A → Exec Handler A
  on_vessel m w = ((m w.vessel).0, record w { vessel = (m w.vessel).1 })

  -- The reservation at the vessel service. An error with the code of `NotFound` is permanent, that
  -- is, it ends the retries.
  abbrev pub reserve_call : String → ReserveCapacityRequest → Exec Handler VesselMessage
  reserve_call reservation_id req =
      backoff.retry retries
        (on_vessel (vessel_cli.reserve_capacity (specification reservation_id req)))

  abbrev pub release_call : CapacityRequestMessage → Exec Handler ⊤
  release_call req = backoff.retry retries (on_vessel (vessel_cli.release_capacity req))

  -- After the reservation: the ids, the cache, and the release where the cache fails.
  unfoldable pub cache_reservation :
      String → ReserveCapacityRequest → VesselMessage → Exec Handler ReservationResponse
  cache_reservation reservation_id req vessel = do
    vessel_id ← with_text "failed to convert vessel ID to uuid" (lift (parse vessel.id))
    consignment_id ←
        with_text "failed to convert consignment ID to uuid" (lift (parse req.consignment_id))
    on_error
        (on_cache (cache.store reservation_id (cached reservation_id vessel_id consignment_id req)))
        (λ e.
          ignore (release_call (compensation reservation_id vessel.id req))
          >> raise (Error.wrap "failed to cache reservation" e))
        (λ _. pure (record { id = reservation_id; reserved = true; vessel_id = vessel_id }))

  -- `reservation_id` is what `uuid.New()` returned.
  unfoldable pub reserve_capacity :
      String → ReserveCapacityRequest → Exec Handler ReservationResponse
  reserve_capacity reservation_id req =
      with_text "vessel ReserveCapacity failed" (reserve_call reservation_id req)
      >>= cache_reservation reservation_id req

  abbrev get_data : String → Exec Handler ReservationInfo
  get_data id = on_error (on_cache (cache.get_data id)) (λ e. raise (get_code e)) pure

  unfoldable pub release_capacity : String → Exec Handler ⊤
  release_capacity id = do
    r ← get_data id
    with_text "vessel ReleaseCapacity failed"
        (on_vessel (vessel_cli.release_capacity (request_of r)))
    ignore (on_cache (cache.delete_data r.id)) >> ignore (on_cache (cache.delete_id r.id))

  abbrev pub delete_call : ReservationInfo → Exec Handler Bool
  delete_call r = backoff.retry retries (on_cache (cache.delete_data r.id))

  unfoldable pub confirm_capacity : String → Exec Handler ⊤
  confirm_capacity id = do
    r ← get_data id
    with_text "vessel ConfirmCapacity failed"
        (on_vessel (vessel_cli.confirm_capacity (request_of r)))
    ignore (delete_call r) >> ignore (on_cache (cache.delete_id r.id))

  unfoldable pub refresh_reservation : String → Exec Handler ⊤
  refresh_reservation id =
      on_error (on_cache (cache.refresh id)) (λ _. raise (status internal))
        (λ refreshed. if refreshed then pure tt else raise (status not_found))
