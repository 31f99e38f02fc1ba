-- ===== src/Reservation.antt =====
-- The reservation service (cmd/reservation-service): its data and the interfaces between its parts
-- (storage/types.go, storage/interfaces.go, and the client of proto/vessel).
pub mod Manager
pub mod Server
pub mod Redis
pub mod Cache
pub mod Postgres
use shippy.Prelude.{ℤ, String, Bool, true, false, Option, List, ◌≡◌, ◌≢◌, Result, ok, Exec, ⊤}
use shippy.Vessel.Messages.{VesselMessage, SpecificationMessage, CapacityRequestMessage}

-- A `uuid.UUID` is its canonical text.
pub record ReservationInfo : Type 0 where
  pub id : String
  pub vessel_id : String
  pub consignment_id : String
  pub number_of_containers : ℤ
  pub weight : ℤ

-- `has_data s id`: the data of the reservation `id` is in the cache.
pub record ReservationCache : Type 1 where
  pub State : Type 0
  pub has_data : State → String → Bool
  pub store : String → ReservationInfo → Exec State ⊤
  pub get_data : String → Exec State ReservationInfo
  pub get_expired : Exec State (List ReservationInfo)
  pub delete_data : String → Exec State Bool
  pub delete_id : String → Exec State Bool
  pub refresh : String → Exec State Bool
  pub store_lem :
      (id : String) (r : ReservationInfo) (s : State)
      → (store id r s).0 ≡ ok tt
      → has_data (store id r s).1 id ≡ true
  pub delete_data_lem :
      (id : String) (s : State) (b : Bool)
      → (delete_data id s).0 ≡ ok b
      → (b ≡ has_data s id) × (has_data (delete_data id s).1 id ≡ false)
  pub has_data-delete_id :
      (id j : String) (s : State) → has_data (delete_id id s).1 j ≡ has_data s j
  -- Data that is gone stays gone, but for `store`.
  pub delete_data-gone :
      (id j : String) (s : State) → has_data s j ≡ false → has_data (delete_data id s).1 j ≡ false
  pub get_expired-gone :
      (j : String) (s : State) → has_data s j ≡ false → has_data (get_expired s).1 j ≡ false

-- `vesselpb.VesselServiceClient`: a call may fail whatever the service did.
pub record VesselClient : Type 1 where
  pub State : Type 0
  pub reserve_capacity : SpecificationMessage → Exec State VesselMessage
  pub release_capacity : CapacityRequestMessage → Exec State ⊤
  pub confirm_capacity : CapacityRequestMessage → Exec State ⊤
