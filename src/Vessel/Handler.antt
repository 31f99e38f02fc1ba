-- ===== src/Vessel/Handler.antt =====
-- The gRPC handler of the vessel service (cmd/vessel-service/handler.go) over its interface
-- `repository`.
use shippy.Prelude.{
  ℤ, Bool, true, false, Exec, status, not_found, internal, is_no_vessel_available, ⊤, pure, raise,
  on_error, if◌then◌else◌,
}
use shippy.Vessel.{Specification, CapacityRequest, Vessel}
use shippy.Vessel.Messages.{
  VesselMessage, SpecificationMessage, CapacityRequestMessage, unmarshal_vessel, marshal_vessel,
  marshal_specification, marshal_capacity_request,
}
use shippy.Vessel.Database.{Database}
use shippy.Vessel.Repository

pub record VesselRepository : Type 1 where
  pub State : Type 0
  pub reserve_capacity : Specification → Exec State Vessel
  pub release_capacity : CapacityRequest → Exec State ⊤
  pub confirm_capacity : CapacityRequest → Exec State ⊤
  pub create : Vessel → Exec State ⊤

-- `MongoRepository` fills the interface, for a call at the time `now`.
abbrev pub mongo_repository : Database → ℤ → VesselRepository
mongo_repository db now = record {
  State = db.Db;
  reserve_capacity = Repository.reserve_capacity db now;
  release_capacity = Repository.release_capacity db now;
  confirm_capacity = Repository.confirm_capacity db now;
  create = Repository.create db;
}

pub record Response : Type 0 where
  pub vessel : VesselMessage
  pub created : Bool

module _ (repo : VesselRepository) where
  open repo use {State}

  unfoldable pub handle_create : VesselMessage → Exec State Response
  handle_create req =
      on_error (repo.create (marshal_vessel req)) (λ e. raise (status internal))
        (λ _. pure (record { vessel = req; created = true }))

  unfoldable pub handle_reserve_capacity : SpecificationMessage → Exec State Response
  handle_reserve_capacity req =
      on_error (repo.reserve_capacity (marshal_specification req))
        (λ e. raise (status (if is_no_vessel_available e then not_found else internal)))
        (λ vessel. pure (record { vessel = unmarshal_vessel vessel; created = false }))

  unfoldable pub handle_release_capacity : CapacityRequestMessage → Exec State ⊤
  handle_release_capacity req =
      on_error (repo.release_capacity (marshal_capacity_request req)) (λ e. raise (status internal))
        pure

  unfoldable pub handle_confirm_capacity : CapacityRequestMessage → Exec State ⊤
  handle_confirm_capacity req =
      on_error (repo.confirm_capacity (marshal_capacity_request req)) (λ e. raise (status internal))
        pure
