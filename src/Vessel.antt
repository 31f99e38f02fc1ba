-- ===== src/Vessel.antt =====
-- The data of the vessel service (cmd/vessel-service/repository.go) and their conversions from and
-- to the messages of proto/vessel. Go's `int` is an integer; `int32(…)` keeps its wrap-around.
pub mod Database
pub mod Repository
pub mod Messages
pub mod Handler
mod Tests
use shippy.Prelude.{ℤ, pos, String, Bool}

pub record Specification : Type 0 where
  pub reservation_id : String
  pub weight : ℤ
  pub number_of_containers : ℤ

pub record CapacityRequest : Type 0 where
  pub reservation_id : String
  pub vessel_id : String
  pub weight : ℤ
  pub number_of_containers : ℤ

pub record Vessel : Type 0 where
  pub id : String
  pub capacity : ℤ
  pub max_weight : ℤ
  pub reserved_weight : ℤ
  pub used_weight : ℤ
  pub reserved_capacity : ℤ
  pub used_capacity : ℤ
  pub name : String
  pub available : Bool

-- Times are numbers of seconds.
pub record CapacityOperation : Type 0 where
  pub reservation_id : String
  pub operation : String
  pub vessel_id : String
  pub created_at : ℤ

-- `SetupIndexes`: the database may drop an entry that is this old, 30 days.
abbrev pub expire_after_seconds : ℤ
expire_after_seconds = pos 2592000

abbrev pub op_reserve : String
op_reserve = "reserve"

abbrev pub op_release : String
op_release = "release"

abbrev pub op_confirm : String
op_confirm = "confirm"
