-- ===== src/Vessel/Messages.antt =====
-- The messages of proto/vessel and the conversions of cmd/vessel-service/repository.go. A message's
-- numbers are of type `int32`; those of a stored vessel are of type `int`, and `int32(…)` wraps
-- them.
use shippy.Prelude.{ℤ, String, Bool, ◌≡◌, IsInt32, to_int32, to_int32-IsInt32, to_int32_of_IsInt32}
use shippy.Vessel.{Specification, CapacityRequest, Vessel}

pub record VesselMessage : Type 0 where
  pub id : String
  pub capacity : ℤ
  pub max_weight : ℤ
  pub reserved_weight : ℤ
  pub used_weight : ℤ
  pub reserved_capacity : ℤ
  pub used_capacity : ℤ
  pub name : String
  pub available : Bool

pub record SpecificationMessage : Type 0 where
  pub reservation_id : String
  pub weight : ℤ
  pub number_of_containers : ℤ

pub record CapacityRequestMessage : Type 0 where
  pub reservation_id : String
  pub vessel_id : String
  pub weight : ℤ
  pub number_of_containers : ℤ

unfoldable pub unmarshal_vessel : Vessel → VesselMessage
unmarshal_vessel vessel = record {
  id = vessel.id;
  capacity = to_int32 vessel.capacity;
  max_weight = to_int32 vessel.max_weight;
  reserved_weight = to_int32 vessel.reserved_weight;
  used_weight = to_int32 vessel.used_weight;
  reserved_capacity = to_int32 vessel.reserved_capacity;
  used_capacity = to_int32 vessel.used_capacity;
  name = vessel.name;
  available = vessel.available;
}

unfoldable pub marshal_vessel : VesselMessage → Vessel
marshal_vessel vessel = record {
  id = vessel.id;
  capacity = vessel.capacity;
  max_weight = vessel.max_weight;
  reserved_weight = vessel.reserved_weight;
  used_weight = vessel.used_weight;
  reserved_capacity = vessel.reserved_capacity;
  used_capacity = vessel.used_capacity;
  name = vessel.name;
  available = vessel.available;
}

unfoldable pub marshal_specification : SpecificationMessage → Specification
marshal_specification spec = record {
  reservation_id = spec.reservation_id;
  weight = spec.weight;
  number_of_containers = spec.number_of_containers;
}

unfoldable pub marshal_capacity_request : CapacityRequestMessage → CapacityRequest
marshal_capacity_request req = record {
  reservation_id = req.reservation_id;
  vessel_id = req.vessel_id;
  weight = req.weight;
  number_of_containers = req.number_of_containers;
}

-- Every number of the message is an `int32`.
pub record IsWire (m : VesselMessage) : Type 0 where
  pub capacity : IsInt32 m.capacity
  pub max_weight : IsInt32 m.max_weight
  pub reserved_weight : IsInt32 m.reserved_weight
  pub used_weight : IsInt32 m.used_weight
  pub reserved_capacity : IsInt32 m.reserved_capacity
  pub used_capacity : IsInt32 m.used_capacity

pub unmarshal_vessel-IsWire : (v : Vessel) → IsWire (unmarshal_vessel v)
unfolding unmarshal_vessel
unmarshal_vessel-IsWire v = record {
  capacity = to_int32-IsInt32 v.capacity;
  max_weight = to_int32-IsInt32 v.max_weight;
  reserved_weight = to_int32-IsInt32 v.reserved_weight;
  used_weight = to_int32-IsInt32 v.used_weight;
  reserved_capacity = to_int32-IsInt32 v.reserved_capacity;
  used_capacity = to_int32-IsInt32 v.used_capacity;
}

-- Every message that the service sends has numbers in the range of `int32`, and a vessel that came
-- in by a message and is stored goes out as the same message.
pub unmarshal-marshal :
    (v : Vessel) (m : VesselMessage)
    → IsWire m
    → IsWire (unmarshal_vessel v) × (unmarshal_vessel (marshal_vessel m) ≡ m)
unfolding unmarshal_vessel marshal_vessel
unmarshal-marshal v m w = (
  unmarshal_vessel-IsWire v,
  λ i. record {
    id = m.id;
    capacity = to_int32_of_IsInt32 m.capacity w.capacity i;
    max_weight = to_int32_of_IsInt32 m.max_weight w.max_weight i;
    reserved_weight = to_int32_of_IsInt32 m.reserved_weight w.reserved_weight i;
    used_weight = to_int32_of_IsInt32 m.used_weight w.used_weight i;
    reserved_capacity = to_int32_of_IsInt32 m.reserved_capacity w.reserved_capacity i;
    used_capacity = to_int32_of_IsInt32 m.used_capacity w.used_capacity i;
    name = m.name;
    available = m.available;
  },
)
