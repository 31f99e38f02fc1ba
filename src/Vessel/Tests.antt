-- ===== src/Vessel/Tests.antt =====
-- Runs of the vessel service over a database in memory, and its theorems at concrete vessels.
mod Memory
use shippy.Prelude.{
  int_laws, ℤ, pos, negsuc, String, true, false, ◌≡◌, refl, ◌⊎◌, inl, inr, List, [], ◌∷◌, arith, ok,
  err, is_ok, ◌+ℤ◌, ◌-ℤ◌, to_int32, eq_iff,
}
use shippy.Prelude.Collection.{All, total}
use shippy.Vessel.{Specification, CapacityRequest, Vessel, CapacityOperation, op_reserve}
use shippy.Vessel.Database.{Contents, IsRecorded}
use shippy.Vessel.Messages.{
  VesselMessage, IsWire, unmarshal_vessel, marshal_vessel, unmarshal-marshal,
}
use shippy.Vessel.Repository.{
  has_room, reserve, release, confirm, reserve_capacity, reserve_recorded, original_vessel,
  abort_with, apply_update, apply_once, release_capacity, confirm_capacity,
}
use shippy.Vessel.Repository.Reserve.{ReserveEffect, IsOriginal, reserve_capacity-effect}
use shippy.Vessel.Repository.Apply.{ApplyEffect, apply_once-effect}
use shippy.Vessel.Repository.Capacity.{
  Call, reserving, releasing, confirming, creating, expiring, calls, IsSound, calls-IsSound,
}
use shippy.Vessel.Repository.Limits.{load, used, retry_of_filling_fails, release_after_confirm}
use Memory.{Store, memory, update_first, find_first, not_expired}

-- Ten containers and a weight of a hundred, of which six and sixty are free.
abbrev ship : Vessel
ship = record {
  id = "v1";
  capacity = pos 10;
  max_weight = pos 100;
  reserved_weight = pos 30;
  used_weight = pos 10;
  reserved_capacity = pos 3;
  used_capacity = pos 1;
  name = "Kane";
  available = true;
}

abbrev port : Contents
port = record { vessels = ship ∷ []; capacity_ops = [] }

abbrev start : Store
start = record { committed = port; working = port }

abbrev now : ℤ
now = pos 60

abbrev spec : Specification
spec = record { reservation_id = "r1"; weight = pos 40; number_of_containers = pos 4 }

abbrev request : CapacityRequest
request = record {
  reservation_id = "r1";
  vessel_id = "v1";
  weight = pos 40;
  number_of_containers = pos 4;
}

abbrev reserved : Vessel
reserved = record ship { reserved_weight = pos 70; reserved_capacity = pos 7 }

reserve_start : (reserve_capacity memory now spec start).0 ≡ ok reserved
unfolding reserve_capacity reserve_recorded has_room reserve update_first find_first ◌+ℤ◌ ◌-ℤ◌
reserve_start = refl

full_after :
    All (λ x. has_room spec x ≡ false) (reserve_capacity memory now spec start).1.committed.vessels
unfolding reserve_capacity reserve_recorded has_room reserve update_first find_first ◌+ℤ◌ ◌-ℤ◌
full_after = (refl, tt)

confirm_ok :
    is_ok (confirm_capacity memory now request (reserve_capacity memory now spec start).1).0 ≡ true
unfolding reserve_capacity reserve_recorded has_room reserve update_first find_first apply_once
    apply_update confirm ◌+ℤ◌ ◌-ℤ◌
confirm_ok = refl

release_ok :
    is_ok
      (release_capacity memory now request
        (confirm_capacity memory now request (reserve_capacity memory now spec start).1).1).0
    ≡ true
unfolding reserve_capacity reserve_recorded has_room reserve update_first find_first apply_once
    apply_update confirm release ◌+ℤ◌ ◌-ℤ◌
release_ok = refl

reserve_capacity-effect_example :
    ReserveEffect now spec port
      (reserve_capacity memory now spec start).1.committed
      (reserve_capacity memory now spec start).0
reserve_capacity-effect_example = reserve_capacity-effect memory now spec start

calls-IsSound_example :
    IsSound
      (calls memory
        (reserving now spec
          ∷ confirming now request
          ∷ releasing now request
          ∷ creating ship
          ∷ expiring (pos 5000000)
          ∷ [])
        start).committed
calls-IsSound_example =
    calls-IsSound memory
      (reserving now spec
        ∷ confirming now request
        ∷ releasing now request
        ∷ creating ship
        ∷ expiring (pos 5000000)
        ∷ [])
      start (omega int_laws) (record { within = omega int_laws; unique = tt })

-- After 30 days the release of the same reservation goes through once more.
released : Store
released = (release_capacity memory now request start).1

released_again :
    ((release_capacity memory
        (pos 2591999)
        request
        (memory.expire (pos 2591999) released)).1.committed.vessels
      ≡ released.committed.vessels)
    × ((release_capacity memory
          (pos 2600000)
          request
          (memory.expire (pos 2600000) released)).1.committed.vessels
        ≡ record ship { reserved_weight = negsuc 49; reserved_capacity = negsuc 4 } ∷ [])
unfolding released apply_once apply_update release update_first find_first not_expired ◌+ℤ◌ ◌-ℤ◌
released_again = (refl, refl)

retry_of_filling_fails_example :
    IsRecorded "r1" op_reserve (reserve_capacity memory now spec start).1.committed.capacity_ops
    × (is_ok (reserve_capacity memory now spec (reserve_capacity memory now spec start).1).0
        ≡ false)
retry_of_filling_fails_example =
    retry_of_filling_fails memory now now spec start reserved reserve_start full_after

release_after_confirm_example :
    let d3 : Store =
      (release_capacity memory now request
        (confirm_capacity memory now request (reserve_capacity memory now spec start).1).1).1 in
    (total load d3.committed.vessels ≡ total load port.vessels)
    × (total used d3.committed.vessels ≡ total used port.vessels +ℤ pos 40)
release_after_confirm_example =
    release_after_confirm memory now now now spec request start reserved refl refl (λ o h. h)
      reserve_start confirm_ok release_ok
