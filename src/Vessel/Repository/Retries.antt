-- ===== src/Vessel/Repository/Retries.antt =====
-- Repeated calls of cmd/vessel-service/repository.go: what is applied once.
use shippy.Prelude.{
  ℤ, String, true, false, ◌≡◌, sym, subst, ◌⊎◌, inl, inr, eq_refl, List, arith, Result, ok, ⊤,
}
use shippy.Prelude.Collection.{All, Any, Any-map}
use shippy.Vessel.{Specification, CapacityRequest, Vessel, CapacityOperation, op_reserve}
use shippy.Vessel.Database.{Contents, IsRecorded, is_operation, is_expired, Database}
use shippy.Vessel.Repository.Reserve.{ReserveEffect}
use shippy.Vessel.Repository.Apply.{operation_of}
use shippy.Vessel.Repository.Capacity.{Call, expiring, calls}

-- An entry of the operations.
abbrev pub Entry : CapacityOperation → Contents → Type 0
Entry o c = Any (λ x. x ≡ o) c.capacity_ops

pub ReserveEffect-ok :
    (now : ℤ) (spec : Specification) (c c' : Contents) (v : Vessel)
    → ReserveEffect now spec c c' (ok v)
    → IsRecorded spec.reservation_id op_reserve c'.capacity_ops
ReserveEffect-ok now spec c c' v (inl e) =
    subst (IsRecorded spec.reservation_id op_reserve) (sym e.recorded)
      (inl (ground (arith, eq_refl spec.reservation_id, eq_refl op_reserve)))
ReserveEffect-ok now spec c c' v (inr e) =
    subst (λ k. IsRecorded spec.reservation_id op_reserve k.capacity_ops) (sym e.0)
      (Any-map (λ x. (x ≡ e.1.op) × (is_operation spec.reservation_id op_reserve x ≡ true)) _
        (λ x p. p.1) c.capacity_ops e.1.is_recorded)

-- The passes of the server come before the entry is old enough.
abbrev pub IsInTime : CapacityOperation → Call → Type 0
IsInTime o (expiring t) = is_expired t o ≡ false
IsInTime o _ = Unit

module _ (db : Database) where
  open db use {Db, committed}

  -- What a success of `m` leaves: an entry of the operation, made at `now` by this call or there before
  -- it, and as long as the server cannot drop it, a later call `m'` of the same operation commits nothing.
  abbrev pub AppliedOnce :
      ℤ → String → CapacityRequest → (Db → Result ⊤ × Db) → (Db → Result ⊤ × Db) → Db → Type 0
  AppliedOnce now operation req m m' d =
      (o : CapacityOperation) × (is_operation req.reservation_id operation o ≡ true)
      × ((o ≡ operation_of now operation req) ⊎ Entry o (committed d))
      × ((ks : List Call)
          → All (IsInTime o) ks
          → let d' = calls db ks (m d).1 in committed (m' d').1 ≡ committed d')
