-- ===== src/Vessel/Repository/Capacity.antt =====
-- The capacity of the vessels under any history of calls of the repository
-- (cmd/vessel-service/repository.go).
use shippy.Prelude.{
  pos, ◌+ℤ◌, ◌≤ℤ◌, int_laws, String, true, ◌≡◌, sym, subst, inl, inr, List, [], ◌∷◌, Result, ok,
  err, ⊤, ℤ,
}
use shippy.Prelude.Collection.{All, Updates-All, Sublist, empty, keep, skip}
use shippy.Vessel.{
  Specification, CapacityRequest, Vessel, CapacityOperation, op_release, op_confirm,
}
use shippy.Vessel.Database.{Contents, IsRecorded, Database}
use shippy.Vessel.Repository.{
  has_room, reserve, release, confirm, reserve_capacity, release_capacity, confirm_capacity, create,
}
use shippy.Vessel.Repository.Reserve.{Reserves, ReserveEffect, reserve_capacity-effect}
use shippy.Vessel.Repository.Apply.{Applies, ApplyEffect, apply_once-effect}

-- What is reserved and used on the vessel fits into it.
pub record IsWithin (v : Vessel) : Type 0 where
  pub containers_fit : v.reserved_capacity +ℤ v.used_capacity ≤ℤ v.capacity
  pub weight_fits : v.reserved_weight +ℤ v.used_weight ≤ℤ v.max_weight

reserve-IsWithin :
    (spec : Specification) (v : Vessel)
    → has_room spec v ≡ true
    → IsWithin v
    → IsWithin (reserve spec v)
unfolding has_room reserve
reserve-IsWithin spec v h w = grind int_laws

confirm-IsWithin : (req : CapacityRequest) (v : Vessel) → IsWithin v → IsWithin (confirm req v)
unfolding confirm
confirm-IsWithin req v w = omega int_laws

release-IsWithin :
    (req : CapacityRequest) (v : Vessel)
    → pos 0 ≤ℤ req.weight
    → pos 0 ≤ℤ req.number_of_containers
    → IsWithin v
    → IsWithin (release req v)
unfolding release
release-IsWithin req v p q w = omega int_laws

-- No operation is recorded twice for a reservation.
abbrev pub IsUnique : List CapacityOperation → Type 0
IsUnique [] = Unit
IsUnique (o ∷ os) = (IsRecorded o.reservation_id o.operation os → ⊥) × IsUnique os

Sublist-IsRecorded :
    (r o : String) {os os' : List CapacityOperation}
    → Sublist os os'
    → IsRecorded r o os
    → IsRecorded r o os'
Sublist-IsRecorded r o empty h = h
Sublist-IsRecorded r o (keep s) (inl h) = inl h
Sublist-IsRecorded r o (keep s) (inr h) = inr (Sublist-IsRecorded r o s h)
Sublist-IsRecorded r o (skip s) h = inr (Sublist-IsRecorded r o s h)

Sublist-IsUnique : {os os' : List CapacityOperation} → Sublist os os' → IsUnique os' → IsUnique os
Sublist-IsUnique empty u = u
Sublist-IsUnique (keep {x = x} s) u =
    (λ h. u.0 (Sublist-IsRecorded x.reservation_id x.operation s h), Sublist-IsUnique s u.1)
Sublist-IsUnique (skip s) u = Sublist-IsUnique s u.1

pub record IsSound (c : Contents) : Type 0 where
  pub within : All IsWithin c.vessels
  pub unique : IsUnique c.capacity_ops

Reserves-IsSound :
    (now : ℤ) (spec : Specification) (c c' : Contents) (v : Vessel)
    → Reserves now spec c c' v
    → IsSound c
    → IsSound c'
Reserves-IsSound now spec c c' v r s = record {
  within = (Updates-All IsWithin (reserve-IsWithin spec) r.updated s.within).0;
  unique = subst IsUnique (sym r.recorded) (r.is_new, s.unique);
}

Applies-IsSound :
    (now : ℤ) (operation : String) (change : Vessel → Vessel) (req : CapacityRequest)
    (c c' : Contents)
    → ((v : Vessel) → IsWithin v → IsWithin (change v))
    → Applies now operation change req c c'
    → IsSound c
    → IsSound c'
Applies-IsSound now operation change req c c' still a s = record {
  within = (Updates-All IsWithin (λ v _. still v) a.updated s.within).0;
  unique = subst IsUnique (sym a.recorded) (a.is_new, s.unique);
}

ReserveEffect-IsSound :
    (now : ℤ) (spec : Specification) (c c' : Contents) (r : Result Vessel)
    → ReserveEffect now spec c c' r
    → IsSound c
    → IsSound c'
ReserveEffect-IsSound now spec c c' (ok v) (inl e) s = Reserves-IsSound now spec c c' v e s
ReserveEffect-IsSound now spec c c' (ok v) (inr e) s = subst IsSound (sym e.0) s
ReserveEffect-IsSound now spec c c' (err _) (inl e) s = subst IsSound (sym e) s
ReserveEffect-IsSound now spec c c' (err _) (inr (v, e)) s = Reserves-IsSound now spec c c' v e s

ApplyEffect-IsSound :
    (now : ℤ) (operation : String) (change : Vessel → Vessel) (req : CapacityRequest)
    (c c' : Contents)
    → ((v : Vessel) → IsWithin v → IsWithin (change v))
    → (r : Result ⊤) → ApplyEffect now operation change req c c' r
    → IsSound c
    → IsSound c'
ApplyEffect-IsSound now operation change req c c' still (ok _) (inl a) s =
    Applies-IsSound now operation change req c c' still a s
ApplyEffect-IsSound now operation change req c c' still (ok _) (inr e) s = subst IsSound (sym e.0) s
ApplyEffect-IsSound now operation change req c c' still (err _) (inl e) s = subst IsSound (sym e) s
ApplyEffect-IsSound now operation change req c c' still (err _) (inr a) s =
    Applies-IsSound now operation change req c c' still a s

-- A call of the repository, as its clients make them, with its time, or the server drops operations.
pub data Call : Type 0 where
  reserving : ℤ → Specification → Call
  releasing confirming : ℤ → CapacityRequest → Call
  creating : Vessel → Call
  expiring : ℤ → Call

-- What the messages are meant to hold: no release of a negative amount, and a new vessel that is
-- not overloaded.
abbrev pub IsReasonable : Call → Type 0
IsReasonable (reserving now spec) = Unit
IsReasonable (releasing now req) = (pos 0 ≤ℤ req.weight) × (pos 0 ≤ℤ req.number_of_containers)
IsReasonable (confirming now req) = Unit
IsReasonable (creating v) = IsWithin v
IsReasonable (expiring t) = Unit

module _ (db : Database) where
  open db use {Db, committed, insert_vessel}

  abbrev pub call : Call → Db → Db
  call (reserving now spec) d = (reserve_capacity db now spec d).1
  call (releasing now req) d = (release_capacity db now req d).1
  call (confirming now req) d = (confirm_capacity db now req d).1
  call (creating v) d = (create db v d).1
  call (expiring t) d = db.expire t d

  unfoldable pub calls : List Call → Db → Db
  calls [] d = d
  calls (k ∷ ks) d = calls ks (call k d)

  create-IsSound :
      (v : Vessel) (d : Db)
      → IsWithin v
      → IsSound (committed d)
      → IsSound (committed (insert_vessel v d).1)
  create-IsSound v d w s = elim (db.insert_vessel_lem v d) [
    | inl same ↦ subst IsSound (sym same) s
    | inr added ↦ subst IsSound (sym added) (record { within = (w, s.within); unique = s.unique })
  ]

  call-IsSound :
      (k : Call) (d : Db) → IsReasonable k → IsSound (committed d) → IsSound (committed (call k d))
  call-IsSound (reserving now spec) d h s =
      ReserveEffect-IsSound now spec (committed d) _ _ (reserve_capacity-effect db now spec d) s
  call-IsSound (releasing now req) d h s =
      ApplyEffect-IsSound now op_release (release req) req (committed d) _
        (λ v. release-IsWithin req v h.0 h.1) _
        (apply_once-effect db now op_release "failed to release capacity" (release req) req d) s
  call-IsSound (confirming now req) d h s =
      ApplyEffect-IsSound now op_confirm (confirm req) req (committed d) _ (confirm-IsWithin req) _
        (apply_once-effect db now op_confirm "failed to confirm capacity" (confirm req) req d) s
  call-IsSound (creating v) d h s = create-IsSound v d h s
  call-IsSound (expiring t) d h s =
      let (vessels, kept, _) = db.expire_lem t d in
      record {
        within = subst (All IsWithin) (sym vessels) s.within;
        unique = Sublist-IsUnique kept s.unique;
      }

  -- After any calls, failed ones and retries included, and where old operations are dropped, no vessel is overloaded in what is
  -- committed, and no operation is recorded twice for a reservation. The releases are of no
  -- negative amount, and the new vessels are not overloaded.
  pub calls-IsSound :
      (ks : List Call) (d : Db)
      → All IsReasonable ks
      → IsSound (committed d)
      → IsSound (committed (calls ks d))
  unfolding calls
  calls-IsSound [] d h s = s
  calls-IsSound (k ∷ ks) d h s = calls-IsSound ks (call k d) h.1 (call-IsSound k d h.0 s)
