-- ===== src/Vessel/Repository/Limits.antt =====
-- Two orders of calls for which cmd/vessel-service/repository.go does not do what its comments
-- say: a retried reservation that has filled the vessel, and a release after a confirmation.
use shippy.Prelude.{
  ℤ, pos, ◌+ℤ◌, ◌-ℤ◌, int_laws, String, true, false, ◌≡◌, ◌≢◌, ◌∙◌, sym, ap, subst, inl, inr, List,
  ◌∷◌, arith, eq_iff, Result, ok, err, Result-cases, is_ok, ⊤,
}
use shippy.Prelude.Collection.{All, total, Updates-total, Updates-Any, All-not-Any, Any-map}
use shippy.Vessel.{
  Specification, CapacityRequest, Vessel, CapacityOperation, op_reserve, op_release, op_confirm,
}
use shippy.Vessel.Database.{Contents, IsRecorded, is_operation, FoundAndUpdated, Database}
use shippy.Vessel.Repository.{
  has_room, reserve, release, confirm, reserve_capacity, abort_with, release_capacity,
  confirm_capacity,
}
use shippy.Vessel.Repository.Reserve.{Reserves, ReserveEffect, reserve_capacity-effect}
use shippy.Vessel.Repository.Retries.{ReserveEffect-ok}
use shippy.Vessel.Repository.Apply.{Applies, ApplyEffect, apply_once-effect}

module _ (db : Database) where
  open db use {
    Db, committed, working, start_session, start_transaction, find_one_and_update, decode,
  }

  -- The update finds nothing where no vessel has room.
  not_found_of_full :
      (spec : Specification) (d : Db)
      → All (λ v. has_room spec v ≡ false) (working d).vessels
      → is_ok (find_one_and_update (has_room spec) (reserve spec) d).0 ≡ false
  not_found_of_full spec d full =
      elim (Result-cases (find_one_and_update (has_room spec) (reserve spec) d).0) [
        | inr (e, p) ↦ rw p
        | inl (v, p) ↦ absurd (
            All-not-Any (has_room spec) (working d).vessels full (
              Updates-Any
                (subst
                  (FoundAndUpdated (working d)
                    (working (find_one_and_update (has_room spec) (reserve spec) d).1)
                    (has_room spec) (reserve spec))
                  p (db.find_one_and_update_lem (has_room spec) (reserve spec) d)).0))
      ]

  reserve_full :
      (now : ℤ) (spec : Specification) (d : Db)
      → All (λ v. has_room spec v ≡ false) (committed d).vessels
      → is_ok (reserve_capacity db now spec d).0 ≡ false
  unfolding reserve_capacity abort_with
  reserve_full now spec d full =
      let d1 : Db = (start_session d).1 in
      let d2 : Db = (start_transaction d1).1 in
      elim (Result-cases (start_session d).0) [
        | inr (e, p) ↦ rw p
        | inl (_, p) ↦ elim (Result-cases (start_transaction d1).0) [
          | inr (e, q) ↦ rw (p, q)
          | inl (_, q) ↦
              let works : working d2 ≡ committed d =
                db.start_transaction_lem d1 (ap is_ok q) ∙ db.committed-start_session d in
              let missed =
                not_found_of_full spec d2
                  (subst (λ k. All (λ v. has_room spec v ≡ false) k.vessels) (sym works) full) in
              elim (Result-cases (find_one_and_update (has_room spec) (reserve spec) d2).0) [
                | inl (v, r) ↦ cc
                | inr (e, r) ↦ rw (p, q, r)
              ]
        ]
      ]

  -- A reservation that succeeds and leaves no vessel with room for as much again is recorded, and
  -- a retry of it fails all the same: the vessel of the entry is not returned.
  pub retry_of_filling_fails :
      (now now' : ℤ) (spec : Specification) (d : Db) (v : Vessel)
      → (reserve_capacity db now spec d).0 ≡ ok v
      → let d' = (reserve_capacity db now spec d).1 in
        All (λ x. has_room spec x ≡ false) (committed d').vessels
        → IsRecorded spec.reservation_id op_reserve (committed d').capacity_ops
          × (is_ok (reserve_capacity db now' spec d').0 ≡ false)
  retry_of_filling_fails now now' spec d v h full = (
    ReserveEffect-ok now spec (committed d) (committed (reserve_capacity db now spec d).1) v (
        subst (ReserveEffect now spec (committed d) (committed (reserve_capacity db now spec d).1))
          h (reserve_capacity-effect db now spec d)),
    reserve_full now' spec (reserve_capacity db now spec d).1 full,
  )

-- What is reserved and used on a vessel, and what is used.
abbrev pub load : Vessel → ℤ
load v = v.reserved_weight +ℤ v.used_weight

abbrev pub used : Vessel → ℤ
used v = v.used_weight

reserve-load : (spec : Specification) (v : Vessel) → load (reserve spec v) ≡ load v +ℤ spec.weight
unfolding reserve
reserve-load spec v = omega int_laws

confirm-load : (req : CapacityRequest) (v : Vessel) → load (confirm req v) ≡ load v +ℤ pos 0
unfolding confirm
confirm-load req v = omega int_laws

release-load :
    (req : CapacityRequest) (v : Vessel) → load (release req v) ≡ load v +ℤ (pos 0 -ℤ req.weight)
unfolding release
release-load req v = omega int_laws

reserve-used : (spec : Specification) (v : Vessel) → used (reserve spec v) ≡ used v +ℤ pos 0
unfolding reserve
reserve-used spec v = omega int_laws

confirm-used : (req : CapacityRequest) (v : Vessel) → used (confirm req v) ≡ used v +ℤ req.weight
unfolding confirm
confirm-used req v = omega int_laws

release-used : (req : CapacityRequest) (v : Vessel) → used (release req v) ≡ used v +ℤ pos 0
unfolding release
release-used req v = omega int_laws

-- A history in which a reservation is taken, confirmed and then released as well.
effects_totals :
    (now now' now'' : ℤ) (spec : Specification) (req : CapacityRequest) (c0 c1 c2 c3 : Contents)
    (v : Vessel)
    → req.weight ≡ spec.weight
    → Reserves now spec c0 c1 v
    → Applies now' op_confirm (confirm req) req c1 c2
    → Applies now'' op_release (release req) req c2 c3
    → (total load c3.vessels ≡ total load c0.vessels)
      × (total used c3.vessels ≡ total used c0.vessels +ℤ spec.weight)
effects_totals now now' now'' spec req c0 c1 c2 c3 v same r a b =
    let l1 = Updates-total load spec.weight (reserve-load spec) r.updated in
    let l2 = Updates-total load (pos 0) (confirm-load req) a.updated in
    let l3 = Updates-total load (pos 0 -ℤ req.weight) (release-load req) b.updated in
    let u1 = Updates-total used (pos 0) (reserve-used spec) r.updated in
    let u2 = Updates-total used req.weight (confirm-used req) a.updated in
    let u3 = Updates-total used (pos 0) (release-used req) b.updated in
    (rw (l3, l2, l1, same) (omega int_laws), rw (u3, u2, u1, same) (omega int_laws))

-- An effect that succeeded on an operation that was not recorded has been made.
Reserves-of_new :
    (now : ℤ) (spec : Specification) (c c' : Contents) (v : Vessel)
    → (IsRecorded spec.reservation_id op_reserve c.capacity_ops → ⊥)
    → ReserveEffect now spec c c' (ok v)
    → Reserves now spec c c' v
Reserves-of_new now spec c c' v new (inl e) = e
Reserves-of_new now spec c c' v new (inr (same, original)) = absurd (
    new (
      Any-map (λ x. (x ≡ original.op) × (is_operation spec.reservation_id op_reserve x ≡ true)) _
        (λ x p. p.1) c.capacity_ops original.is_recorded))

Applies-of_new :
    (now : ℤ) (operation : String) (change : Vessel → Vessel) (req : CapacityRequest)
    (c c' : Contents) (r : Result ⊤)
    → is_ok r ≡ true
    → (IsRecorded req.reservation_id operation c.capacity_ops → ⊥)
    → ApplyEffect now operation change req c c' r
    → Applies now operation change req c c'
Applies-of_new now operation change req c c' (ok _) h new (inl e) = e
Applies-of_new now operation change req c c' (ok _) h new (inr (same, r)) = absurd (new r)
Applies-of_new now operation change req c c' (err _) h new e = cc

-- One more entry, of another operation.
new_of_other :
    (r o : String) (entry : CapacityOperation) (os os' : List CapacityOperation)
    → os' ≡ entry ∷ os
    → entry.operation ≢ o
    → (IsRecorded r o os → ⊥)
    → IsRecorded r o os'
    → ⊥
new_of_other r o entry os os' e other new h = elim (subst (IsRecorded r o) e h) [
  | inl t ↦ ground (arith, eq_iff entry.operation o)
  | inr t ↦ new t
]

module _ (db : Database) where
  open db use {Db, committed}

  -- The unique index keeps confirmations and releases apart: after a reservation that has been
  -- confirmed, a release of the same reservation can still go through. Then the load of the
  -- vessels, reserved and used, is what it was before the reservation, though the cargo is counted
  -- as used.
  pub release_after_confirm :
      (now now' now'' : ℤ) (spec : Specification) (req : CapacityRequest) (d : Db) (v : Vessel)
      → req.reservation_id ≡ spec.reservation_id
      → req.weight ≡ spec.weight
      → ((o : String) → IsRecorded spec.reservation_id o (committed d).capacity_ops → ⊥)
      → let d1 = (reserve_capacity db now spec d).1 in
        let d2 = (confirm_capacity db now' req d1).1 in
        let d3 = (release_capacity db now'' req d2).1 in
        (reserve_capacity db now spec d).0 ≡ ok v
        → is_ok (confirm_capacity db now' req d1).0 ≡ true
        → is_ok (release_capacity db now'' req d2).0 ≡ true
        → (total load (committed d3).vessels ≡ total load (committed d).vessels)
          × (total used (committed d3).vessels ≡ total used (committed d).vessels +ℤ spec.weight)
  release_after_confirm now now' now'' spec req d v same weight new h1 h2 h3 =
      let d1 : Db = (reserve_capacity db now spec d).1 in
      let d2 : Db = (confirm_capacity db now' req d1).1 in
      let d3 : Db = (release_capacity db now'' req d2).1 in
      let r = Reserves-of_new now spec (committed d) (committed d1) v (new op_reserve) (
        subst (ReserveEffect now spec (committed d) (committed d1)) h1
          (reserve_capacity-effect db now spec d)) in
      let new' = λ (o : String).
        subst (λ i. IsRecorded i o (committed d).capacity_ops → ⊥) (sym same) (new o) in
      let a =
        Applies-of_new now' op_confirm (confirm req) req (committed d1) (committed d2) _ h2
          (new_of_other req.reservation_id op_confirm _ _ _ r.recorded
            (ground (arith, eq_iff op_reserve op_confirm)) (new' op_confirm))
          (apply_once-effect db now' op_confirm "failed to confirm capacity" (confirm req) req
            d1) in
      let b =
        Applies-of_new now'' op_release (release req) req (committed d2) (committed d3) _ h3
          (new_of_other req.reservation_id op_release _ _ _ a.recorded
            (ground (arith, eq_iff op_confirm op_release))
            (new_of_other req.reservation_id op_release _ _ _ r.recorded
              (ground (arith, eq_iff op_reserve op_release)) (new' op_release)))
          (apply_once-effect db now'' op_release "failed to release capacity" (release req) req
            d2) in
      effects_totals now now' now'' spec req (committed d) (committed d1) (committed d2)
        (committed d3) v weight r a b
