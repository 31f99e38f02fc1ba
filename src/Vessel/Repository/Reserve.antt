-- ===== src/Vessel/Repository/Reserve.antt =====
-- What `ReserveCapacity` of cmd/vessel-service/repository.go does to the committed collections, on
-- every path.
use shippy.Prelude.{
  Bool-cases, ◌≡◌, refl, ◌∙◌, sym, ap, subst, ◌⊎◌, inl, inr, ◌∷◌, true, arith, Result, ok, err,
  Error, Result-cases, subst₃, is_no_documents, is_duplicate_key, is_ok, on_error, lift,
  no_vessel_available, if◌then◌else◌, ℤ,
}
use shippy.Prelude.Collection.{Any, Updates}
use shippy.Vessel.{Specification, Vessel, CapacityOperation, op_reserve}
use shippy.Vessel.Database.{
  Contents, is_operation, IsRecorded, has_id, FoundAndUpdated, Inserted, Database,
}
use shippy.Vessel.Repository.{
  has_room, reserve, reserve_recorded, original_vessel, abort_with, reserve_capacity,
}

-- One vessel with room takes the reservation, and the operation is recorded with it; no operation
-- of this reservation was recorded before.
pub record Reserves (now : ℤ) (spec : Specification) (c c' : Contents) (v : Vessel) : Type 0 where
  pub is_new : IsRecorded spec.reservation_id op_reserve c.capacity_ops → ⊥
  pub updated : Updates (has_room spec) (reserve spec) c.vessels v c'.vessels
  pub recorded :
      c'.capacity_ops
      ≡ record {
        reservation_id = spec.reservation_id;
        operation = op_reserve;
        vessel_id = v.id;
        created_at = now;
      }
        ∷ c.capacity_ops

-- The reservation is recorded, and `v` is the vessel that its entry names.
pub record IsOriginal (spec : Specification) (c : Contents) (v : Vessel) : Type 0 where
  pub op : CapacityOperation
  pub is_recorded :
      Any (λ x. (x ≡ op) × (is_operation spec.reservation_id op_reserve x ≡ true)) c.capacity_ops
  pub is_named : Any (λ x. (x ≡ v) × (has_id op.vessel_id x ≡ true)) c.vessels

abbrev pub ReserveEffect : ℤ → Specification → Contents → Contents → Result Vessel → Type 0
ReserveEffect now spec c c' (ok v) = Reserves now spec c c' v ⊎ ((c' ≡ c) × IsOriginal spec c v)
ReserveEffect now spec c c' (err e) = (c' ≡ c) ⊎ ((v : Vessel) × Reserves now spec c c' v)

module _ (db : Database) (now : ℤ) where
  open db use {
    Db, committed, working, start_session, start_transaction, abort_transaction, commit_transaction,
    find_one_and_update, insert_operation, find_operation, find_vessel, decode,
  }

  original_vessel-effect :
      (spec : Specification) (d : Db)
      → let r = original_vessel db spec d in
        (committed r.1 ≡ committed d)
        × ((v : Vessel) → r.0 ≡ ok v → IsOriginal spec (committed d) v)
  unfolding original_vessel
  original_vessel-effect spec d =
      elim (Result-cases (find_operation spec.reservation_id op_reserve d).0) [
        | inr (e, p) ↦
            rw p (db.committed-find_operation spec.reservation_id op_reserve d, λ v h. ground arith)
        | inl (op, p) ↦
            let d1 = (find_operation spec.reservation_id op_reserve d).1 in
            let same : committed d1 ≡ committed d =
              db.committed-find_operation spec.reservation_id op_reserve d in
            rw p (
              db.committed-find_vessel op.vessel_id d1 ∙ same,
              λ v h. record {
                op = op;
                is_recorded = db.find_operation_lem spec.reservation_id op_reserve d op p;
                is_named = rw (← same) (db.find_vessel_lem op.vessel_id d1 v h);
              },
            )
      ]

  abbrev operation_of : Specification → Vessel → CapacityOperation
  operation_of spec v = record {
    reservation_id = spec.reservation_id;
    operation = op_reserve;
    vessel_id = v.id;
    created_at = now;
  }

  -- The committed state after the update and the insert.
  Reserves-of :
      (spec : Specification) (v : Vessel) (c w w' c' : Contents)
      → Updates (has_room spec) (reserve spec) c.vessels v w.vessels
      → w.capacity_ops ≡ c.capacity_ops
      → Inserted w w' (operation_of spec v) (ok tt)
      → c' ≡ w'
      → Reserves now spec c c' v
  Reserves-of spec v c w w' c' u same (fresh, inserted) e =
      let all : c' ≡ record w { capacity_ops = operation_of spec v ∷ w.capacity_ops } =
        e ∙ inserted in
      record {
        is_new = λ r. fresh (subst (IsRecorded spec.reservation_id op_reserve) (sym same) r);
        updated =
            subst (Updates (has_room spec) (reserve spec) c.vessels v)
              (sym (ap (λ x. x.vessels) all)) u;
        recorded = ap (λ x. x.capacity_ops) all ∙ ap (λ ops. operation_of spec v ∷ ops) same;
      }

  abort_with-effect :
      (e : Error) (d : Db) → (committed (abort_with db {A = Vessel} e d).1 ≡ committed d)
  unfolding abort_with
  abort_with-effect e d = db.committed-abort_transaction d

  reserve_recorded-effect :
      (spec : Specification) (v : Vessel) (d : Db)
      → Updates (has_room spec) (reserve spec) (committed d).vessels v (working d).vessels
      → (working d).capacity_ops ≡ (committed d).capacity_ops
      → ReserveEffect now spec
          (committed d)
          (committed (reserve_recorded db now spec v d).1)
          (reserve_recorded db now spec v d).0
  unfolding reserve_recorded abort_with
  reserve_recorded-effect spec v d u same =
      let o : CapacityOperation = operation_of spec v in
      let d1 : Db = (insert_operation o d).1 in
      let kept : committed d1 ≡ committed d = db.committed-insert_operation o d in
      let law : Inserted (working d) (working d1) o (insert_operation o d).0 =
        db.insert_operation_lem o d in
      elim (Result-cases (insert_operation o d).0) [
        | inl (_, p) ↦
            let law' = subst (Inserted (working d) (working d1) o) p law in
            elim (Result-cases (commit_transaction d1).0) [
              | inl (_, q) ↦
                  rw (p, q)
                    (inl (
                      Reserves-of spec v (committed d) (working d) (working d1) _ u same law'
                        (db.commit_transaction_ok d1 (ap is_ok q))))
              | inr (e, q) ↦
                  rw (p, q)
                    (elim (db.commit_transaction_err d1) [
                      | inl unchanged ↦ inl (unchanged ∙ kept)
                      | inr gone_through ↦ inr (
                        v,
                        Reserves-of spec v (committed d) (working d) (working d1) _ u same law'
                            gone_through,
                      )
                    ])
            ]
        | inr (e, p) ↦ elim (Bool-cases (is_duplicate_key e)) [
          | inr other ↦ rw (p, other) (inl (db.committed-abort_transaction d1 ∙ kept))
          | inl duplicate ↦
              let d2 : Db = (abort_transaction d1).1 in
              let kept2 : committed d2 ≡ committed d = db.committed-abort_transaction d1 ∙ kept in
              let (kept3, original) = original_vessel-effect spec d2 in
              elim (Result-cases (original_vessel db spec d2).0) [
                | inl (w, q) ↦
                    rw (p, duplicate, q)
                      (inr (kept3 ∙ kept2, subst (λ c. IsOriginal spec c w) kept2 (original w q)))
                | inr (e', q) ↦ rw (p, duplicate, q) (inl (kept3 ∙ kept2))
              ]
        ]
      ]

  -- From a started transaction, whose view `c` is what is committed.
  reserve-found-effect :
      (spec : Specification) (c : Contents) (d : Db)
      → committed d ≡ c
      → working d ≡ c
      → let r =
          on_error
            (find_one_and_update (has_room spec) (reserve spec))
            (λ e. abort_with db (if is_no_documents e then no_vessel_available else e))
            (λ found. on_error (lift (decode found)) (abort_with db) (reserve_recorded db now spec))
            d in
        ReserveEffect now spec c (committed r.1) r.0
  unfolding abort_with
  reserve-found-effect spec c d is_c works =
      let d1 : Db = (find_one_and_update (has_room spec) (reserve spec) d).1 in
      let kept : committed d1 ≡ c =
        db.committed-find_one_and_update (has_room spec) (reserve spec) d ∙ is_c in
      let law = db.find_one_and_update_lem (has_room spec) (reserve spec) d in
      elim (Result-cases (find_one_and_update (has_room spec) (reserve spec) d).0) [
        | inr (e, p) ↦ rw p (inl (db.committed-abort_transaction d1 ∙ kept))
        | inl (x, p) ↦ elim (Result-cases (decode x)) [
          | inr (e, q) ↦ rw (p, q) (inl (db.committed-abort_transaction d1 ∙ kept))
          | inl (v, q) ↦
              let law' =
                subst (FoundAndUpdated (working d) (working d1) (has_room spec) (reserve spec)) p
                  law in
              let same : x ≡ v = sym (db.decode_lem x v q) in
              rw (p, q)
                (subst
                  (λ k.
                    ReserveEffect now spec k (committed (reserve_recorded db now spec v d1).1)
                      (reserve_recorded db now spec v d1).0)
                  kept
                  (reserve_recorded-effect spec v d1
                    (subst₃ (λ a b ws. Updates (has_room spec) (reserve spec) a.vessels b ws)
                      (works ∙ sym kept) same refl law'.0)
                    (law'.1 ∙ ap (λ k. k.capacity_ops) (works ∙ sym kept))))
        ]
      ]

  -- A call of `ReserveCapacity` either changes nothing that is committed, or it moves one vessel
  -- with room by the reservation and records the operation with it, once for each reservation. It
  -- returns the vessel as it is after the change, or, if the reservation was recorded before, the
  -- vessel that its entry names. After an error nothing has changed, or the same change has been
  -- committed all the same.
  pub reserve_capacity-effect :
      (spec : Specification) (d : Db)
      → ReserveEffect now spec
          (committed d)
          (committed (reserve_capacity db now spec d).1)
          (reserve_capacity db now spec d).0
  unfolding reserve_capacity
  reserve_capacity-effect spec d =
      let d1 : Db = (start_session d).1 in
      let d2 : Db = (start_transaction d1).1 in
      let kept : committed d1 ≡ committed d = db.committed-start_session d in
      let kept2 : committed d2 ≡ committed d = db.committed-start_transaction d1 ∙ kept in
      elim (Result-cases (start_session d).0) [
        | inr (e, p) ↦ rw p (inl kept)
        | inl (_, p) ↦ elim (Result-cases (start_transaction d1).0) [
          | inr (e, q) ↦ rw (p, q) (inl kept2)
          | inl (_, q) ↦
              rw (p, q)
                (reserve-found-effect spec (committed d) d2 kept2
                  (db.start_transaction_lem d1 (ap is_ok q) ∙ kept))
        ]
      ]
