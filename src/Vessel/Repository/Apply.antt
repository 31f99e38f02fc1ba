-- ===== src/Vessel/Repository/Apply.antt =====
-- What `ReleaseCapacity` and `ConfirmCapacity` of cmd/vessel-service/repository.go do to the
-- committed collections, on every path.
use shippy.Prelude.{
  ℕ, zero, suc, String, Bool-cases, ◌≡◌, ◌∙◌, sym, ap, subst, ◌⊎◌, inl, inr, ◌∷◌, Result, ok, err,
  ⊤, Result-cases, is_duplicate_key, is_ok, subst₂, ℤ,
}
use shippy.Prelude.Collection.{Updates}
use shippy.Vessel.{CapacityRequest, Vessel, CapacityOperation}
use shippy.Vessel.Database.{Contents, IsRecorded, has_id, Inserted, Updated, Database}
use shippy.Vessel.Repository.{abort_with, apply_update, apply_once}

abbrev pub operation_of : ℤ → String → CapacityRequest → CapacityOperation
operation_of now operation req = record {
  reservation_id = req.reservation_id;
  operation = operation;
  vessel_id = req.vessel_id;
  created_at = now;
}

-- The vessel of the request is changed, and the operation is recorded with it; no such operation
-- of this reservation was recorded before.
pub record Applies (now : ℤ) (operation : String) (change : Vessel → Vessel) (req : CapacityRequest)
    (c c' : Contents) : Type 0 where
  pub is_new : IsRecorded req.reservation_id operation c.capacity_ops → ⊥
  pub vessel : Vessel
  pub updated : Updates (has_id req.vessel_id) change c.vessels vessel c'.vessels
  pub recorded : c'.capacity_ops ≡ operation_of now operation req ∷ c.capacity_ops

abbrev pub ApplyEffect :
    ℤ → String → (Vessel → Vessel) → CapacityRequest → Contents → Contents → Result ⊤ → Type 0
ApplyEffect now operation change req c c' (ok _) =
    Applies now operation change req c c'
    ⊎ ((c' ≡ c) × IsRecorded req.reservation_id operation c.capacity_ops)
ApplyEffect now operation change req c c' (err e) = (c' ≡ c) ⊎ Applies now operation change req c c'

module _ (db : Database) (now : ℤ) where
  open db use {
    Db, committed, working, start_session, start_transaction, abort_transaction, commit_transaction,
    update_one, insert_operation,
  }

  Applies-of :
      (operation : String) (change : Vessel → Vessel) (req : CapacityRequest) (c w w' c' : Contents)
      (n : ℕ)
      → Inserted c w (operation_of now operation req) (ok tt)
      → Updated w w' (has_id req.vessel_id) change (ok (suc n))
      → c' ≡ w'
      → Applies now operation change req c c'
  Applies-of operation change req c w w' c' n (fresh, inserted) (v, u, same) e = record {
    is_new = fresh;
    vessel = v;
    updated =
        subst₂ (λ vs k. Updates (has_id req.vessel_id) change vs v k.vessels)
          (ap (λ k. k.vessels) inserted) (sym e) u;
    recorded = ap (λ k. k.capacity_ops) e ∙ same ∙ ap (λ k. k.capacity_ops) inserted;
  }

  apply_update-effect :
      (operation text : String) (change : Vessel → Vessel) (req : CapacityRequest) (c : Contents)
      (d : Db)
      → committed d ≡ c
      → Inserted c (working d) (operation_of now operation req) (ok tt)
      → ApplyEffect now operation change req c
          (committed (apply_update db req text change d).1)
          (apply_update db req text change d).0
  unfolding apply_update abort_with
  apply_update-effect operation text change req c d is_c inserted =
      let d1 : Db = (update_one (has_id req.vessel_id) change d).1 in
      let kept : committed d1 ≡ c =
        db.committed-update_one (has_id req.vessel_id) change d ∙ is_c in
      let law = db.update_one_lem (has_id req.vessel_id) change d in
      elim (Result-cases (update_one (has_id req.vessel_id) change d).0) [
        | inr (e, p) ↦ rw p (inl (db.committed-abort_transaction d1 ∙ kept))
        | inl (zero, p) ↦ rw p (inl (db.committed-abort_transaction d1 ∙ kept))
        | inl (suc n, p) ↦
            let law' =
              subst (Updated (working d) (working d1) (has_id req.vessel_id) change) p law in
            elim (Result-cases (commit_transaction d1).0) [
              | inl (_, q) ↦
                  rw (p, q)
                    (inl (
                      Applies-of operation change req c (working d) (working d1) _ n inserted law'
                        (db.commit_transaction_ok d1 (ap is_ok q))))
              | inr (e, q) ↦
                  rw (p, q)
                    (elim (db.commit_transaction_err d1) [
                      | inl unchanged ↦ inl (unchanged ∙ kept)
                      | inr gone_through ↦ inr (
                          Applies-of operation change req c (working d) (working d1) _ n inserted
                            law' gone_through)
                    ])
            ]
      ]

  -- A call of `ReleaseCapacity` or `ConfirmCapacity` (by its operation and its update) either
  -- changes nothing that is committed, or it changes the vessel of the request and records the
  -- operation with it, once for each reservation. After a success it did so, or the operation was
  -- recorded before. After an error nothing has changed, or the same change has been committed
  -- all the same.
  pub apply_once-effect :
      (operation text : String) (change : Vessel → Vessel) (req : CapacityRequest) (d : Db)
      → ApplyEffect now operation change req
          (committed d)
          (committed (apply_once db now operation text change req d).1)
          (apply_once db now operation text change req d).0
  unfolding apply_once abort_with
  apply_once-effect operation text change req d =
      let o : CapacityOperation = operation_of now operation req in
      let d1 : Db = (start_session d).1 in
      let d2 : Db = (start_transaction d1).1 in
      let d3 : Db = (insert_operation o d2).1 in
      let kept : committed d1 ≡ committed d = db.committed-start_session d in
      let kept2 : committed d2 ≡ committed d = db.committed-start_transaction d1 ∙ kept in
      let kept3 : committed d3 ≡ committed d = db.committed-insert_operation o d2 ∙ kept2 in
      let aborted : committed (abort_transaction d3).1 ≡ committed d =
        db.committed-abort_transaction d3 ∙ kept3 in
      elim (Result-cases (start_session d).0) [
        | inr (e, p) ↦ rw p (inl kept)
        | inl (_, p) ↦ elim (Result-cases (start_transaction d1).0) [
          | inr (e, q) ↦ rw (p, q) (inl kept2)
          | inl (_, q) ↦
              let works : working d2 ≡ committed d =
                db.start_transaction_lem d1 (ap is_ok q) ∙ kept in
              let law : Inserted (committed d) (working d3) o (insert_operation o d2).0 =
                subst (λ k. Inserted k (working d3) o (insert_operation o d2).0) works
                  (db.insert_operation_lem o d2) in
              elim (Result-cases (insert_operation o d2).0) [
                | inl (_, r) ↦
                    rw (p, q, r)
                      (apply_update-effect operation text change req (committed d) d3 kept3
                        (subst (Inserted (committed d) (working d3) o) r law))
                | inr (e, r) ↦ elim (Bool-cases (is_duplicate_key e)) [
                  | inr other ↦ rw (p, q, r, other) (inl aborted)
                  | inl duplicate ↦
                      rw (p, q, r, duplicate)
                        (inr
                          (aborted, subst (Inserted (committed d) (working d3) o) r law duplicate))
                ]
              ]
        ]
      ]
