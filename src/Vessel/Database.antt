-- ===== src/Vessel/Database.antt =====
-- What cmd/vessel-service/repository.go uses of the MongoDB driver: sessions, transactions, and
-- the calls on its two collections. The driver is no code of the repository, so it is a parameter:
-- its calls, what they may return, and their documented effect on the two collections.
use shippy.Prelude.{
  ℤ, leb_ℤ, ◌+ℤ◌, ℕ, zero, suc, String, Bool, true, false, ◌&&◌, ◌==◌, List, ◌∷◌, ◌≡◌, ◌⊎◌, Result,
  ok, err, ⊤, Exec, is_no_documents, is_duplicate_key, is_ok,
}
use shippy.Prelude.Collection.{All, Any, Updates, Sublist}
use shippy.Vessel.{Vessel, CapacityOperation, expire_after_seconds}

pub record Contents : Type 0 where
  pub vessels : List Vessel
  pub capacity_ops : List CapacityOperation

-- `bson.M{"reservation_id": …, "operation": …}`, also the key of the unique index.
abbrev pub is_operation : String → String → CapacityOperation → Bool
is_operation reservation_id operation o =
    o.reservation_id == reservation_id && o.operation == operation

abbrev pub IsRecorded : String → String → List CapacityOperation → Type 0
IsRecorded reservation_id operation = Any (λ o. is_operation reservation_id operation o ≡ true)

-- `bson.M{"id": …}`
abbrev pub has_id : String → Vessel → Bool
has_id id v = v.id == id

abbrev pub is_expired : ℤ → CapacityOperation → Bool
is_expired t o = leb_ℤ (o.created_at +ℤ expire_after_seconds) t

module _ (before after : Contents) where
  -- What the server drops at the time `t` by the index on `created_at`: only entries that are old enough.
  abbrev pub Expired : ℤ → Type 0
  Expired t =
      (after.vessels ≡ before.vessels)
      × Sublist after.capacity_ops before.capacity_ops
      × ((o : CapacityOperation)
          → Any (λ x. x ≡ o) before.capacity_ops
          → is_expired t o ≡ false
          → Any (λ x. x ≡ o) after.capacity_ops)

  -- `FindOneAndUpdate` with `options.After`
  abbrev pub FoundAndUpdated : (Vessel → Bool) → (Vessel → Vessel) → Result Vessel → Type 0
  FoundAndUpdated fits change (ok v) =
      Updates fits change before.vessels v after.vessels
      × (after.capacity_ops ≡ before.capacity_ops)
  FoundAndUpdated fits change (err e) =
      is_no_documents e ≡ true → All (λ v. fits v ≡ false) before.vessels

  -- `UpdateOne`, by its `MatchedCount`
  abbrev pub Updated : (Vessel → Bool) → (Vessel → Vessel) → Result ℕ → Type 0
  Updated fits change (ok zero) = All (λ v. fits v ≡ false) before.vessels
  Updated fits change (ok (suc n)) =
      (v : Vessel) × Updates fits change before.vessels v after.vessels
      × (after.capacity_ops ≡ before.capacity_ops)
  Updated fits change (err e) = Unit

  -- `InsertOne` under the unique index on reservation and operation
  abbrev pub Inserted : CapacityOperation → Result ⊤ → Type 0
  Inserted o (ok _) =
      (IsRecorded o.reservation_id o.operation before.capacity_ops → ⊥)
      × (after ≡ record before { capacity_ops = o ∷ before.capacity_ops })
  Inserted o (err e) =
      is_duplicate_key e ≡ true → IsRecorded o.reservation_id o.operation before.capacity_ops

-- A session is part of the state `Db`: `committed` is what other readers see, `working` what the
-- transaction sees.
pub record Database : Type 1 where
  pub Db : Type 0
  pub committed : Db → Contents
  pub working : Db → Contents
  pub start_session : Exec Db ⊤
  pub start_transaction : Exec Db ⊤
  pub abort_transaction : Exec Db ⊤
  pub commit_transaction : Exec Db ⊤
  pub find_one_and_update : (Vessel → Bool) → (Vessel → Vessel) → Exec Db Vessel
  pub update_one : (Vessel → Bool) → (Vessel → Vessel) → Exec Db ℕ
  pub insert_operation : CapacityOperation → Exec Db ⊤
  -- reads outside the transaction
  pub find_operation : String → String → Exec Db CapacityOperation
  pub find_vessel : String → Exec Db Vessel
  pub insert_vessel : Vessel → Exec Db ⊤
  -- A pass of the server over the expired operations, between the calls.
  pub expire : ℤ → Db → Db
  -- `Decode` of a document into a `Vessel`
  pub decode : Vessel → Result Vessel
  pub expire_lem : (t : ℤ) (d : Db) → Expired (committed d) (committed (expire t d)) t
  -- Only a commit and an insert outside a transaction change what is committed.
  pub committed-start_session : (d : Db) → committed (start_session d).1 ≡ committed d
  pub committed-start_transaction : (d : Db) → committed (start_transaction d).1 ≡ committed d
  pub committed-abort_transaction : (d : Db) → committed (abort_transaction d).1 ≡ committed d
  pub committed-find_one_and_update :
      (fits : Vessel → Bool) (change : Vessel → Vessel) (d : Db)
      → committed (find_one_and_update fits change d).1 ≡ committed d
  pub committed-update_one :
      (fits : Vessel → Bool) (change : Vessel → Vessel) (d : Db)
      → committed (update_one fits change d).1 ≡ committed d
  pub committed-insert_operation :
      (o : CapacityOperation) (d : Db) → committed (insert_operation o d).1 ≡ committed d
  pub committed-find_operation :
      (r op : String) (d : Db) → committed (find_operation r op d).1 ≡ committed d
  pub committed-find_vessel : (id : String) (d : Db) → committed (find_vessel id d).1 ≡ committed d
  pub start_transaction_lem :
      (d : Db)
      → is_ok (start_transaction d).0 ≡ true
      → working (start_transaction d).1 ≡ committed d
  pub find_one_and_update_lem :
      (fits : Vessel → Bool) (change : Vessel → Vessel) (d : Db)
      → FoundAndUpdated
          (working d)
          (working (find_one_and_update fits change d).1)
          fits
          change
          (find_one_and_update fits change d).0
  pub update_one_lem :
      (fits : Vessel → Bool) (change : Vessel → Vessel) (d : Db)
      → Updated
          (working d)
          (working (update_one fits change d).1)
          fits
          change
          (update_one fits change d).0
  pub insert_operation_lem :
      (o : CapacityOperation) (d : Db)
      → Inserted (working d) (working (insert_operation o d).1) o (insert_operation o d).0
  -- A commit that reports an error may have gone through.
  pub commit_transaction_ok :
      (d : Db)
      → is_ok (commit_transaction d).0 ≡ true
      → committed (commit_transaction d).1 ≡ working d
  pub commit_transaction_err :
      (d : Db)
      → (committed (commit_transaction d).1 ≡ committed d)
        ⊎ (committed (commit_transaction d).1 ≡ working d)
  pub find_operation_lem :
      (r op : String) (d : Db) (o : CapacityOperation)
      → (find_operation r op d).0 ≡ ok o
      → Any (λ x. (x ≡ o) × (is_operation r op x ≡ true)) (committed d).capacity_ops
  pub find_vessel_lem :
      (id : String) (d : Db) (v : Vessel)
      → (find_vessel id d).0 ≡ ok v
      → Any (λ x. (x ≡ v) × (has_id id x ≡ true)) (committed d).vessels
  pub insert_vessel_lem :
      (v : Vessel) (d : Db)
      → (committed (insert_vessel v d).1 ≡ committed d)
        ⊎ (committed (insert_vessel v d).1
            ≡ record (committed d) { vessels = v ∷ (committed d).vessels })
  pub decode_lem : (x v : Vessel) → decode x ≡ ok v → v ≡ x
