-- ===== src/Vessel/Repository.antt =====
-- `MongoRepository` (cmd/vessel-service/repository.go). A method is an action on the database's
-- state; sessions that end and logging are left out, and `now` is what `time.Now()` returns.
pub mod Reserve
pub mod Apply
pub mod Capacity
pub mod Retries
pub mod Limits
use shippy.Prelude.{
  ℕ, zero, suc, ℤ, pos, ◌+ℤ◌, ◌-ℤ◌, leb_ℤ, Bool, ◌&&◌, if◌then◌else◌, Error, errorf, wrap,
  no_vessel_available, is_no_documents, is_duplicate_key, ⊤, Exec, pure, raise, lift, on_error,
  with_text, ◌>>=◌, ◌>>◌, ignore, String,
}
use shippy.Vessel.{
  Specification, CapacityRequest, Vessel, CapacityOperation, op_reserve, op_release, op_confirm,
}
use shippy.Vessel.Database.{Database, has_id}

-- The filter of `ReserveCapacity`.
unfoldable pub has_room : Specification → Vessel → Bool
has_room spec v =
    leb_ℤ spec.number_of_containers (v.capacity -ℤ v.reserved_capacity -ℤ v.used_capacity)
    && leb_ℤ spec.weight (v.max_weight -ℤ v.reserved_weight -ℤ v.used_weight)

-- The `$inc` updates of the three methods.
unfoldable pub reserve : Specification → Vessel → Vessel
reserve spec v = record v {
  reserved_weight = v.reserved_weight +ℤ spec.weight;
  reserved_capacity = v.reserved_capacity +ℤ spec.number_of_containers;
}

unfoldable pub release : CapacityRequest → Vessel → Vessel
release req v = record v {
  reserved_weight = v.reserved_weight +ℤ (pos 0 -ℤ req.weight);
  reserved_capacity = v.reserved_capacity +ℤ (pos 0 -ℤ req.number_of_containers);
}

unfoldable pub confirm : CapacityRequest → Vessel → Vessel
confirm req v = record v {
  reserved_weight = v.reserved_weight +ℤ (pos 0 -ℤ req.weight);
  reserved_capacity = v.reserved_capacity +ℤ (pos 0 -ℤ req.number_of_containers);
  used_weight = v.used_weight +ℤ req.weight;
  used_capacity = v.used_capacity +ℤ req.number_of_containers;
}

module _ (db : Database) where
  open db use {
    Db, start_session, start_transaction, abort_transaction, commit_transaction,
    find_one_and_update, update_one, insert_operation, find_operation, find_vessel, insert_vessel,
    decode,
  }

  -- `session.AbortTransaction(sc)`, whose error is dropped, and then the error of the method.
  unfoldable pub abort_with : {A : Type 0} → Error → Exec Db A
  abort_with e = ignore abort_transaction >> raise e

  -- The reservation was recorded before: the vessel that it names.
  unfoldable pub original_vessel : Specification → Exec Db Vessel
  original_vessel spec = do
    op ←
        with_text "failed to fetch existing operation"
          (find_operation spec.reservation_id op_reserve)
    find_vessel op.vessel_id

  -- `InsertOne` of the operation, and the commit.
  unfoldable pub reserve_recorded : ℤ → Specification → Vessel → Exec Db Vessel
  reserve_recorded now spec vessel =
      on_error
        (insert_operation (record {
          reservation_id = spec.reservation_id;
          operation = op_reserve;
          vessel_id = vessel.id;
          created_at = now;
        }))
        (λ e.
          if is_duplicate_key e
          then ignore abort_transaction >> original_vessel spec
          else abort_with (wrap "failed to record capacity operation" e))
        (λ _. commit_transaction >> pure vessel)

  unfoldable pub reserve_capacity : ℤ → Specification → Exec Db Vessel
  reserve_capacity now spec = do
    with_text "failed to start session" start_session
    start_transaction
    on_error (find_one_and_update (has_room spec) (reserve spec))
        (λ e. abort_with (if is_no_documents e then no_vessel_available else e))
        (λ found. on_error (lift (decode found)) abort_with (reserve_recorded now spec))

  -- `UpdateOne` of the vessel, and the commit.
  unfoldable pub apply_update : CapacityRequest → String → (Vessel → Vessel) → Exec Db ⊤
  apply_update req text change =
      on_error (update_one (has_id req.vessel_id) change) (λ e. abort_with (wrap text e))
        (λ matched. elim matched [
          | zero ↦ abort_with (errorf "vessel not found")
          | suc _ ↦ commit_transaction
        ])

  -- What `ReleaseCapacity` and `ConfirmCapacity` have in common: they differ in the operation that
  -- they record, in the update and in a text.
  unfoldable pub apply_once : ℤ → String → String → (Vessel → Vessel) → CapacityRequest → Exec Db ⊤
  apply_once now operation text change req = do
    with_text "failed to start session" start_session
    start_transaction
    on_error
        (insert_operation (record {
          reservation_id = req.reservation_id;
          operation = operation;
          vessel_id = req.vessel_id;
          created_at = now;
        }))
        (λ e.
          if is_duplicate_key e
          then ignore abort_transaction
          else abort_with (wrap "failed to record capacity operation" e))
        (λ _. apply_update req text change)

  abbrev pub release_capacity : ℤ → CapacityRequest → Exec Db ⊤
  release_capacity now req =
      apply_once now op_release "failed to release capacity" (release req) req

  abbrev pub confirm_capacity : ℤ → CapacityRequest → Exec Db ⊤
  confirm_capacity now req =
      apply_once now op_confirm "failed to confirm capacity" (confirm req) req

  abbrev pub create : Vessel → Exec Db ⊤
  create = insert_vessel
