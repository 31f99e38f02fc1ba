-- ===== src/Consignment/Storage.antt =====
-- The repository, the outbox and the transactions of the consignment service on MongoDB
-- (cmd/consignment-service/storage/mongo: mongo.go, outbox.go, store.go). The trace context of an
-- event is left out.
pub mod Instance
pub mod Claims
mod Tests
use shippy.Prelude.{
  ℕ, zero, suc, ℤ, ◌+ℤ◌, ltb_ℤ, String, Bool, true, false, Option, none, some, not, ◌&&◌, ◌||◌,
  ◌==◌, if◌then◌else◌, List, [], ◌∷◌, Error, errorf, wrap, is_no_documents, is_duplicate_key,
  Result, ok, err, ⊤, Exec, pure, raise, lift, on_error, with_text, ignore, ◌>>=◌, ◌>>◌,
}
use shippy.Outbox.{OutboxEvent, PendingEvent, is_unset, is_over}
use shippy.Consignment.{Consignment, ConsignmentUpdate, is_empty, status_pending}
use shippy.Consignment.Driver.{Document, Content, Mongo}

module _ {Bytes : Type 0} where
  -- The filter of the events that are free: not published, and not claimed or claimed until before
  -- `now`.
  unfoldable pub is_free : ℤ → Document Bytes → Bool
  is_free now d = is_unset d.published_at && is_over now d.processing_until

  unfoldable pub claim : String → ℤ → Document Bytes → Document Bytes
  claim claim_id until d = record d { claim_id = claim_id; processing_until = some until }

  unfoldable pub is_mine : String → Document Bytes → Bool
  is_mine claim_id d = d.claim_id == claim_id && is_unset d.published_at

  unfoldable pub publish_at : ℤ → Document Bytes → Document Bytes
  publish_at now d = record d { published_at = some now }

  abbrev pub new_document : String → ℤ → OutboxEvent Bytes → Document Bytes
  new_document id now event = record {
    id = id;
    event = event;
    created_at = now;
    published_at = none;
    processing_until = none;
    claim_id = "";
  }

  -- The loop over the claimed documents; `parse` is `uuid.Parse`.
  unfoldable pub decode_events :
      (String → Result String) → List (Document Bytes) → Result (List (PendingEvent Bytes))
  decode_events parse [] = ok []
  decode_events parse (d ∷ ds) =
      let rest = decode_events parse ds in
      elim (parse d.id) [
        | err e ↦ err (wrap "failed to parse outbox event id" e)
        | ok id ↦ elim rest [
          | ok es ↦ ok (record { id = id; event = d.event } ∷ es)
          | err e ↦ err e
        ]
      ]

module _ {Bytes : Type 0} (db : Mongo Bytes) where
  -- The result is the consignment as the call leaves it behind its pointer.
  unfoldable pub create : Consignment → Exec db.State Consignment
  create c =
      let c' : Consignment = record c { status = status_pending } in
      db.insert_consignment c' >>= λ _. pure c'

  -- `MatchedCount == 0` is an error.
  abbrev matched : String → ℕ → Exec db.State ⊤
  matched text zero = raise (errorf text)
  matched text (suc n) = pure tt

  unfoldable pub update_status : String → String → Exec db.State ⊤
  update_status id status =
      with_text "failed to update consignment status"
        (db.update_consignment id (record { status = some status; payment_id = none }))
      >>= matched "consignment not found"

  unfoldable pub update : String → ConsignmentUpdate → Exec db.State ⊤
  update id u =
      if is_empty u
      then pure tt
      else with_text "failed to update consignment" (db.update_consignment id u)
        >>= matched "consignment not found"

  unfoldable pub get_by_id : String → Exec db.State Consignment
  get_by_id id =
      on_error (db.find_consignment id)
        (λ e. raise (
          if is_no_documents e
          then errorf "consignment not found"
          else wrap "failed to get consignment" e))
        pure

  unfoldable pub get_all : Exec db.State (List Consignment)
  get_all = on_error db.find_consignments (λ e. if is_no_documents e then pure [] else raise e) pure

  unfoldable pub with_transaction : Exec db.State ⊤ → Exec db.State ⊤
  with_transaction fn = db.start_session >> db.session_transaction fn

  -- `now` is what `time.Now()` returns.
  unfoldable pub create_event : ℤ → OutboxEvent Bytes → Exec db.State ⊤
  create_event now event s =
      on_error (db.insert_document (new_document (db.uuid s) now event))
        (λ e.
          if is_duplicate_key e then pure tt else raise (wrap "failed to create outbox event" e))
        pure s

  unfoldable pub mark_published : ℤ → String → Exec db.State ⊤
  mark_published now id =
      with_text "failed to mark outbox event as published" (db.update_document id (publish_at now))
      >>= matched "outbox event not found"

  unfoldable pub claimed_events :
      (String → Result String) → String → ℤ → ℤ → Exec db.State (List (PendingEvent Bytes))
  claimed_events parse claim_id now lease = do
    with_text "failed to claim outbox events"
        (db.update_documents (is_free now) (claim claim_id (now +ℤ lease)))
    documents ←
        with_text "failed to fetch claimed outbox events" (db.find_documents (is_mine claim_id))
    lift (decode_events parse documents)

  unfoldable pub get_pending_events :
      (String → Result String) → ℤ → ℤ → Exec db.State (List (PendingEvent Bytes))
  get_pending_events parse now lease s = claimed_events parse (db.uuid s) now lease s
