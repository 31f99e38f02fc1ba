-- ===== src/Consignment/Driver.antt =====
-- The part of the MongoDB driver that the storage of the consignment service calls
-- (cmd/consignment-service/storage/mongo), with what it documents.
use shippy.Prelude.{
  is_no_documents, ℕ, zero, suc, ℤ, String, Bool, true, Option, some, ◌≡◌, ◌⊎◌, List, [], ◌∷◌, ◌++◌,
  if◌then◌else◌, ◌==◌, Error, is_duplicate_key, Result, ok, err, Exec, ⊤,
}
use shippy.Prelude.Collection.{Any}
use shippy.Outbox.{OutboxEvent}
use shippy.Consignment.{Consignment, ConsignmentUpdate, Transaction, find, set_one}

-- An `outboxDocument`. Times are numbers; the trace context is left out.
pub record Document (Bytes : Type 0) : Type 0 where
  pub id : String
  pub event : OutboxEvent Bytes
  pub created_at : ℤ
  pub published_at : Option ℤ
  pub processing_until : Option ℤ
  pub claim_id : String

-- The two collections.
pub record Content (Bytes : Type 0) : Type 0 where
  pub consignments : List Consignment
  pub documents : List (Document Bytes)

module _ {Bytes : Type 0} where
  -- The update of one document by its id, and of all that fit a filter.
  unfoldable pub change_one :
      String → (Document Bytes → Document Bytes) → List (Document Bytes) → List (Document Bytes)
  change_one id change [] = []
  change_one id change (d ∷ ds) = if d.id == id then change d ∷ ds else d ∷ change_one id change ds

  unfoldable pub change_where :
      (Document Bytes → Bool)
      → (Document Bytes → Document Bytes)
      → List (Document Bytes)
      → List (Document Bytes)
  change_where fits change [] = []
  change_where fits change (d ∷ ds) = (if fits d then change d else d) ∷ change_where fits change ds

  -- Some of the documents that fit have been changed.
  pub data Partly (fits : Document Bytes → Bool) (change : Document Bytes → Document Bytes)
      : List (Document Bytes) → List (Document Bytes) → Type 0 where
    done : Partly fits change [] []
    left :
        {d : Document Bytes} {ds es : List (Document Bytes)}
        → Partly fits change ds es
        → Partly fits change (d ∷ ds) (d ∷ es)
    changed :
        {d : Document Bytes} {ds es : List (Document Bytes)}
        → fits d ≡ true
        → Partly fits change ds es
        → Partly fits change (d ∷ ds) (change d ∷ es)

  abbrev pub HasId : String → Document Bytes → Type 0
  HasId id d = d.id ≡ id

  -- Before a write, what it writes, and after it, by its result.
  abbrev pub Wrote :
      {A : Type 0} → Content Bytes → Content Bytes → Content Bytes → Result A → Type 0
  Wrote before new after (ok _) = after ≡ new
  Wrote before new after (err _) = (after ≡ before) ⊎ (after ≡ new)

  -- The same for an update of one consignment, whose result is the number of those that matched.
  abbrev pub Matched :
      String → ConsignmentUpdate → Content Bytes → Content Bytes → Result ℕ → Type 0
  Matched id u v v' (ok zero) = v' ≡ v
  Matched id u v v' (ok (suc n)) =
      ((c : Consignment) × (find id v.consignments ≡ some c))
      × (v' ≡ record v { consignments = set_one id u v.consignments })
  Matched id u v v' (err _) =
      (v' ≡ v) ⊎ (v' ≡ record v { consignments = set_one id u v.consignments })

pub record Mongo (Bytes : Type 0) : Type 1 where
  pub State : Type 0
  pub content : State → Content Bytes
  pub insert_consignment : Consignment → Exec State ⊤
  pub update_consignment : String → ConsignmentUpdate → Exec State ℕ
  pub find_consignment : String → Exec State Consignment
  pub find_consignments : Exec State (List Consignment)
  pub insert_document : Document Bytes → Exec State ⊤
  pub update_document : String → (Document Bytes → Document Bytes) → Exec State ℕ
  pub update_documents : (Document Bytes → Bool) → (Document Bytes → Document Bytes) → Exec State ⊤
  -- Sorted by `created_at`.
  pub find_documents : (Document Bytes → Bool) → Exec State (List (Document Bytes))
  pub start_session : Exec State ⊤
  pub session_transaction : Exec State ⊤ → Exec State ⊤
  -- `uuid.New()`
  pub uuid : State → String
  pub insert_consignment_lem :
      (c : Consignment) (s : State)
      → Wrote
          (content s)
          (record (content s) { consignments = (content s).consignments ++ c ∷ [] })
          (content (insert_consignment c s).1)
          (insert_consignment c s).0
  pub update_consignment_lem :
      (id : String) (u : ConsignmentUpdate) (s : State)
      → Matched id u
          (content s)
          (content (update_consignment id u s).1)
          (update_consignment id u s).0
  pub find_consignment_lem :
      (id : String) (s : State)
      → (content (find_consignment id s).1 ≡ content s)
        × ((c : Consignment)
            → (find_consignment id s).0 ≡ ok c
            → find id (content s).consignments ≡ some c)
  pub find_consignments_lem :
      (s : State) (cs : List Consignment)
      → (find_consignments s).0 ≡ ok cs
      → (c : Consignment) → Any (λ x. x ≡ c) (content s).consignments
      → Any (λ x. x ≡ c) cs
  pub no_consignments_lem :
      (s : State) (e : Error)
      → (find_consignments s).0 ≡ err e
      → is_no_documents e ≡ true
      → (content s).consignments ≡ []
  pub insert_document_lem :
      (d : Document Bytes) (s : State)
      → Wrote
          (content s)
          (record (content s) { documents = (content s).documents ++ d ∷ [] })
          (content (insert_document d s).1)
          (insert_document d s).0
  pub duplicate_key_lem :
      (d : Document Bytes) (s : State) (e : Error)
      → (insert_document d s).0 ≡ err e
      → is_duplicate_key e ≡ true
      → Any (HasId d.id) (content s).documents
  pub update_document_lem :
      (id : String) (change : Document Bytes → Document Bytes) (s : State)
      → Wrote
          (content s)
          (record (content s) { documents = change_one id change (content s).documents })
          (content (update_document id change s).1)
          (update_document id change s).0
  pub update_documents-consignments :
      (fits : Document Bytes → Bool) (change : Document Bytes → Document Bytes) (s : State)
      → (content (update_documents fits change s).1).consignments ≡ (content s).consignments
  pub update_documents_lem :
      (fits : Document Bytes → Bool) (change : Document Bytes → Document Bytes) (s : State)
      → (update_documents fits change s).0 ≡ ok tt
      → (content (update_documents fits change s).1).documents
        ≡ change_where fits change (content s).documents
  pub update_documents-Partly :
      (fits : Document Bytes → Bool) (change : Document Bytes → Document Bytes) (s : State)
      → Partly fits change
          (content s).documents
          (content (update_documents fits change s).1).documents
  pub find_documents_lem :
      (fits : Document Bytes → Bool) (s : State)
      → (content (find_documents fits s).1 ≡ content s)
        × ((ds : List (Document Bytes)) (d : Document Bytes)
            → (find_documents fits s).0 ≡ ok ds
            → Any (λ x. x ≡ d) ds
            → Any (λ x. x ≡ d) (content s).documents × (fits d ≡ true))
  pub start_session_lem : (s : State) → content (start_session s).1 ≡ content s
  pub session_transaction_lem :
      (fn : Exec State ⊤) (s : State)
      → Transaction content fn s (session_transaction fn s).0 (session_transaction fn s).1
  pub uuid_lem : (s : State) → ¬ Any (HasId (uuid s)) (content s).documents
  pub uuid-claim : (s : State) → ¬ Any (λ d. d.claim_id ≡ uuid s) (content s).documents
