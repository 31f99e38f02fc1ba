-- ===== src/Consignment/Storage/Instance.antt =====
-- The storage on MongoDB keeps what the manager and the server of the consignment service rely on
-- (cmd/consignment-service/storage/mongo as the interfaces of
-- cmd/consignment-service/storage/interfaces.go).

use shippy.Prelude.Collection.{Any}
use shippy.Prelude.{
  is_no_documents, Bool-cases, List, zero, suc, ℤ, String, Bool-cases, false, none, some, ◌≡◌, refl,
  ◌∙◌, ap, subst, inl, inr, List, [], ◌∷◌, ◌++◌, is_duplicate_key, Result, ok, Result-cases, ⊤,
  Exec,
}
use shippy.Outbox.{OutboxEvent, Created}
use shippy.Consignment.{
  Consignment, ConsignmentUpdate, ConsignmentStore, View, Stored, Written, Transaction, commit,
  lost, abort, again, is_empty, status_pending, find,
}
use shippy.Consignment.Driver.{Document, Content, Mongo, Wrote, Matched}
use shippy.Consignment.Storage.{
  new_document, create, update, get_by_id, get_all, with_transaction, create_event,
}

module _ {Bytes : Type 0} where
  -- The events that are not published.
  unfoldable pub pending_of : List (Document Bytes) → List (OutboxEvent Bytes)
  pending_of [] = []
  pending_of (d ∷ ds) =
      let rest = pending_of ds in elim d.published_at [ none ↦ d.event ∷ rest | some t ↦ rest ]

  abbrev pub to_view : Content Bytes → View Bytes
  to_view c = record { consignments = c.consignments; events = pending_of c.documents }

  pending_of-append :
      (ds : List (Document Bytes)) (id : String) (now : ℤ) (e : OutboxEvent Bytes)
      → pending_of (ds ++ new_document id now e ∷ []) ≡ pending_of ds ++ e ∷ []
  unfolding pending_of
  pending_of-append [] id now e = refl
  pending_of-append (d ∷ ds) id now e =
      elim d.published_at
        as (λ p.
          elim p [
            | none ↦ d.event ∷ pending_of (ds ++ new_document id now e ∷ [])
            | some t ↦ pending_of (ds ++ new_document id now e ∷ [])
          ]
          ≡ elim p [ none ↦ d.event ∷ pending_of ds | some t ↦ pending_of ds ] ++ e ∷ []) [
            | none ↦ ap (λ l. d.event ∷ l) (pending_of-append ds id now e)
            | some t ↦ pending_of-append ds id now e
          ]

-- A transaction on the collections is one on what a view of them shows.
module _ {S V W : Type 0} (view : S → V) (f : V → W) (fn : Exec S ⊤) where
  pub Transaction-view :
      {s t : S} {r : Result ⊤} → Transaction view fn s r t → Transaction (λ x. f (view x)) fn s r t
  Transaction-view (commit h e) = commit h (ap f e)
  Transaction-view (lost h e) = lost h (ap f e)
  Transaction-view (abort e) = abort (ap f e)
  Transaction-view (again e rest) = again (ap f e) (Transaction-view rest)

module _ {Bytes : Type 0} (db : Mongo Bytes) where
  abbrev pub view : db.State → View Bytes
  view s = to_view (db.content s)

  pub create_lem :
      (c : Consignment) (s : db.State)
      → Stored
          (record c { status = status_pending })
          (view s)
          (view (create db c s).1)
          (create db c s).0
  unfolding create
  create_lem c s =
      let c' : Consignment = record c { status = status_pending } in
      let wrote = db.insert_consignment_lem c' s in
      let after : db.State = (db.insert_consignment c' s).1 in
      let new : Content Bytes = record (db.content s) {
        consignments = (db.content s).consignments ++ c' ∷ [];
      } in
      elim (Result-cases (db.insert_consignment c' s).0) [
        | inl (a, p) ↦
            rw p (refl, ap to_view (subst (Wrote (db.content s) new (db.content after)) p wrote))
        | inr (e, p) ↦ rw p (elim (subst (Wrote (db.content s) new (db.content after)) p wrote) [
          | inl same ↦ inl (ap to_view same)
          | inr there ↦ inr (ap to_view there)
        ])
      ]

  pub update_lem :
      (id : String) (u : ConsignmentUpdate) (s : db.State)
      → is_empty u ≡ false
      → Written id u (view s) (view (update db id u s).1) (update db id u s).0
  unfolding update
  update_lem id u s filled =
      let after : db.State = (db.update_consignment id u s).1 in
      let wrote = db.update_consignment_lem id u s in
      elim (Result-cases (db.update_consignment id u s).0) [
        | inl (zero, p) ↦
            rw (filled, p)
              (inl (ap to_view (subst (Matched id u (db.content s) (db.content after)) p wrote)))
        | inl (suc n, p) ↦
            let (there, new) = subst (Matched id u (db.content s) (db.content after)) p wrote in
            rw (filled, p) (there, ap to_view new)
        | inr (e, p) ↦
            rw (filled, p)
              (elim (subst (Matched id u (db.content s) (db.content after)) p wrote) [
                | inl same ↦ inl (ap to_view same)
                | inr new ↦ inr (ap to_view new)
              ])
      ]

  pub get_by_id_lem :
      (id : String) (s : db.State)
      → (view (get_by_id db id s).1 ≡ view s)
        × ((c : Consignment)
            → (get_by_id db id s).0 ≡ ok c
            → find id (view s).consignments ≡ some c)
  unfolding get_by_id
  get_by_id_lem id s =
      let (same, found) = db.find_consignment_lem id s in
      elim (Result-cases (db.find_consignment id s).0) [
        | inl (a, p) ↦ rw p (ap to_view same, λ c h. found c (p ∙ h))
        | inr (e, p) ↦ rw p (ap to_view same, λ c h. cc)
      ]

  pub get_all_lem :
      (s : db.State) (cs : List Consignment)
      → (get_all db s).0 ≡ ok cs
      → (c : Consignment) → Any (λ x. x ≡ c) (view s).consignments
      → Any (λ x. x ≡ c) cs
  unfolding get_all
  get_all_lem s cs h c m = elim (Result-cases (db.find_consignments s).0) [
    | inl (a, p) ↦ db.find_consignments_lem s cs (p ∙ (rw p at h)) c m
    | inr (e, p) ↦ elim (Bool-cases (is_no_documents e)) [
      | inr q ↦ let h' = rw (p, q) at h in cc
      | inl q ↦
          let none_there = subst (Any (λ x. x ≡ c)) (db.no_consignments_lem s e p q) m in
          absurd none_there
    ]
  ]

  pub create_event_lem :
      (now : ℤ) (e : OutboxEvent Bytes) (s : db.State)
      → let r = create_event db now e s in
        Created e (view s).events (view r.1).events r.0
        × ((view r.1).consignments ≡ (view s).consignments)
  unfolding create_event
  create_event_lem now e s =
      let d : Document Bytes = new_document (db.uuid s) now e in
      let after : db.State = (db.insert_document d s).1 in
      let new : Content Bytes = record (db.content s) {
        documents = (db.content s).documents ++ d ∷ [];
      } in
      let wrote = db.insert_document_lem d s in
      let appended : pending_of new.documents ≡ pending_of (db.content s).documents ++ e ∷ [] =
        pending_of-append (db.content s).documents (db.uuid s) now e in
      elim (Result-cases (db.insert_document d s).0) [
        | inl (a, p) ↦
            let w = subst (Wrote (db.content s) new (db.content after)) p wrote in
            rw p (inl (ap (λ c. pending_of c.documents) w ∙ appended), ap (λ c. c.consignments) w)
        | inr (x, p) ↦ elim (Bool-cases (is_duplicate_key x)) [
          | inl q ↦ absurd (db.uuid_lem s (db.duplicate_key_lem d s x p q))
          | inr q ↦
              rw (p, q)
                (elim (subst (Wrote (db.content s) new (db.content after)) p wrote) [
                  | inl same ↦
                      (inl (ap (λ c. pending_of c.documents) same), ap (λ c. c.consignments) same)
                  | inr w ↦ (
                    inr (ap (λ c. pending_of c.documents) w ∙ appended),
                    ap (λ c. c.consignments) w,
                  )
                ])
        ]
      ]

  pub transaction_lem :
      (fn : Exec db.State ⊤) (s : db.State)
      → Transaction view fn s (with_transaction db fn s).0 (with_transaction db fn s).1
  unfolding with_transaction
  transaction_lem fn s =
      let s0 : db.State = (db.start_session s).1 in
      let same : view s0 ≡ view s = ap to_view (db.start_session_lem s) in
      elim (Result-cases (db.start_session s).0) [
        | inr (e, p) ↦ rw p (abort same)
        | inl (a, p) ↦
            rw p (
              again same
                (Transaction-view db.content to_view fn (db.session_transaction_lem fn s0)))
      ]

  -- The storage of the service; `now` is what `time.Now()` returns.
  abbrev pub mongo_store : ℤ → ConsignmentStore Bytes
  mongo_store now = record {
    State = db.State;
    view = view;
    create = create db;
    get_by_id = get_by_id db;
    get_all = get_all db;
    update = update db;
    create_event = create_event db now;
    with_transaction = with_transaction db;
    create_lem = create_lem;
    get_by_id_lem = get_by_id_lem;
    get_all_lem = get_all_lem;
    update_lem = update_lem;
    create_event_lem = λ e s. (create_event_lem now e s).0;
    create_event-consignments = λ e s. (create_event_lem now e s).1;
    transaction = transaction_lem;
  }

  -- An event that is created is a new row at the end, also beside a pending one of the same topic and
  -- key: no index makes it a duplicate.
  pub created_is_appended :
      (now : ℤ) (e : OutboxEvent Bytes) (s : db.State)
      → (create_event db now e s).0 ≡ ok tt
      → (view (create_event db now e s).1).events ≡ (view s).events ++ e ∷ []
  unfolding create_event
  created_is_appended now e s h =
      let d : Document Bytes = new_document (db.uuid s) now e in
      let after : db.State = (db.insert_document d s).1 in
      let new : Content Bytes = record (db.content s) {
        documents = (db.content s).documents ++ d ∷ [];
      } in
      elim (Result-cases (db.insert_document d s).0) [
        | inl (a, p) ↦
            let w =
              subst (Wrote (db.content s) new (db.content after)) p (db.insert_document_lem d s) in
            rw p (
              ap (λ c. pending_of c.documents) w
              ∙ pending_of-append (db.content s).documents (db.uuid s) now e)
        | inr (x, p) ↦ elim (Bool-cases (is_duplicate_key x)) [
          | inl q ↦ absurd (db.uuid_lem s (db.duplicate_key_lem d s x p q))
          | inr q ↦ let h' = rw (p, q) at h in cc
        ]
      ]
