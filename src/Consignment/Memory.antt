-- ===== src/Consignment/Memory.antt =====
-- A database and a payment service in memory, for the runs of the consignment service.
use shippy.Prelude.Collection.{Any}
use shippy.Prelude.{
  subst, ok_eq, ℕ, zero, suc, String, Bool, true, false, Option, none, some, ◌≡◌, refl, List, [],
  ◌∷◌, ◌++◌, inl, inr, Result, ok, err, errorf, ⊤, Exec, branch, Result-cases, if◌then◌else◌, ok_eq,
}
use shippy.Outbox.{OutboxEvent, Created}
use shippy.Testing.{Message}
use shippy.Consignment.{
  Stored, status_pending, Consignment, ConsignmentUpdate, ConsignmentStore, PaymentClient, View,
  find, written, Written, Transaction, commit, abort,
}

-- A database that is up or down.
pub record Base : Type 0 where
  pub up : Bool
  pub docs : View Message

abbrev pub create : Consignment → Exec Base Consignment
create c s =
    let c' : Consignment = record c { status = status_pending } in
    if s.up
    then (
      ok c',
      record s { docs = record s.docs { consignments = s.docs.consignments ++ c' ∷ [] } },
    )
    else (err (errorf "down"), s)

pub create_lem :
    (c : Consignment) (up : Bool) (v : View Message)
    → let r = create c (record { up = up; docs = v }) in
      Stored (record c { status = status_pending }) v r.1.docs r.0
create_lem c true v = (refl, refl)
create_lem c false v = inl refl

abbrev pub lookup_by : Option Consignment → Result Consignment
lookup_by none = err (errorf "not found")
lookup_by (some c) = ok c

abbrev pub get_by_id : String → Exec Base Consignment
get_by_id id s =
    if s.up then (lookup_by (find id s.docs.consignments), s) else (err (errorf "down"), s)

pub get_by_id_lem :
    (id : String) (up : Bool) (v : View Message)
    → let r = get_by_id id (record { up = up; docs = v }) in
      (r.1.docs ≡ v) × ((c : Consignment) → r.0 ≡ ok c → find id v.consignments ≡ some c)
get_by_id_lem id true v = (refl, λ c h. found (find id v.consignments) c h)
  where
    found : (o : Option Consignment) (c : Consignment) → lookup_by o ≡ ok c → o ≡ some c
    found none c h = cc
    found (some d) c h = let e : d ≡ c = ok_eq h in cc
get_by_id_lem id false v = (refl, λ c h. cc)

abbrev pub update_found : Option Consignment → String → ConsignmentUpdate → Exec Base ⊤
update_found none id u s = (err (errorf "not found"), s)
update_found (some c) id u s = (ok tt, record s { docs = written id u s.docs })

abbrev pub update : String → ConsignmentUpdate → Exec Base ⊤
update id u s =
    if s.up then update_found (find id s.docs.consignments) id u s else (err (errorf "down"), s)

update_found_lem :
    (o : Option Consignment) (id : String) (u : ConsignmentUpdate) (s : Base)
    → find id s.docs.consignments ≡ o
    → let r = update_found o id u s in Written id u s.docs r.1.docs r.0
update_found_lem none id u s h = inl refl
update_found_lem (some c) id u s h = ((c, h), refl)

pub update_lem :
    (id : String) (u : ConsignmentUpdate) (up : Bool) (v : View Message)
    → let r = update id u (record { up = up; docs = v }) in Written id u v r.1.docs r.0
update_lem id u true v =
    update_found_lem (find id v.consignments) id u (record { up = true; docs = v }) refl
update_lem id u false v = inl refl

abbrev pub create_event : OutboxEvent Message → Exec Base ⊤
create_event e s =
    if s.up
    then (ok tt, record s { docs = record s.docs { events = s.docs.events ++ e ∷ [] } })
    else (err (errorf "down"), s)

pub create_event_lem :
    (e : OutboxEvent Message) (up : Bool) (v : View Message)
    → let r = create_event e (record { up = up; docs = v }) in
      Created e v.events r.1.docs.events r.0 × (r.1.docs.consignments ≡ v.consignments)
create_event_lem e true v = (inl refl, refl)
create_event_lem e false v = (inl refl, refl)

abbrev pub with_transaction : Exec Base ⊤ → Exec Base ⊤
with_transaction fn s = branch (fn s).0 (λ e t. (err e, s)) (λ a t. (ok tt, t)) (fn s).1

pub transaction_lem :
    (fn : Exec Base ⊤) (s : Base)
    → Transaction (λ t. t.docs) fn s (with_transaction fn s).0 (with_transaction fn s).1
transaction_lem fn s = elim (Result-cases (fn s).0) [
  | inl (a, p) ↦ rw p (commit (λ i. (p i, (fn s).1)) refl)
  | inr (e, p) ↦ rw p (abort refl)
]

abbrev pub store : ConsignmentStore Message
store = record {
  State = Base;
  view = λ s. s.docs;
  create = create;
  get_by_id = get_by_id;
  get_all = λ s. (ok s.docs.consignments, s);
  update = update;
  create_event = create_event;
  with_transaction = with_transaction;
  create_lem = λ c s. create_lem c s.up s.docs;
  get_by_id_lem = λ id s. get_by_id_lem id s.up s.docs;
  get_all_lem = λ s cs h c m. subst (Any (λ x. x ≡ c)) (ok_eq h) m;
  update_lem = λ id u s _. update_lem id u s.up s.docs;
  create_event_lem = λ e s. (create_event_lem e s.up s.docs).0;
  create_event-consignments = λ e s. (create_event_lem e s.up s.docs).1;
  transaction = transaction_lem;
}

-- A payment service that answers so many more calls with an error, and lists the others.
pub record Payments : Type 0 where
  pub failures : ℕ
  pub calls : List String

abbrev pub answer : {A : Type 0} → A → String → ℕ → List String → Result A × Payments
answer a call zero calls = (ok a, record { failures = zero; calls = calls ++ call ∷ [] })
answer a call (suc n) calls = (err (errorf "unavailable"), record { failures = n; calls = calls })

abbrev pub payment_cli : PaymentClient
payment_cli = record {
  State = Payments;
  authorise = λ req s. answer "a1" req.consignment_id s.failures s.calls;
  capture = λ auth key s. answer auth key s.failures s.calls;
  refund = λ payment key s. answer tt key s.failures s.calls;
  void = λ auth s. answer tt auth s.failures s.calls;
}
