-- ===== src/Consignment.antt =====
-- The consignment service (cmd/consignment-service): its data (storage/types.go) and the interfaces
-- between its parts (storage/interfaces.go, and the client of proto/payment).
pub mod Find
pub mod Memory
pub mod Messages
pub mod Server
pub mod Driver
pub mod Storage
pub mod Manager
use shippy.Prelude.Collection.{Any}
use shippy.Prelude.{
  ◌++◌, ℤ, String, Option, none, some, List, [], ◌∷◌, ◌≡◌, ◌⊎◌, Result, ok, err, Exec, ⊤,
  if◌then◌else◌, ◌==◌, Error, false, Bool, ◌&&◌, true,
}
use shippy.Outbox.{OutboxEvent, Created}
use shippy.Payment.{AuthoriseRequest}

abbrev pub status_pending : String
status_pending = "pending"

abbrev pub status_confirmed : String
status_confirmed = "confirmed"

abbrev pub status_cancelled : String
status_cancelled = "cancelled"

abbrev pub status_confirmation_pending : String
status_confirmation_pending = "confirmation_pending"

pub record Container : Type 0 where
  pub id : String
  pub customer_id : String
  pub user_id : String

pub record Consignment : Type 0 where
  pub id : String
  pub weight : ℤ
  pub description : String
  pub containers : List Container
  pub vessel_id : String
  pub reservation_id : String
  pub status : String
  pub payment_id : String

-- A nil pointer keeps a field.
pub record ConsignmentUpdate : Type 0 where
  pub status : Option String
  pub payment_id : Option String

abbrev pub is_nil : Option String → Bool
is_nil none = true
is_nil (some x) = false

abbrev pub or_else : {A : Type 0} → Option A → A → A
or_else none a = a
or_else (some b) a = b

-- `len(fields) == 0`
abbrev pub is_empty : ConsignmentUpdate → Bool
is_empty u = is_nil u.status && is_nil u.payment_id

-- What an update makes of a consignment.
abbrev pub updated : ConsignmentUpdate → Consignment → Consignment
updated u c = record c {
  status = or_else u.status c.status;
  payment_id = or_else u.payment_id c.payment_id;
}

-- The consignment with an id, and the change of it. Ids are unique.
unfoldable pub find : String → List Consignment → Option Consignment
find id [] = none
find id (c ∷ cs) = if c.id == id then some c else find id cs

unfoldable pub set_one : String → ConsignmentUpdate → List Consignment → List Consignment
set_one id u [] = []
set_one id u (c ∷ cs) = if c.id == id then updated u c ∷ cs else c ∷ set_one id u cs

-- What the database holds: the consignments, and the events that are not published.
pub record View (Bytes : Type 0) : Type 0 where
  pub consignments : List Consignment
  pub events : List (OutboxEvent Bytes)

module _ {Bytes : Type 0} where
  abbrev pub written : String → ConsignmentUpdate → View Bytes → View Bytes
  written id u v = record v { consignments = set_one id u v.consignments }

  -- Before and after a write to one consignment, by its result. After an error it may be written.
  abbrev pub Written : String → ConsignmentUpdate → View Bytes → View Bytes → Result ⊤ → Type 0
  Written id u v v' (ok _) =
      ((c : Consignment) × (find id v.consignments ≡ some c)) × (v' ≡ written id u v)
  Written id u v v' (err _) = (v' ≡ v) ⊎ (v' ≡ written id u v)

  -- Before and after an insert of a consignment, by its result.
  abbrev pub Stored : Consignment → View Bytes → View Bytes → Result Consignment → Type 0
  Stored c v v' (ok c') = (c' ≡ c) × (v' ≡ record v { consignments = v.consignments ++ c ∷ [] })
  Stored c v v' (err _) = (v' ≡ v) ⊎ (v' ≡ record v { consignments = v.consignments ++ c ∷ [] })

-- A transaction of the database driver: it may run the writes again from the same data, it may end
-- with nothing written, and an error may stand for a commit whose answer was lost.
pub data Transaction {S V : Type 0} (view : S → V) (fn : Exec S ⊤) : S → Result ⊤ → S → Type 0 where
  commit : {s t u : S} → fn s ≡ (ok tt, t) → view u ≡ view t → Transaction view fn s (ok tt) u
  lost :
      {s t u : S} {e : Error}
      → fn s ≡ (ok tt, t)
      → view u ≡ view t
      → Transaction view fn s (err e) u
  abort : {s u : S} {e : Error} → view u ≡ view s → Transaction view fn s (err e) u
  again :
      {s t u : S} {r : Result ⊤}
      → view t ≡ view s
      → Transaction view fn t r u
      → Transaction view fn s r u

-- `ConsignmentRepository`, `OutboxRepository` and `Transactor`, which share a database.
pub record ConsignmentStore (Bytes : Type 0) : Type 1 where
  pub State : Type 0
  pub view : State → View Bytes
  -- The result is the consignment as the call leaves it behind its pointer.
  pub create : Consignment → Exec State Consignment
  pub get_by_id : String → Exec State Consignment
  pub get_all : Exec State (List Consignment)
  pub update : String → ConsignmentUpdate → Exec State ⊤
  pub create_event : OutboxEvent Bytes → Exec State ⊤
  pub with_transaction : Exec State ⊤ → Exec State ⊤
  pub create_lem :
      (c : Consignment) (s : State)
      → Stored (record c { status = status_pending }) (view s) (view (create c s).1) (create c s).0
  pub get_by_id_lem :
      (id : String) (s : State)
      → (view (get_by_id id s).1 ≡ view s)
        × ((c : Consignment) → (get_by_id id s).0 ≡ ok c → find id (view s).consignments ≡ some c)
  -- The consignments come in some order.
  pub get_all_lem :
      (s : State) (cs : List Consignment)
      → (get_all s).0 ≡ ok cs
      → (c : Consignment) → Any (λ x. x ≡ c) (view s).consignments
      → Any (λ x. x ≡ c) cs
  pub update_lem :
      (id : String) (u : ConsignmentUpdate) (s : State)
      → is_empty u ≡ false
      → Written id u (view s) (view (update id u s).1) (update id u s).0
  pub create_event_lem :
      (e : OutboxEvent Bytes) (s : State)
      → Created e (view s).events (view (create_event e s).1).events (create_event e s).0
  pub create_event-consignments :
      (e : OutboxEvent Bytes) (s : State)
      → (view (create_event e s).1).consignments ≡ (view s).consignments
  pub transaction :
      (fn : Exec State ⊤) (s : State)
      → Transaction view fn s (with_transaction fn s).0 (with_transaction fn s).1

-- `paymentpb.PaymentServiceClient`: a call may fail whatever the service did.
pub record PaymentClient : Type 1 where
  pub State : Type 0
  pub authorise : AuthoriseRequest → Exec State String
  pub capture : (auth_id idempotency_key : String) → Exec State String
  pub refund : (payment_id idempotency_key : String) → Exec State ⊤
  pub void : (auth_id : String) → Exec State ⊤

-- `repository.UpdateStatus(ctx, id, status)`, which sets that field alone.
module _ {Bytes : Type 0} (store : ConsignmentStore Bytes) where
  abbrev pub update_status : String → String → Exec store.State ⊤
  update_status id status = store.update id (record { status = some status; payment_id = none })
