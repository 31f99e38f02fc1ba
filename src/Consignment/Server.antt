-- ===== src/Consignment/Server.antt =====
-- The gRPC handler of the consignment service (cmd/consignment-service/server/handler.go). Tracing
-- and logging are left out.
pub mod Confirm
pub mod Created
mod Tests
use Prim.Native.Nat.{ℕ, zero, suc}
use shippy.Prelude.{
  ℤ, pos, to_int32, String, Bool, List, [], ◌∷◌, if◌then◌else◌, Error, status, not_found, internal,
  failed_precondition, is_not_found, Result, ⊤, Exec, pure, raise, lift, on_error, with_text,
  ignore, ◌>>=◌, ◌>>◌,
}
use shippy.Events.{Timestamp, PaymentAuthorisedEvent, Wire, payment_authorised_topic}
use shippy.Outbox.{OutboxEvent}
use shippy.Payment.{AuthoriseRequest}
use shippy.Consignment.{
  Container, Consignment, ConsignmentStore, PaymentClient, update_status, status_cancelled, Option,
}
use shippy.Consignment.Messages.{
  ContainerMessage, ConsignmentMessage, ReserveCapacityRequest, ReservationResponse,
  marshal_consignment, unmarshal_consignment, unmarshal_consignments,
}

-- `reservepb.ReservationServiceClient`
pub record ReservationClient : Type 1 where
  pub State : Type 0
  pub reserve_capacity : ReserveCapacityRequest → Exec State ReservationResponse
  pub refresh_reservation : String → Exec State ⊤

-- What a `Handler` acts on.
pub record World (Store Payment Reservation : Type 0) : Type 0 where
  pub store : Store
  pub payment : Payment
  pub reservation : Reservation

-- `len` of a slice
unfoldable pub length {ℓ} : {A : Type ℓ} → List A → ℕ
length [] = zero
length (x ∷ xs) = suc (length xs)

-- `int32(len(…))`
abbrev pub count32 {ℓ} : {A : Type ℓ} → List A → ℤ
count32 xs = to_int32 (pos (length xs))

unfoldable pub authorised_event : String → Consignment → Timestamp → PaymentAuthorisedEvent
authorised_event auth_id c started_at = record {
  consignment_id = c.id;
  reservation_id = c.reservation_id;
  vessel_id = c.vessel_id;
  payment_auth_id = auth_id;
  idempotency_key = "";
  weight = c.weight;
  containers = count32 c.containers;
  retry_count = pos 0;
  cache_cleared = Bool.false;
  payment_captured = Bool.false;
  payment_id = "";
  saga_started_at = Option.some started_at;
}

abbrev pub authorise_request : Consignment → AuthoriseRequest
authorise_request c = record {
  consignment_id = c.id;
  amount = pos 100;
  currency = "GBP";
  idempotency_key = c.id;
}

-- The consignment that `CreateConsignment` stores, for the id it made and the reservation it got.
unfoldable pub new_consignment : String → ConsignmentMessage → ReservationResponse → Consignment
new_consignment id req reservation =
    record (marshal_consignment (record req { vessel_id = reservation.vessel_id })) {
      id = id;
      reservation_id = reservation.id;
    }

-- The code for a refresh that failed.
abbrev pub refresh_code : Error → Error
refresh_code e = if is_not_found e then status failed_precondition else status internal

module _ (wire : Wire) (store : ConsignmentStore wire.Bytes) (payment_cli : PaymentClient)
    (reservation_cli : ReservationClient) where
  abbrev pub Handler : Type 0
  Handler = World store.State payment_cli.State reservation_cli.State

  abbrev pub on_store : {A : Type 0} → Exec store.State A → Exec Handler A
  on_store m w = ((m w.store).0, record w { store = (m w.store).1 })

  abbrev pub on_payment : {A : Type 0} → Exec payment_cli.State A → Exec Handler A
  on_payment m w = ((m w.payment).0, record w { payment = (m w.payment).1 })

  abbrev pub on_reservation : {A : Type 0} → Exec reservation_cli.State A → Exec Handler A
  on_reservation m w = ((m w.reservation).0, record w { reservation = (m w.reservation).1 })

  -- Any error is reported with this code alone.
  abbrev or_code : {A : Type 0} → (Error → Error) → Exec Handler A → Exec Handler A
  or_code code m = on_error m (λ e. raise (code e)) pure

  -- The id is what `uuid.New()` returned.
  unfoldable pub create_consignment : String → ConsignmentMessage → Exec Handler ConsignmentMessage
  create_consignment id req = do
    reservation ←
        or_code (λ _. status internal)
          (on_reservation (
            reservation_cli.reserve_capacity (record {
              consignment_id = id;
              weight = req.weight;
              number_of_containers = count32 req.containers;
            })))
    stored ←
        or_code (λ _. status internal)
          (on_store (store.create (new_consignment id req reservation)))
    pure (unmarshal_consignment stored)

  unfoldable pub cancel_consignment : String → Exec Handler ⊤
  cancel_consignment id = ignore (on_store (update_status store id status_cancelled))

  unfoldable pub void_payment : String → Exec Handler ⊤
  void_payment auth_id = ignore (on_payment (payment_cli.void auth_id))

  unfoldable pub publish_payment_authorised : String → Consignment → Timestamp → Exec Handler ⊤
  publish_payment_authorised auth_id c started_at = do
    payload ←
        or_code (λ _. status internal)
          (lift (wire.payment_authorised.marshal (authorised_event auth_id c started_at)))
    on_error
        (on_store (
          store.create_event
            (record { topic = payment_authorised_topic; key = c.id; payload = payload })))
        (λ _. cancel_consignment c.id >> void_payment auth_id >> raise (status internal)) pure

  -- After the authorisation.
  unfoldable pub schedule_confirmation : Consignment → Timestamp → String → Exec Handler ⊤
  schedule_confirmation c started_at auth_id =
      on_error (publish_payment_authorised auth_id c started_at)
        (λ e.
          cancel_consignment c.id
          >> void_payment auth_id
          >> raise (Error.wrap "failed to confirm consignment" e))
        pure

  unfoldable pub authorise_payment : Consignment → Timestamp → Exec Handler ⊤
  authorise_payment c started_at =
      on_error (on_payment (payment_cli.authorise (authorise_request c)))
        (λ _. cancel_consignment c.id >> raise (status internal))
        (schedule_confirmation c started_at)

  -- `now` is the time at which the saga starts.
  unfoldable pub confirm_consignment : Timestamp → String → Exec Handler ⊤
  confirm_consignment now id = do
    c ← or_code (λ _. status not_found) (on_store (store.get_by_id id))
    or_code refresh_code (on_reservation (reservation_cli.refresh_reservation c.reservation_id))
    authorise_payment c now

  unfoldable pub get_consignments : Exec Handler (List ConsignmentMessage)
  get_consignments = or_code (λ _. status internal) (on_store store.get_all) >>= λ cs.
      pure (unmarshal_consignments cs)
