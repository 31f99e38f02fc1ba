-- ===== src/Events.antt =====
-- The messages that the services put on the topics (proto/events/events.proto), their encoding by
-- the protobuf library, and the topics (the constants of the two managers).
use shippy.Prelude.{ℤ, String, Bool, Option, none, some, pos, ◌≡◌, Result, ok}

pub record ReservationInfoMessage : Type 0 where
  pub id : String
  pub vessel_id : String
  pub consignment_id : String
  pub number_of_containers : ℤ
  pub weight : ℤ

-- A `google.protobuf.Timestamp`, as the nanoseconds from Go's zero time.
abbrev pub Timestamp : Type 0
Timestamp = ℤ

pub record PaymentAuthorisedEvent : Type 0 where
  pub consignment_id : String
  pub reservation_id : String
  pub vessel_id : String
  pub payment_auth_id : String
  pub idempotency_key : String
  pub weight : ℤ
  pub containers : ℤ
  pub retry_count : ℤ
  pub cache_cleared : Bool
  pub payment_captured : Bool
  pub payment_id : String
  pub saga_started_at : Option Timestamp

pub record PaymentCapturedEvent : Type 0 where
  pub reservation_info : Option ReservationInfoMessage
  pub consignment_id : String
  pub payment_id : String
  pub saga_started_at : Option Timestamp

pub record ReservationConfirmedEvent : Type 0 where
  pub reservation_id : String
  pub consignment_id : String
  pub saga_started_at : Option Timestamp

pub record ReservationExpiredEvent : Type 0 where
  pub reservation_id : String
  pub vessel_id : String
  pub consignment_id : String
  pub weight : ℤ
  pub containers : ℤ

pub record ConsignmentConfirmationFailedEvent : Type 0 where
  pub consignment_id : String
  pub reservation_id : String
  pub vessel_id : String
  pub payment_id : String
  pub weight : ℤ
  pub containers : ℤ
  pub cache_cleared : Bool
  pub payment_captured : Bool
  pub payment_auth_id : String
  pub saga_started_at : Option Timestamp

-- A proto3 enumeration is open: other numbers are kept.
pub data CapacityAction : Type 0 where
  unspecified_action release_action confirm_action : CapacityAction
  other_action : ℤ → CapacityAction

pub record CapacityEvent : Type 0 where
  pub action : CapacityAction
  pub reservation_info : Option ReservationInfoMessage
  pub cache_cleared : Bool
  pub retry_count : ℤ
  pub consignment_id : String
  pub payment_id : String
  pub saga_started_at : Option Timestamp

-- The getters of a message, which read a nil pointer as the empty message.
abbrev pub empty_info : ReservationInfoMessage
empty_info = record {
  id = "";
  vessel_id = "";
  consignment_id = "";
  number_of_containers = pos 0;
  weight = pos 0;
}

abbrev pub info : Option ReservationInfoMessage → ReservationInfoMessage
info none = empty_info
info (some r) = r

-- `proto.Marshal` and `proto.Unmarshal` at one message type: what was written is read back.
pub record Codec (Bytes E : Type 0) : Type 0 where
  pub marshal : E → Result Bytes
  pub unmarshal : Bytes → Result E
  pub unmarshal-marshal : (e : E) (b : Bytes) → marshal e ≡ ok b → unmarshal b ≡ ok e

pub record Wire : Type 1 where
  pub Bytes : Type 0
  pub payment_authorised : Codec Bytes PaymentAuthorisedEvent
  pub payment_captured : Codec Bytes PaymentCapturedEvent
  pub reservation_confirmed : Codec Bytes ReservationConfirmedEvent
  pub reservation_expired : Codec Bytes ReservationExpiredEvent
  pub confirmation_failed : Codec Bytes ConsignmentConfirmationFailedEvent
  pub capacity : Codec Bytes CapacityEvent

abbrev pub payment_authorised_topic : String
payment_authorised_topic = "consignment.payment.authorised"

abbrev pub payment_captured_topic : String
payment_captured_topic = "consignment.payment.captured"

abbrev pub release_capacity_topic : String
release_capacity_topic = "reservation.capacity.release"

abbrev pub confirm_capacity_topic : String
confirm_capacity_topic = "reservation.capacity.confirm"

abbrev pub capacity_failed_topic : String
capacity_failed_topic = "reservation.capacity.failed"

abbrev pub reservation_expired_topic : String
reservation_expired_topic = "reservation.expired"

abbrev pub confirmation_failed_topic : String
confirmation_failed_topic = "consignment.confirmation.failed"

abbrev pub reservation_confirmed_topic : String
reservation_confirmed_topic = "reservation.confirmed"
