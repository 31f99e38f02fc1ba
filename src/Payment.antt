-- ===== src/Payment.antt =====
-- The payment service (cmd/payment-service/handler.go): its payments in memory, and the four
-- calls. Each call holds the handler's lock, so a call is one step from a state to a state.
pub mod Lifecycle
pub mod Idempotence
pub mod Refunds
mod Tests
use shippy.Prelude.{
  ℤ, String, Option, none, some, List, [], ◌∷◌, Bool, ◌==◌, if◌then◌else◌, Code, not_found,
  failed_precondition, Error, status, Result, ok, err, Exec,
}
use shippy.Prelude.Dict.{Dict, lookup, insert}

pub data PaymentStatus : Type 0 where
  authorised captured refunded voided : PaymentStatus

pub record Payment : Type 0 where
  pub id : String
  pub consignment_id : String
  pub amount : ℤ
  pub currency : String
  pub status : PaymentStatus
  pub capture_id : String

pub record AuthoriseRequest : Type 0 where
  pub consignment_id : String
  pub amount : ℤ
  pub currency : String
  pub idempotency_key : String

pub record CaptureRequest : Type 0 where
  pub auth_id : String
  pub idempotency_key : String

pub record RefundRequest : Type 0 where
  pub payment_id : String
  pub idempotency_key : String

pub record VoidRequest : Type 0 where
  pub auth_id : String

-- A response of each call: the id that it carries, and its status.
pub record AuthoriseResponse : Type 0 where
  pub auth_id : String
  pub status : PaymentStatus

pub record CaptureResponse : Type 0 where
  pub payment_id : String
  pub status : PaymentStatus

pub record RefundResponse : Type 0 where
  pub refund_id : String
  pub status : PaymentStatus

pub record VoidResponse : Type 0 where
  pub status : PaymentStatus

-- `handler.payments`, keyed by the id of the authorisation.
abbrev pub Payments : Type 0
Payments = Dict Payment

-- `auth_id` is what `uuid.NewString()` returned.
unfoldable pub authorise : String → AuthoriseRequest → Exec Payments AuthoriseResponse
authorise auth_id req payments = (
  ok (record { auth_id = auth_id; status = authorised }),
  insert auth_id
      (record {
        id = auth_id;
        consignment_id = req.consignment_id;
        amount = req.amount;
        currency = req.currency;
        status = authorised;
        capture_id = "";
      })
      payments,
)

-- The tests of `Capture` on the payment that it found.
capture_found : CaptureRequest → Payment → PaymentStatus → Exec Payments CaptureResponse
capture_found req p captured payments =
    (ok (record { payment_id = p.capture_id; status = captured }), payments)
capture_found req p authorised payments = (
  ok (record { payment_id = req.idempotency_key; status = captured }),
  insert req.auth_id (record p { status = captured; capture_id = req.idempotency_key }) payments,
)
capture_found req p refunded payments = (err (status failed_precondition), payments)
capture_found req p voided payments = (err (status failed_precondition), payments)

capture_entry : CaptureRequest → Option Payment → Exec Payments CaptureResponse
unfolding capture_found
capture_entry req none payments = (err (status not_found), payments)
capture_entry req (some p) payments = capture_found req p p.status payments

unfoldable pub capture : CaptureRequest → Exec Payments CaptureResponse
unfolding capture_entry
capture req payments = capture_entry req (lookup req.auth_id payments) payments

-- `v.captureID == req.PaymentId`, for the payment of one key.
has_capture_id : String → Option Payment → Bool
has_capture_id payment_id none = Bool.false
has_capture_id payment_id (some p) = p.capture_id == payment_id

-- The loop of `Refund` over the map, which visits its keys in some order. It stops at the first
-- payment that fits, and yields its key.
unfoldable pub find_capture : String → List String → Payments → Option String
unfolding has_capture_id
find_capture payment_id [] payments = none
find_capture payment_id (k ∷ ks) payments =
    if has_capture_id payment_id (lookup k payments)
    then some k
    else find_capture payment_id ks payments

refund_found : RefundRequest → String → Payment → PaymentStatus → Exec Payments RefundResponse
refund_found req k p refunded payments =
    (ok (record { refund_id = req.idempotency_key; status = refunded }), payments)
refund_found req k p captured payments = (
  ok (record { refund_id = req.idempotency_key; status = refunded }),
  insert k (record p { status = refunded }) payments,
)
refund_found req k p authorised payments = (err (status failed_precondition), payments)
refund_found req k p voided payments = (err (status failed_precondition), payments)

refund_entry : RefundRequest → String → Option Payment → Exec Payments RefundResponse
unfolding refund_found
refund_entry req k none payments = (err (status not_found), payments)
refund_entry req k (some p) payments = refund_found req k p p.status payments

refund_key : RefundRequest → Option String → Exec Payments RefundResponse
unfolding refund_entry
refund_key req none payments = (err (status not_found), payments)
refund_key req (some k) payments = refund_entry req k (lookup k payments) payments

-- `order` is the order in which `range` visits the keys of the map.
unfoldable pub refund : (Payments → List String) → RefundRequest → Exec Payments RefundResponse
unfolding refund_key
refund order req payments =
    refund_key req (find_capture req.payment_id (order payments) payments) payments

void_found : VoidRequest → Payment → PaymentStatus → Exec Payments VoidResponse
void_found req p voided payments = (ok (record { status = voided }), payments)
void_found req p authorised payments =
    (ok (record { status = voided }), insert req.auth_id (record p { status = voided }) payments)
void_found req p captured payments = (err (status failed_precondition), payments)
void_found req p refunded payments = (err (status failed_precondition), payments)

void_entry : VoidRequest → Option Payment → Exec Payments VoidResponse
unfolding void_found
void_entry req none payments = (err (status not_found), payments)
void_entry req (some p) payments = void_found req p p.status payments

unfoldable pub void : VoidRequest → Exec Payments VoidResponse
unfolding void_entry
void req payments = void_entry req (lookup req.auth_id payments) payments
