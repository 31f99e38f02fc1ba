-- ===== src/Payment/Tests.antt =====
-- Runs of the payment service, and its theorems at concrete payments.
use shippy.Prelude.{
  String, Bool-cases, ◌==◌, pos, some, [], ◌∷◌, ◌≡◌, refl, ◌⊎◌, inl, inr, arith, eq_iff,
  failed_precondition, status, ok, err, Bool-cases,
}
use shippy.Prelude.Dict.{lookup, insert, keys, Has}
use shippy.Payment.{
  Payments, authorised, captured, AuthoriseRequest, authorise, capture, refund, void, find_capture,
  Payment, voided,
}
use shippy.Payment.Lifecycle.{
  capture_with, refund_with, void_with, handle_all, Continues, handle_all-Continues,
}
use shippy.Payment.Idempotence.{captured_once}
use shippy.Payment.Refunds.{RangesOver, IsOnlyCapture}

abbrev order_request : AuthoriseRequest
order_request = record {
  consignment_id = "c1";
  amount = pos 100;
  currency = "GBP";
  idempotency_key = "c1";
}

-- One authorised payment.
abbrev shop : Payments
shop =
    (
      "a1",
      record {
        id = "a1";
        consignment_id = "c1";
        amount = pos 100;
        currency = "GBP";
        status = authorised;
        capture_id = "";
      },
    )
    ∷ []

abbrev paid_one : Payment
paid_one = record {
  id = "a1";
  consignment_id = "c1";
  amount = pos 100;
  currency = "GBP";
  status = captured;
  capture_id = "c1";
}

abbrev paid : Payments
paid = ("a1", paid_one) ∷ []

authorise_shop : (authorise "a1" order_request []).1 ≡ shop
unfolding authorise insert
authorise_shop = refl

capture_shop : (capture (record { auth_id = "a1"; idempotency_key = "c1" }) shop).1 ≡ paid
unfolding capture lookup insert
capture_shop = refl

refund_then_capture :
    handle_all keys
      (refund_with (record { payment_id = "c1"; idempotency_key = "c1" })
        ∷ capture_with (record { auth_id = "a1"; idempotency_key = "c1" })
        ∷ [])
      paid
    ≡ handle_all keys (refund_with (record { payment_id = "c1"; idempotency_key = "c1" }) ∷ []) paid
unfolding handle_all capture refund find_capture keys lookup insert
refund_then_capture = refl

keys_complete : (m : Payments) (k : String) (p : Payment) → lookup k m ≡ some p → Has k (keys m)
unfolding keys lookup
keys_complete [] k p e = cc
keys_complete ((j, q) ∷ m) k p e = elim (Bool-cases (j == k)) [
  | inl t ↦ inl ((eq_iff j k).0 t)
  | inr t ↦ inr (keys_complete m k p (rw t at e))
]

-- The keys of the list that stands for the map, in its order.
keys-RangesOver : RangesOver keys
keys-RangesOver = record { complete = keys_complete }

paid-only : IsOnlyCapture "c1" "a1" paid_one paid
unfolding lookup
paid-only = (refl, refl, λ j q found c. ground (arith, eq_iff "a1" j))

capture_ok :
    (capture (record { auth_id = "a1"; idempotency_key = "c1" }) shop).0
    ≡ ok (record { payment_id = "c1"; status = captured })
unfolding capture lookup
capture_ok = refl

void_ok : (void (record { auth_id = "a1" }) shop).0 ≡ ok (record { status = voided })
unfolding void lookup
void_ok = refl

handle_all-Continues_example :
    Continues shop (handle_all keys (void_with (record { auth_id = "a1" }) ∷ []) shop)
handle_all-Continues_example =
    handle_all-Continues keys (void_with (record { auth_id = "a1" }) ∷ []) shop tt

captured_once_example :
    let m' : Payments =
      handle_all keys
        (void_with (record { auth_id = "a1" }) ∷ [])
        (capture (record { auth_id = "a1"; idempotency_key = "c1" }) shop).1 in
    ((capture (record { auth_id = "a1"; idempotency_key = "c2" }) m'
        ≡ (ok (record { payment_id = "c1"; status = captured }), m'))
      ⊎ (capture (record { auth_id = "a1"; idempotency_key = "c2" }) m'
          ≡ (err (status failed_precondition), m')))
    × (void (record { auth_id = "a1" }) m' ≡ (err (status failed_precondition), m'))
captured_once_example =
    captured_once keys shop (record { auth_id = "a1"; idempotency_key = "c1" })
      (record { payment_id = "c1"; status = captured }) capture_ok
      (void_with (record { auth_id = "a1" }) ∷ []) tt "c2"
