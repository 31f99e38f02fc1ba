-- ===== src/Payment/Idempotence.antt =====
-- Repeated calls of cmd/payment-service/handler.go, with other calls between them.
use shippy.Prelude.{
  String, Option, none, some, List, ◌≡◌, refl, ◌⊎◌, inl, inr, ◌∙◌, subst, arith,
  failed_precondition, status, ok, err,
}
use shippy.Prelude.Dict.{lookup, lookup-insert_self}
use shippy.Payment.{
  PaymentStatus, authorised, captured, refunded, voided, Payment, Payments, CaptureRequest,
  VoidRequest, CaptureResponse, VoidResponse, capture, void, capture_entry, void_found, void_entry,
  capture_found,
}
use shippy.Payment.Lifecycle.{CanBecome, Request, handle_all, HasFreshIds, handle_all-Continues}

module _ (m : Payments) where
  -- What a capture that succeeds leaves behind.
  capture_found-ok :
      (req : CaptureRequest) (p : Payment) (s : PaymentStatus) (r : CaptureResponse)
      → p.status ≡ s
      → lookup req.auth_id m ≡ some p
      → (capture_found req p s m).0 ≡ ok r
      → (q : Payment) × (lookup req.auth_id (capture_found req p s m).1 ≡ some q)
        × (q.status ≡ captured)
        × (r ≡ record { payment_id = q.capture_id; status = captured })
  unfolding capture_found
  capture_found-ok req p authorised r e found h = (
    record p { status = captured; capture_id = req.idempotency_key },
    lookup-insert_self req.auth_id _ m,
    refl,
    ground arith,
  )
  capture_found-ok req p captured r e found h = (p, found, e, ground arith)
  capture_found-ok req p refunded r e found h = ground arith
  capture_found-ok req p voided r e found h = ground arith

  capture_entry-ok :
      (req : CaptureRequest) (o : Option Payment) (r : CaptureResponse)
      → lookup req.auth_id m ≡ o
      → (capture_entry req o m).0 ≡ ok r
      → (q : Payment) × (lookup req.auth_id (capture_entry req o m).1 ≡ some q)
        × (q.status ≡ captured)
        × (r ≡ record { payment_id = q.capture_id; status = captured })
  unfolding capture_entry
  capture_entry-ok req none r found h = ground arith
  capture_entry-ok req (some p) r found h = capture_found-ok req p p.status r refl found h

  capture-ok :
      (req : CaptureRequest) (r : CaptureResponse)
      → (capture req m).0 ≡ ok r
      → (q : Payment) × (lookup req.auth_id (capture req m).1 ≡ some q)
        × (q.status ≡ captured)
        × (r ≡ record { payment_id = q.capture_id; status = captured })
  unfolding capture
  capture-ok req r h = capture_entry-ok req (lookup req.auth_id m) r refl h

  -- A capture of a payment that has been captured or refunded.
  capture_settled :
      (req : CaptureRequest) (q : Payment)
      → lookup req.auth_id m ≡ some q
      → (q.status ≡ captured) ⊎ (q.status ≡ refunded)
      → (capture req m ≡ (ok (record { payment_id = q.capture_id; status = captured }), m))
        ⊎ (capture req m ≡ (err (status failed_precondition), m))
  unfolding capture capture_found
  capture_settled req q found (inl e) = inl (rw (found, capture_entry) (rw (e, capture_found)))
  capture_settled req q found (inr e) = inr (rw (found, capture_entry) (rw (e, capture_found)))

  capture_voided :
      (req : CaptureRequest) (q : Payment)
      → lookup req.auth_id m ≡ some q
      → q.status ≡ voided
      → capture req m ≡ (err (status failed_precondition), m)
  unfolding capture
  capture_voided req q found e = rw (found, capture_entry) (rw (e, capture_found))

  void_settled :
      (req : VoidRequest) (q : Payment)
      → lookup req.auth_id m ≡ some q
      → (q.status ≡ captured) ⊎ (q.status ≡ refunded)
      → void req m ≡ (err (status failed_precondition), m)
  unfolding void
  void_settled req q found (inl e) = rw (found, void_entry) (rw (e, void_found))
  void_settled req q found (inr e) = rw (found, void_entry) (rw (e, void_found))

  void_voided :
      (req : VoidRequest) (q : Payment)
      → lookup req.auth_id m ≡ some q
      → q.status ≡ voided
      → void req m ≡ (ok (record { status = voided }), m)
  unfolding void
  void_voided req q found e = rw (found, void_entry) (rw (e, void_found))

  void_found-ok :
      (req : VoidRequest) (p : Payment) (s : PaymentStatus) (r : VoidResponse)
      → p.status ≡ s
      → lookup req.auth_id m ≡ some p
      → (void_found req p s m).0 ≡ ok r
      → (q : Payment) × (lookup req.auth_id (void_found req p s m).1 ≡ some q) × (q.status ≡ voided)
  unfolding void_found
  void_found-ok req p authorised r e found h =
      (record p { status = voided }, lookup-insert_self req.auth_id _ m, refl)
  void_found-ok req p voided r e found h = (p, found, e)
  void_found-ok req p captured r e found h = ground arith
  void_found-ok req p refunded r e found h = ground arith

  void_entry-ok :
      (req : VoidRequest) (o : Option Payment) (r : VoidResponse)
      → lookup req.auth_id m ≡ o
      → (void_entry req o m).0 ≡ ok r
      → (q : Payment) × (lookup req.auth_id (void_entry req o m).1 ≡ some q) × (q.status ≡ voided)
  unfolding void_entry
  void_entry-ok req none r found h = ground arith
  void_entry-ok req (some p) r found h = void_found-ok req p p.status r refl found h

  void-ok :
      (req : VoidRequest) (r : VoidResponse)
      → (void req m).0 ≡ ok r
      → (q : Payment) × (lookup req.auth_id (void req m).1 ≡ some q) × (q.status ≡ voided)
  unfolding void
  void-ok req r h = void_entry-ok req (lookup req.auth_id m) r refl h

-- Once a capture has succeeded, a later capture of the same authorisation, by any key and after
-- any requests with fresh ids, either returns the payment id of the first or is refused as a
-- failed precondition. It changes nothing, and a void is refused: no payment is captured twice.
pub captured_once :
    (order : Payments → List String) (m : Payments) (req : CaptureRequest) (r : CaptureResponse)
    → (capture req m).0 ≡ ok r
    → (rs : List Request) → HasFreshIds order rs (capture req m).1
    → (key : String)
    → let m' = handle_all order rs (capture req m).1 in
      ((capture (record { auth_id = req.auth_id; idempotency_key = key }) m' ≡ (ok r, m'))
        ⊎ (capture (record { auth_id = req.auth_id; idempotency_key = key }) m'
            ≡ (err (status failed_precondition), m')))
      × (void (record { auth_id = req.auth_id }) m' ≡ (err (status failed_precondition), m'))
captured_once order m req r h rs fresh key =
    let (q, found, st, e) = capture-ok m req r h in
    let (q', found', f) =
      (handle_all-Continues order rs (capture req m).1 fresh).at req.auth_id q found in
    let st' : (q'.status ≡ captured) ⊎ (q'.status ≡ refunded) =
      subst (λ s. CanBecome s q'.status) st f.4 in
    let same : q'.capture_id ≡ q.capture_id = f.5 (λ a. ground arith) in
    (
      elim (capture_settled (handle_all order rs (capture req m).1)
          (record { auth_id = req.auth_id; idempotency_key = key }) q' found' st') [
            | inl x ↦ inl (x ∙ cc (same, e))
            | inr x ↦ inr x
          ],
      void_settled (handle_all order rs (capture req m).1) (record { auth_id = req.auth_id }) q'
          found' st',
    )

-- Once a void has succeeded, a later void of the same authorisation, after any requests with fresh
-- ids, succeeds again, a later capture is refused as a failed precondition, and neither changes
-- anything: no voided payment is captured.
pub voided_never_captured :
    (order : Payments → List String) (m : Payments) (req : VoidRequest) (r : VoidResponse)
    → (void req m).0 ≡ ok r
    → (rs : List Request) → HasFreshIds order rs (void req m).1
    → (key : String)
    → let m' = handle_all order rs (void req m).1 in
      (void (record { auth_id = req.auth_id }) m' ≡ (ok (record { status = voided }), m'))
      × (capture (record { auth_id = req.auth_id; idempotency_key = key }) m'
          ≡ (err (status failed_precondition), m'))
voided_never_captured order m req r h rs fresh key =
    let (q, found, st) = void-ok m req r h in
    let (q', found', f) =
      (handle_all-Continues order rs (void req m).1 fresh).at req.auth_id q found in
    let st' : q'.status ≡ voided = subst (λ s. CanBecome s q'.status) st f.4 in
    (
      void_voided (handle_all order rs (void req m).1) (record { auth_id = req.auth_id }) q' found'
          st',
      capture_voided (handle_all order rs (void req m).1)
          (record { auth_id = req.auth_id; idempotency_key = key }) q' found' st',
    )
