-- ===== src/Payment/Lifecycle.antt =====
-- The life of one payment under the calls of cmd/payment-service/handler.go.
use shippy.Prelude.{
  String, Option, none, some, List, [], ◌∷◌, ◌≡◌, refl, ◌≢◌, ◌⊎◌, inl, inr, ◌∙◌, Bool-cases, ◌==◌,
  arith, eq_iff, Option-cases,
}
use shippy.Prelude.Dict.{lookup, insert, lookup-insert}
use shippy.Payment.{
  PaymentStatus, authorised, captured, refunded, voided, Payment, Payments, AuthoriseRequest,
  CaptureRequest, RefundRequest, VoidRequest, authorise, capture, find_capture, refund, void,
  capture_found, refund_found, refund_key, void_found,
}

-- One change of a payment.
pub data Step (p : Payment) : Payment → Type 0 where
  capturing :
      (capture_id : String)
      → p.status ≡ authorised
      → Step p (record p { status = captured; capture_id = capture_id })
  refunding : p.status ≡ captured → Step p (record p { status = refunded })
  voiding : p.status ≡ authorised → Step p (record p { status = voided })

pub data Life (p : Payment) : Payment → Type 0 where
  stays : Life p p
  goes_on : {q r : Payment} → Life p q → Step q r → Life p r

Life-trans : {p q r : Payment} → Life p q → Life q r → Life p r
Life-trans a stays = a
Life-trans a (goes_on b s) = goes_on (Life-trans a b) s

-- The statuses that later calls can lead to.
abbrev pub CanBecome : PaymentStatus → PaymentStatus → Type 0
CanBecome authorised t = Unit
CanBecome captured t = (t ≡ captured) ⊎ (t ≡ refunded)
CanBecome refunded t = t ≡ refunded
CanBecome voided t = t ≡ voided

CanBecome-trans : (s t u : PaymentStatus) → CanBecome s t → CanBecome t u → CanBecome s u
CanBecome-trans authorised t u h k = tt
CanBecome-trans captured t u h k = ground arith
CanBecome-trans refunded t u h k = ground arith
CanBecome-trans voided t u h k = ground arith

-- `q` may be what has become of `p`: what was paid and by whom is kept, and the id of the capture
-- too, once there is one.
abbrev pub Follows : Payment → Payment → Type 0
Follows p q =
    (q.id ≡ p.id)
    × (q.consignment_id ≡ p.consignment_id)
    × (q.amount ≡ p.amount)
    × (q.currency ≡ p.currency)
    × CanBecome p.status q.status
    × (p.status ≢ authorised → q.capture_id ≡ p.capture_id)
    × Life p q

-- Every key of `m` is still there in `m'`, with a payment that follows the one it had.
pub record Continues (m m' : Payments) : Type 0 where
  pub at :
      (k : String) (p : Payment)
      → lookup k m ≡ some p
      → (q : Payment) × (lookup k m' ≡ some q) × Follows p q

CanBecome-refl : (s : PaymentStatus) → CanBecome s s
CanBecome-refl authorised = tt
CanBecome-refl captured = inl refl
CanBecome-refl refunded = refl
CanBecome-refl voided = refl

Follows-refl : (p : Payment) → Follows p p
Follows-refl p = (refl, refl, refl, refl, CanBecome-refl p.status, (λ _. refl), stays)

settled : (s t : PaymentStatus) → CanBecome s t → s ≢ authorised → t ≢ authorised
settled authorised t h n = absurd (n refl)
settled captured t h n = ground arith
settled refunded t h n = ground arith
settled voided t h n = ground arith

Follows-trans : (p q r : Payment) → Follows p q → Follows q r → Follows p r
Follows-trans p q r f g = (
  g.0 ∙ f.0,
  g.1 ∙ f.1,
  g.2 ∙ f.2,
  g.3 ∙ f.3,
  CanBecome-trans p.status q.status r.status f.4 g.4,
  (λ n. g.5 (settled p.status q.status f.4 n) ∙ f.5 n),
  Life-trans f.6 g.6,
)

Continues-refl : (m : Payments) → Continues m m
Continues-refl m = record { at = λ k p e. (p, e, Follows-refl p) }

Continues-trans : {m m' m'' : Payments} → Continues m m' → Continues m' m'' → Continues m m''
Continues-trans c d = record {
  at = λ k p e.
      let (q, found, f) = c.at k p e in
      let (r, found', g) = d.at k q found in (r, found', Follows-trans p q r f g);
}

-- A write to the entry of `k` with a payment that follows the one there.
insert-Continues :
    (k : String) (p q : Payment) (m : Payments)
    → lookup k m ≡ some p
    → Follows p q
    → Continues m (insert k q m)
insert-Continues k p q m e f = record {
  at = λ j r found. elim (Bool-cases (k == j)) [
    | inl same ↦ (q, lookup-insert k j q m ∙ rw same, ground (arith, eq_iff k j))
    | inr other ↦ (r, lookup-insert k j q m ∙ rw other found, Follows-refl r)
  ];
}

insert_new-Continues :
    (k : String) (q : Payment) (m : Payments) → lookup k m ≡ none → Continues m (insert k q m)
insert_new-Continues k q m e = record {
  at = λ j r found. elim (Bool-cases (k == j)) [
    | inl same ↦ ground (arith, eq_iff k j)
    | inr other ↦ (r, lookup-insert k j q m ∙ rw other found, Follows-refl r)
  ];
}

module _ (m : Payments) where
  authorise-Continues :
      (auth_id : String) (req : AuthoriseRequest)
      → lookup auth_id m ≡ none
      → Continues m (authorise auth_id req m).1
  unfolding authorise
  authorise-Continues auth_id req fresh = insert_new-Continues auth_id _ m fresh

  capture_found-Continues :
      (req : CaptureRequest) (p : Payment) (s : PaymentStatus)
      → p.status ≡ s
      → lookup req.auth_id m ≡ some p
      → Continues m (capture_found req p s m).1
  unfolding capture_found
  capture_found-Continues req p authorised e found = insert-Continues req.auth_id p _ m found (
    refl,
    refl,
    refl,
    refl,
    rw e tt,
    (λ n. absurd (n e)),
    goes_on stays (capturing req.idempotency_key e),
  )
  capture_found-Continues req p captured e found = Continues-refl m
  capture_found-Continues req p refunded e found = Continues-refl m
  capture_found-Continues req p voided e found = Continues-refl m

  capture-Continues : (req : CaptureRequest) → Continues m (capture req m).1
  unfolding capture
  capture-Continues req = elim (Option-cases (lookup req.auth_id m)) [
    | inl none_there ↦ rw none_there (Continues-refl m)
    | inr (p, e) ↦ rw e (capture_found-Continues req p p.status refl e)
  ]

  refund_found-Continues :
      (req : RefundRequest) (k : String) (p : Payment) (s : PaymentStatus)
      → p.status ≡ s
      → lookup k m ≡ some p
      → Continues m (refund_found req k p s m).1
  unfolding refund_found
  refund_found-Continues req k p captured e found =
      insert-Continues k p _ m found
        (refl, refl, refl, refl, rw e (inr refl), (λ n. refl), goes_on stays (refunding e))
  refund_found-Continues req k p authorised e found = Continues-refl m
  refund_found-Continues req k p refunded e found = Continues-refl m
  refund_found-Continues req k p voided e found = Continues-refl m

  refund_key-Continues :
      (req : RefundRequest) (o : Option String) → Continues m (refund_key req o m).1
  unfolding refund_key
  refund_key-Continues req none = Continues-refl m
  refund_key-Continues req (some k) = elim (Option-cases (lookup k m)) [
    | inl none_there ↦ rw none_there (Continues-refl m)
    | inr (p, e) ↦ rw e (refund_found-Continues req k p p.status refl e)
  ]

  refund-Continues :
      (order : Payments → List String) (req : RefundRequest) → Continues m (refund order req m).1
  unfolding refund
  refund-Continues order req = refund_key-Continues req (find_capture req.payment_id (order m) m)

  void_found-Continues :
      (req : VoidRequest) (p : Payment) (s : PaymentStatus)
      → p.status ≡ s
      → lookup req.auth_id m ≡ some p
      → Continues m (void_found req p s m).1
  unfolding void_found
  void_found-Continues req p authorised e found =
      insert-Continues req.auth_id p _ m found
        (refl, refl, refl, refl, rw e tt, (λ n. refl), goes_on stays (voiding e))
  void_found-Continues req p captured e found = Continues-refl m
  void_found-Continues req p refunded e found = Continues-refl m
  void_found-Continues req p voided e found = Continues-refl m

  void-Continues : (req : VoidRequest) → Continues m (void req m).1
  unfolding void
  void-Continues req = elim (Option-cases (lookup req.auth_id m)) [
    | inl none_there ↦ rw none_there (Continues-refl m)
    | inr (p, e) ↦ rw e (void_found-Continues req p p.status refl e)
  ]

-- The calls that a client can make, with the id that `uuid.NewString()` gives an authorisation.
pub data Request : Type 0 where
  authorise_as : String → AuthoriseRequest → Request
  capture_with : CaptureRequest → Request
  refund_with : RefundRequest → Request
  void_with : VoidRequest → Request

module _ (order : Payments → List String) where
  abbrev pub handle : Request → Payments → Payments
  handle (authorise_as auth_id req) m = (authorise auth_id req m).1
  handle (capture_with req) m = (capture req m).1
  handle (refund_with req) m = (refund order req m).1
  handle (void_with req) m = (void req m).1

  unfoldable pub handle_all : List Request → Payments → Payments
  handle_all [] m = m
  handle_all (r ∷ rs) m = handle_all rs (handle r m)

  -- No `uuid.NewString()` of the requests returns an id that is in use.
  abbrev pub HasFreshIds : List Request → Payments → Type 0
  HasFreshIds [] m = Unit
  HasFreshIds (authorise_as auth_id req ∷ rs) m =
      (lookup auth_id m ≡ none) × HasFreshIds rs (authorise auth_id req m).1
  HasFreshIds (capture_with req ∷ rs) m = HasFreshIds rs (capture req m).1
  HasFreshIds (refund_with req ∷ rs) m = HasFreshIds rs (refund order req m).1
  HasFreshIds (void_with req ∷ rs) m = HasFreshIds rs (void req m).1

  -- Whatever the requests, each payment keeps its key, its id, its consignment, its amount and its
  -- currency. It changes in three ways only: an authorised payment is captured, and gets the id of its
  -- capture, a captured one is refunded, and an authorised one is voided. So it is never refunded
  -- before it is captured, and never goes back, and once it has left the authorised status the id of
  -- its capture stays. The ids of new authorisations are fresh.
  pub handle_all-Continues :
      (rs : List Request) (m : Payments) → HasFreshIds rs m → Continues m (handle_all rs m)
  unfolding handle_all
  handle_all-Continues [] m h = Continues-refl m
  handle_all-Continues (authorise_as auth_id req ∷ rs) m h =
      Continues-trans (authorise-Continues m auth_id req h.0) (handle_all-Continues rs _ h.1)
  handle_all-Continues (capture_with req ∷ rs) m h =
      Continues-trans (capture-Continues m req) (handle_all-Continues rs _ h)
  handle_all-Continues (refund_with req ∷ rs) m h =
      Continues-trans (refund-Continues m order req) (handle_all-Continues rs _ h)
  handle_all-Continues (void_with req ∷ rs) m h =
      Continues-trans (void-Continues m req) (handle_all-Continues rs _ h)
