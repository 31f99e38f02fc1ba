-- ===== src/Payment/Refunds.antt =====
-- `Refund` of cmd/payment-service/handler.go, which finds a payment by the id of its capture.
use shippy.Prelude.{
  String, none, some, List, [], ◌∷◌, ◌≡◌, refl, inl, inr, ◌∙◌, Bool-cases, ◌==◌, arith, eq_iff,
  status, not_found, ok, err, Option-cases, sym, ap, ◌≢◌,
}
use shippy.Prelude.Dict.{lookup, insert, lookup-insert, lookup-insert_self, Has}
use shippy.Payment.{
  RefundResponse, captured, refunded, Payment, Payments, RefundRequest, refund, find_capture,
  refund_found, refund_key, refund_entry,
}

-- What Go says of a loop `for … range m`: it visits the keys of the map, each and no other.
pub record RangesOver (order : Payments → List String) : Type 0 where
  pub complete : (m : Payments) (k : String) (p : Payment) → lookup k m ≡ some p → Has k (order m)

module _ (m : Payments) where
  find_capture-some :
      (id : String) (ks : List String) (k : String)
      → find_capture id ks m ≡ some k
      → (p : Payment) × (lookup k m ≡ some p) × (p.capture_id ≡ id)
  unfolding find_capture
  find_capture-some id [] k h = ground arith
  find_capture-some id (j ∷ ks) k h = elim (Option-cases (lookup j m)) [
    | inl e ↦ find_capture-some id ks k (rw e at h)
    | inr (p, e) ↦ elim (Bool-cases (p.capture_id == id)) [
      | inl t ↦ (p, ground (arith, e, t), (eq_iff p.capture_id id).0 t)
      | inr t ↦ find_capture-some id ks k (ground (arith, e, t))
    ]
  ]

  find_capture-none :
      (id : String) (ks : List String)
      → find_capture id ks m ≡ none
      → (k : String) (p : Payment) → Has k ks
      → lookup k m ≡ some p
      → p.capture_id ≡ id
      → ⊥
  unfolding find_capture
  find_capture-none id [] h k p i e c = i
  find_capture-none id (j ∷ ks) h k p (inl same) e c = ground (arith, eq_iff p.capture_id id)
  find_capture-none id (j ∷ ks) h k p (inr later) e c =
      find_capture-none id ks (ground arith) k p later e c

-- The one payment of `m` whose capture has this id, under the key `k`.
abbrev pub IsOnlyCapture : String → String → Payment → Payments → Type 0
IsOnlyCapture id k p m =
    (lookup k m ≡ some p)
    × (p.capture_id ≡ id)
    × ((j : String) (q : Payment) → lookup j m ≡ some q → q.capture_id ≡ id → j ≡ k)

module _ (order : Payments → List String) (range : RangesOver order) where
  find_capture-only :
      (id k : String) (p : Payment) (m : Payments)
      → IsOnlyCapture id k p m
      → find_capture id (order m) m ≡ some k
  find_capture-only id k p m only = elim (Option-cases (find_capture id (order m) m)) [
    | inl e ↦
        absurd (find_capture-none m id (order m) e k p (range.complete m k p only.0) only.0 only.1)
    | inr (j, e) ↦
        let (q, found, c) = find_capture-some m id (order m) j e in e ∙ ap some (only.2 j q found c)
  ]

  refund_of_status :
      (req : RefundRequest) (k : String) (p : Payment) (m : Payments)
      → IsOnlyCapture req.payment_id k p m
      → refund order req m ≡ refund_found req k p p.status m
  unfolding refund
  refund_of_status req k p m only =
      rw (find_capture-only req.payment_id k p m only, refund_key) (rw (only.0, refund_entry))

  IsOnlyCapture-insert :
      (id k : String) (p q : Payment) (m : Payments)
      → IsOnlyCapture id k p m
      → q.capture_id ≡ p.capture_id
      → IsOnlyCapture id k q (insert k q m)
  IsOnlyCapture-insert id k p q m only same = (
    lookup-insert_self k q m,
    same ∙ only.1,
    λ j r found c. elim (Bool-cases (k == j)) [
      | inl t ↦ sym ((eq_iff k j).0 t)
      | inr t ↦ only.2 j r (sym (lookup-insert k j q m ∙ rw t) ∙ found) c
    ],
  )

  -- Where one payment has the capture id of the request and is captured, the refund finds it
  -- whatever the order of the loop, marks it refunded and touches no other key; the same refund
  -- made again succeeds and changes nothing.
  pub refund_once :
      (req : RefundRequest) (k : String) (p : Payment) (m : Payments)
      → IsOnlyCapture req.payment_id k p m
      → p.status ≡ captured
      → let done : RefundResponse = record { refund_id = req.idempotency_key; status = refunded } in
        let m' : Payments = insert k (record p { status = refunded }) m in
        (refund order req m ≡ (ok done, m')) × (refund order req m' ≡ (ok done, m'))
  unfolding refund_found
  refund_once req k p m only st = (
    refund_of_status req k p m only ∙ rw (st, refund_found),
    refund_of_status req k (record p { status = refunded })
        (insert k (record p { status = refunded }) m)
        (IsOnlyCapture-insert req.payment_id k p _ m only refl),
  )

  -- Where no payment has the capture id of the request, the refund is refused as not found, and
  -- nothing changes.
  pub refund_unknown :
      (req : RefundRequest) (m : Payments)
      → ((j : String) (q : Payment) → lookup j m ≡ some q → q.capture_id ≢ req.payment_id)
      → refund order req m ≡ (err (status not_found), m)
  unfolding refund
  refund_unknown req m unknown = elim (Option-cases (find_capture req.payment_id (order m) m)) [
    | inl e ↦ rw (e, refund_key)
    | inr (j, e) ↦
        let (q, found, c) = find_capture-some m req.payment_id (order m) j e in
        absurd (unknown j q found c)
  ]
