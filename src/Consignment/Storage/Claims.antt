-- ===== src/Consignment/Storage/Claims.antt =====
-- The claims of pending events by the publishers of several instances (GetPendingEvents of
-- cmd/consignment-service/storage/mongo/outbox.go).
use shippy.Prelude.{
  ℤ, ◌+ℤ◌, ltb_ℤ, String, Bool, Bool-cases, true, false, ◌&&◌, ◌≡◌, refl, sym, ◌∙◌, ap, subst, ◌⊎◌,
  inl, inr, List, [], ◌∷◌, eq_iff, arith, Result, ok, Result-cases, ok_eq,
}
use shippy.Prelude.Collection.{Any}
use shippy.Outbox.{PendingEvent, is_unset, is_over}
use shippy.Consignment.Driver.{Document, Mongo, change_where}
use shippy.Consignment.Storage.{
  is_free, claim, is_mine, decode_events, claimed_events, get_pending_events,
}

module _ {Bytes : Type 0} where
  abbrev Member : Document Bytes → List (Document Bytes) → Type 0
  Member d ds = Any (λ x. x ≡ d) ds

  -- Where a document of a changed collection comes from.
  changed_from :
      (fits : Document Bytes → Bool) (change : Document Bytes → Document Bytes)
      (ds : List (Document Bytes)) (d : Document Bytes)
      → Member d (change_where fits change ds)
      → (o : Document Bytes) × Member o ds
        × (((fits o ≡ true) × (d ≡ change o)) ⊎ ((fits o ≡ false) × (d ≡ o)))
  unfolding change_where
  changed_from fits change [] d h = elim h [ ]
  changed_from fits change (o ∷ ds) d (inr h) =
      let (o', m, c) = changed_from fits change ds d h in (o', inr m, c)
  changed_from fits change (o ∷ ds) d (inl h) = elim (Bool-cases (fits o)) [
    | inl p ↦ (o, inl refl, inl (p, sym (rw p at h)))
    | inr p ↦ (o, inl refl, inr (p, sym (rw p at h)))
  ]

  -- A document that a claim of the event `e` was made on.
  abbrev pub Claimable : (String → Result String) → ℤ → PendingEvent Bytes → Document Bytes → Type 0
  Claimable parse now e d = (is_free now d ≡ true) × (parse d.id ≡ ok e.id) × (d.event ≡ e.event)

  decoded_from :
      (parse : String → Result String) (ds : List (Document Bytes)) (es : List (PendingEvent Bytes))
      (e : PendingEvent Bytes)
      → decode_events parse ds ≡ ok es
      → Any (λ x. x ≡ e) es
      → (d : Document Bytes) × Member d ds × (parse d.id ≡ ok e.id) × (d.event ≡ e.event)
  unfolding decode_events
  decoded_from parse [] es e h m = elim (subst (Any (λ x. x ≡ e)) (sym (ok_eq h)) m) [ ]
  decoded_from parse (d ∷ ds) es e h m = elim (Result-cases (parse d.id)) [
    | inr (x, p) ↦ let h' = rw (p, decode_events) at h in cc
    | inl (id, p) ↦ elim (Result-cases (decode_events parse ds)) [
      | inr (x, q) ↦ let h' = rw (p, q, decode_events) at h in cc
      | inl (rest, q) ↦
          let same = ok_eq (rw (p, q, decode_events) at h) in
          elim (subst (Any (λ x. x ≡ e)) (sym same) m) [
            | inl here ↦ (d, inl refl, p ∙ ap (λ x. ok x.id) here, ap (λ x. x.event) here)
            | inr later ↦
                let (d', there, a, b) = decoded_from parse ds rest e q later in
                (d', inr there, a, b)
          ]
    ]
  ]

  Member-Any :
      (P : Document Bytes → Type 0) (ds : List (Document Bytes)) (d : Document Bytes)
      → Member d ds
      → P d
      → Any P ds
  Member-Any P [] d m p = elim m [ ]
  Member-Any P (o ∷ ds) d (inl same) p = inl (subst P (sym same) p)
  Member-Any P (o ∷ ds) d (inr m) p = inr (Member-Any P ds d m p)

module _ {Bytes : Type 0} (db : Mongo Bytes) where
  abbrev documents : db.State → List (Document Bytes)
  documents s = (db.content s).documents

  -- A document that a claim has just put its id on was free.
  claimed_from :
      (now until : ℤ) (s : db.State) (d : Document Bytes)
      → Member d (change_where (is_free now) (claim (db.uuid s) until) (documents s))
      → is_mine (db.uuid s) d ≡ true
      → (o : Document Bytes) × Member o (documents s)
        × (is_free now o ≡ true)
        × (d ≡ claim (db.uuid s) until o)
  unfolding is_mine
  claimed_from now until s d there mine =
      let (o, m, from) =
        changed_from (is_free now) (claim (db.uuid s) until) (documents s) d there in
      elim from [
        | inl (free, new) ↦ (o, m, free, new)
        | inr (taken, old) ↦
            let same : d.claim_id ≡ db.uuid s = ground (arith, eq_iff d.claim_id (db.uuid s)) in
            absurd (
              db.uuid-claim s (
                Member-Any (λ x. x.claim_id ≡ db.uuid s) (documents s) o m
                  (sym (ap (λ x. x.claim_id) old) ∙ same)))
      ]

  -- What a poll that succeeds has returned, and the documents after it.
  polled :
      (parse : String → Result String) (now lease : ℤ) (s : db.State)
      (es : List (PendingEvent Bytes))
      → let r = get_pending_events db parse now lease s in
        r.0 ≡ ok es
        → (documents r.1
            ≡ change_where (is_free now) (claim (db.uuid s) (now +ℤ lease)) (documents s))
          × ((e : PendingEvent Bytes)
              → Any (λ x. x ≡ e) es
              → (d : Document Bytes) × Member d (documents s) × Claimable parse now e d)
  unfolding get_pending_events claimed_events claim
  polled parse now lease s es h =
      let id : String = db.uuid s in
      let change = claim id (now +ℤ lease) in
      let s1 : db.State = (db.update_documents (is_free now) change s).1 in
      let (same, found) = db.find_documents_lem (is_mine id) s1 in
      elim (Result-cases (db.update_documents (is_free now) change s).0) [
        | inr (x, p) ↦ let h' = rw p at h in cc
        | inl (a, p) ↦ elim (Result-cases (db.find_documents (is_mine id) s1).0) [
          | inr (x, q) ↦ let h' = rw (p, q) at h in cc
          | inl (ds, q) ↦
              let after = db.update_documents_lem (is_free now) change s p in
              let decoded : decode_events parse ds ≡ ok es = rw (p, q) at h in
              rw (p, q)
                (
                  ap (λ c. c.documents) same ∙ after,
                  λ e m.
                      let (d, there, ids, events) = decoded_from parse ds es e decoded m in
                      let (there1, mine) = found ds d q there in
                      let (o, m0, free, new) =
                        claimed_from now (now +ℤ lease) s d (subst (Member d) after there1) mine in
                      (
                        o,
                        m0,
                        (
                          free,
                          sym (ap (λ x. parse x.id) new) ∙ ids,
                          sym (ap (λ x. x.event) new) ∙ events,
                        ),
                      ),
                )
        ]
      ]

  -- A publisher that polls before the leases of another end gets none of its events: each event of
  -- the first poll is of a document that was free, and each event of the second is of one that was
  -- not free when the first polled. Both polls succeed, on two readings of the clock, the second not
  -- after the end of the leases, and nothing is written in between.
  pub claimed_once :
      (parse : String → Result String) (now lease now' lease' : ℤ) (s : db.State)
      (es es' : List (PendingEvent Bytes))
      → let r = get_pending_events db parse now lease s in
        r.0 ≡ ok es
        → (get_pending_events db parse now' lease' r.1).0 ≡ ok es'
        → ltb_ℤ (now +ℤ lease) now' ≡ false
        → ((e : PendingEvent Bytes)
            → Any (λ x. x ≡ e) es
            → (d : Document Bytes) × Member d (documents s) × Claimable parse now e d)
          × ((e : PendingEvent Bytes)
              → Any (λ x. x ≡ e) es'
              → (d : Document Bytes) × Member d (documents s)
                × (is_free now d ≡ false)
                × (parse d.id ≡ ok e.id)
                × (d.event ≡ e.event))
  unfolding is_free claim
  claimed_once parse now lease now' lease' s es es' h h' leased =
      let (after, first) = polled parse now lease s es h in
      let (_, second) =
        polled parse now' lease' (get_pending_events db parse now lease s).1 es' h' in
      (
        first,
        λ e m.
            let (d, there, (free, ids, events)) = second e m in
            let (o, m0, from) =
              changed_from (is_free now) (claim (db.uuid s) (now +ℤ lease)) (documents s) d
                (subst (Member d) after there) in
            elim from [
              | inl (_, new) ↦
                  let until : is_over now' d.processing_until ≡ false =
                    ap (λ x. is_over now' x.processing_until) new ∙ leased in
                  let free' : is_unset d.published_at && is_over now' d.processing_until ≡ true =
                    free in
                  ground arith
              | inr (taken, old) ↦ (
                o,
                m0,
                taken,
                sym (ap (λ x. parse x.id) old) ∙ ids,
                sym (ap (λ x. x.event) old) ∙ events,
              )
            ],
      )
