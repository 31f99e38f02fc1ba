-- ===== src/Consignment/Manager/Publishing.antt =====
-- What the publishing functions and the transaction of the consignment service leave in the
-- database (publish* and WithTransaction in cmd/consignment-service/manager/event.go).
use shippy.Prelude.{
  String, Bool-cases, some, ◌≡◌, refl, ap, subst, ◌⊎◌, inl, inr, Result, ok, Result-cases, ⊤, Exec,
  lift, with_text, raise, on_error, with_text-state, with_text-ok, pos, ltb_ℤ, if◌then◌else◌,
}
use shippy.Prelude.Backoff.{Backoff}
use shippy.Events.{
  PaymentAuthorisedEvent, Wire, Codec, payment_authorised_topic, payment_captured_topic,
  confirmation_failed_topic,
}
use shippy.Outbox.{OutboxEvent, Created, Scheduled}
use shippy.Consignment.{
  Consignment, ConsignmentStore, PaymentClient, View, find, set_one, Written, Transaction, commit,
  lost, abort, again, false,
}
use shippy.Consignment.Manager.{
  max_retries, retry_key, capture_failed, payment_event, captured_update,
  publish_capture_failed_to_dlq, publish_retry, publish_payment_authorised,
  publish_payment_captured, record_writes,
}

module _ {Bytes : Type 0} (store : ConsignmentStore Bytes) where
  -- The consignments stay, and a success leaves the message in the outbox.
  abbrev pub Published :
      {E : Type 0}
      → Codec Bytes E
      → String
      → String
      → E
      → View Bytes
      → View Bytes
      → Result ⊤
      → Type 0
  Published codec topic key message v v' r =
      (v'.consignments ≡ v.consignments)
      × (r ≡ ok tt → Scheduled codec topic key message v.events v'.events)

  abbrev publish : {E : Type 0} → Codec Bytes E → String → String → String → E → Exec store.State ⊤
  publish codec text topic key message =
      on_error (with_text text (lift (codec.marshal message))) raise
        (λ payload. store.create_event (record { topic = topic; key = key; payload = payload }))

  pub publish-Published :
      {E : Type 0} (codec : Codec Bytes E) (text topic key : String) (message : E) (s : store.State)
      → let r = publish codec text topic key message s in
        Published codec topic key message (store.view s) (store.view r.1) r.0
  publish-Published codec text topic key message s = elim (Result-cases (codec.marshal message)) [
    | inr (e, p) ↦ rw p (refl, λ h. cc)
    | inl (payload, p) ↦
        let row : OutboxEvent Bytes = record { topic = topic; key = key; payload = payload } in
        rw p (
          store.create_event-consignments row s,
          λ h. (
            payload,
            codec.unmarshal-marshal message payload p,
            subst
                (Created row (store.view s).events (store.view (store.create_event row s).1).events)
                h (store.create_event_lem row s),
          ),
        )
  ]

  pub with_text-Published :
      {E : Type 0} (codec : Codec Bytes E) (text topic key : String) (message : E)
      (m : Exec store.State ⊤) (s : store.State)
      → Published codec topic key message (store.view s) (store.view (m s).1) (m s).0
      → let r = with_text text m s in
        Published codec topic key message (store.view s) (store.view r.1) r.0
  with_text-Published codec text topic key message m s (c, p) =
      rw (with_text-state text m s) (c, λ h. p (with_text-ok text m s tt h))

module _ (wire : Wire) (store : ConsignmentStore wire.Bytes) (payment_cli : PaymentClient)
    (backoff : Backoff) where
  abbrev pub Data : Type 0
  Data = View wire.Bytes

  -- The event is in the outbox again, or as a failed one where its retries are used up.
  abbrev pub Retried : PaymentAuthorisedEvent → Data → Data → Type 0
  Retried e v v' =
      if ltb_ℤ (pos max_retries) e.retry_count
      then Scheduled wire.confirmation_failed confirmation_failed_topic e.consignment_id
          (record {
            consignment_id = e.consignment_id;
            reservation_id = "";
            vessel_id = "";
            payment_id = e.payment_id;
            weight = pos 0;
            containers = pos 0;
            cache_cleared = false;
            payment_captured = e.payment_captured;
            payment_auth_id = e.payment_auth_id;
            saga_started_at = e.saga_started_at;
          })
          v.events v'.events
      else Scheduled wire.payment_authorised payment_authorised_topic (retry_key e) e v.events
          v'.events

  publish_retry-Published :
      (e : PaymentAuthorisedEvent) (s : store.State)
      → let r = publish_retry wire store payment_cli backoff e s in
        Published store wire.payment_authorised payment_authorised_topic
          (retry_key e)
          e
          (store.view s)
          (store.view r.1)
          r.0
  unfolding publish_retry
  publish_retry-Published e s = elim (Result-cases (wire.payment_authorised.marshal e)) [
    | inr (x, p) ↦ rw p (refl, λ h. cc)
    | inl (payload, p) ↦
        let q =
          publish-Published store wire.payment_authorised "failed to marshal event"
            payment_authorised_topic (retry_key e) e s in
        rw p (
          with_text-Published store wire.payment_authorised "failed to create outbox event"
            payment_authorised_topic (retry_key e) e
            (store.create_event
              (record { topic = payment_authorised_topic; key = retry_key e; payload = payload }))
            s (rw p at q))
  ]

  pub publish_authorised-Retried :
      (e : PaymentAuthorisedEvent) (s : store.State)
      → let r = publish_payment_authorised wire store payment_cli backoff e s in
        ((store.view r.1).consignments ≡ (store.view s).consignments)
        × (r.0 ≡ ok tt → Retried e (store.view s) (store.view r.1))
  unfolding publish_payment_authorised publish_capture_failed_to_dlq capture_failed
  publish_authorised-Retried e s = elim (Bool-cases (ltb_ℤ (pos max_retries) e.retry_count)) [
    | inl over ↦ rw over (
        publish-Published store wire.confirmation_failed
          "failed to marshal confirmation failed event" confirmation_failed_topic e.consignment_id
          (capture_failed e) s)
    | inr left ↦ rw left (publish_retry-Published e s)
  ]

  pub retried :
      (e : PaymentAuthorisedEvent) (s : store.State)
      → let r =
          with_text "failed to schedule event retry"
            (publish_payment_authorised wire store payment_cli backoff e)
            s in
        ((store.view r.1).consignments ≡ (store.view s).consignments)
        × (r.0 ≡ ok tt → Retried e (store.view s) (store.view r.1))
  retried e s =
      let m : Exec store.State ⊤ = publish_payment_authorised wire store payment_cli backoff e in
      let (c, p) = publish_authorised-Retried e s in
      rw (with_text-state "failed to schedule event retry" m s)
        (c, λ h. p (with_text-ok "failed to schedule event retry" m s tt h))

  -- The captured payment is in the outbox and at the consignment.
  abbrev pub Recorded : PaymentAuthorisedEvent → Data → Data → Type 0
  Recorded e v v' =
      Scheduled wire.payment_captured payment_captured_topic e.consignment_id (payment_event e)
        v.events v'.events
      × ((c : Consignment) × (find e.consignment_id v.consignments ≡ some c))
      × (v'.consignments ≡ set_one e.consignment_id (captured_update e) v.consignments)

  writes-Recorded :
      (e : PaymentAuthorisedEvent) (s t : store.State)
      → record_writes wire store payment_cli backoff e s ≡ (ok tt, t)
      → Recorded e (store.view s) (store.view t)
  unfolding record_writes publish_payment_captured captured_update
  writes-Recorded e s t h =
      let text : String = "failed to marshal payment captured event" in
      let m : Exec store.State ⊤ =
        publish store wire.payment_captured text payment_captured_topic e.consignment_id
          (payment_event e) in
      let (c, p) =
        publish-Published store wire.payment_captured text payment_captured_topic e.consignment_id
          (payment_event e) s in
      elim (Result-cases (m s).0) [
        | inr (x, q) ↦ let h' = rw q at h in cc
        | inl (b, q) ↦
            let h' : store.update e.consignment_id (captured_update e) (m s).1 ≡ (ok tt, t) =
              rw q at h in
            let ((c0, there), after) =
              subst
                (λ x.
                  Written e.consignment_id (captured_update e) (store.view (m s).1) (store.view x.1)
                    x.0)
                h' (store.update_lem e.consignment_id (captured_update e) (m s).1 refl) in
            rw after (
              p (cc),
              (c0, subst (λ x. find e.consignment_id x ≡ some c0) c there),
              ap (set_one e.consignment_id (captured_update e)) c,
            )
      ]

  -- All of the writes or none.
  pub Transaction-Recorded :
      (e : PaymentAuthorisedEvent) {s t : store.State} {r : Result ⊤}
      → Transaction store.view (record_writes wire store payment_cli backoff e) s r t
      → ((store.view t ≡ store.view s) ⊎ Recorded e (store.view s) (store.view t))
        × (r ≡ ok tt → Recorded e (store.view s) (store.view t))
  Transaction-Recorded e (commit {s = s} {t = t} h v) =
      let q : Recorded e (store.view s) (store.view t) = writes-Recorded e s t h in
      rw v (inr q, λ _. q)
  Transaction-Recorded e (lost {s = s} {t = t} h v) =
      let q : Recorded e (store.view s) (store.view t) = writes-Recorded e s t h in
      rw v (inr q, λ h. cc)
  Transaction-Recorded e (abort v) = (inl v, λ h. cc)
  Transaction-Recorded e (again {u = u} {r = r} v rest) =
      subst
        (λ x.
          ((store.view u ≡ x) ⊎ Recorded e x (store.view u))
          × (r ≡ ok tt → Recorded e x (store.view u)))
        v (Transaction-Recorded e rest)
