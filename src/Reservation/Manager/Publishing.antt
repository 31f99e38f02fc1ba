-- ===== src/Reservation/Manager/Publishing.antt =====
-- What the publishing functions of the reservation service leave in the outbox (publish* of
-- cmd/reservation-service/manager/event.go).
use shippy.Prelude.{
  String, ◌≡◌, refl, subst, List, inl, inr, Result, ok, Result-cases, ⊤, Exec, lift, with_text,
  raise, on_error, with_text-state, with_text-ok,
}
use shippy.Prelude.Backoff.{Backoff}
use shippy.Events.{CapacityEvent, Wire, Codec}
use shippy.Outbox.{OutboxEvent, OutboxRepository, Created, Scheduled}
use shippy.Reservation.{ReservationCache, VesselClient}
use shippy.Reservation.Manager.{
  Manager, count_retry, retry_topic, retry_key, publish_counted, publish_retry_event, on_outbox,
}

module _ (wire : Wire) (cache : ReservationCache) (outbox : OutboxRepository wire.Bytes)
    (vessel_cli : VesselClient) (backoff : Backoff) where
  abbrev pub World : Type 0
  World = Manager wire cache outbox vessel_cli backoff

  abbrev pub rows : World → List (OutboxEvent wire.Bytes)
  rows w = outbox.rows w.outbox

  -- One message, marshalled and written to the outbox.
  abbrev pub publish :
      {E : Type 0} → Codec wire.Bytes E → String → String → String → E → Exec World ⊤
  publish codec text topic key message =
      on_error (with_text text (lift (codec.marshal message))) raise (λ payload.
        on_outbox (outbox.create_event (record { topic = topic; key = key; payload = payload })))

  -- It touches the outbox alone, and a success leaves the message there.
  abbrev pub Publishes :
      {E : Type 0} → Codec wire.Bytes E → String → String → E → World → Result ⊤ → World → Type 0
  Publishes codec topic key message w r w' =
      (w'.vessel ≡ w.vessel)
      × (w'.cache ≡ w.cache)
      × (r ≡ ok tt → Scheduled codec topic key message (rows w) (rows w'))

  pub publish-Publishes :
      {E : Type 0} (codec : Codec wire.Bytes E) (text topic key : String) (message : E) (w : World)
      → Publishes codec topic key message w
          (publish codec text topic key message w).0
          (publish codec text topic key message w).1
  publish-Publishes codec text topic key message w = elim (Result-cases (codec.marshal message)) [
    | inr (e, p) ↦ rw p (refl, refl, λ h. cc)
    | inl (payload, p) ↦
        let row : OutboxEvent wire.Bytes = record { topic = topic; key = key; payload = payload } in
        rw p (
          refl,
          refl,
          λ h. (
            payload,
            codec.unmarshal-marshal message payload p,
            subst (Created row (rows w) (outbox.rows (outbox.create_event row w.outbox).1)) h
                (outbox.create_event_lem row w.outbox),
          ),
        )
  ]

  pub with_text-Publishes :
      {E : Type 0} (codec : Codec wire.Bytes E) (text topic key : String) (message : E)
      (m : Exec World ⊤) (w : World)
      → Publishes codec topic key message w (m w).0 (m w).1
      → Publishes codec topic key message w (with_text text m w).0 (with_text text m w).1
  with_text-Publishes codec text topic key message m w (v, c, s) =
      rw (with_text-state text m w) (v, c, λ h. s (with_text-ok text m w tt h))

  pub publish_counted-Publishes :
      (e : CapacityEvent) (w : World)
      → let r = publish_counted wire cache outbox vessel_cli backoff e w in
        Publishes wire.capacity (retry_topic e) (retry_key e) e w r.0 r.1
  unfolding publish_counted
  publish_counted-Publishes e w = elim (Result-cases (wire.capacity.marshal e)) [
    | inr (x, p) ↦ rw p (refl, refl, λ h. cc)
    | inl (payload, p) ↦
        let q =
          publish-Publishes wire.capacity "failed to marshal event" (retry_topic e) (retry_key e) e
            w in
        rw p (
          with_text-Publishes wire.capacity "failed to create outbox event" (retry_topic e)
            (retry_key e) e
            (on_outbox (
              outbox.create_event
                (record { topic = retry_topic e; key = retry_key e; payload = payload })))
            w (rw p at q))
  ]

  pub publish_retry-Publishes :
      (text : String) (e : CapacityEvent) (w : World)
      → let r = with_text text (publish_retry_event wire cache outbox vessel_cli backoff e) w in
        Publishes wire.capacity
          (retry_topic (count_retry e))
          (retry_key (count_retry e))
          (count_retry e)
          w
          r.0
          r.1
  unfolding publish_retry_event
  publish_retry-Publishes text e w =
      with_text-Publishes wire.capacity text (retry_topic (count_retry e))
        (retry_key (count_retry e)) (count_retry e)
        (publish_counted wire cache outbox vessel_cli backoff (count_retry e)) w
        (publish_counted-Publishes (count_retry e) w)
