-- ===== src/Kafka/Producer/Delivery.antt =====
-- What the result of the producer says about the delivery (pkg/kafka/producer.go), and the producer as
-- the one that the publisher of the outbox uses.
use shippy.Prelude.{
  String, Bool-cases, true, Option, none, some, ◌≡◌, ◌≢◌, refl, ap, ◌∙◌, ◌⊎◌, inl, inr, ◌↔◌, List,
  [], ◌∷◌, ◌++◌, map, Result, ok, err, Result-cases, ok_eq, is_broker_unreachable, Exec, ⊤,
}
use shippy.Outbox.{OutboxEvent}
use shippy.Outbox.Publisher.{Producer}
use shippy.Kafka.{
  ErrorCode, no_error, timed_out, msg_timed_out, transport, topic_already_exists, other,
}
use shippy.Kafka.Headers.{Header}
use shippy.Kafka.Producer.{
  KafkaError, ProducerMessage, ProducerClient, is_code, is_unreachable, delivered, produce,
}

-- The result is an error by which the publisher stops.
abbrev pub SaysUnreachable : Result ⊤ → Type 0
SaysUnreachable (ok _) = ⊥
SaysUnreachable (err e) = is_broker_unreachable e ≡ true

is_unreachable_lem :
    (e : KafkaError) → is_unreachable e ≡ true → (e.code ≡ msg_timed_out) ⊎ (e.code ≡ transport)
unfolding is_unreachable
is_unreachable_lem e h = by_code e.code h
  where
    by_code : (c : ErrorCode) → is_code c ≡ true → (c ≡ msg_timed_out) ⊎ (c ≡ transport)
    by_code msg_timed_out h = inl refl
    by_code transport h = inr refl
    by_code no_error h = cc
    by_code timed_out h = cc
    by_code topic_already_exists h = cc
    by_code other h = cc

is_unreachable_of_code :
    (e : KafkaError) → (e.code ≡ msg_timed_out) ⊎ (e.code ≡ transport) → is_unreachable e ≡ true
unfolding is_unreachable
is_unreachable_of_code e (inl h) = ap is_code h
is_unreachable_of_code e (inr h) = ap is_code h

module _ {Bytes : Type 0} (cli : ProducerClient Bytes) where
  -- The delivery report of a message that was put into the queue.
  abbrev pub Reported : ProducerMessage Bytes → cli.State → Option KafkaError → Type 0
  Reported m s report =
      ((cli.enqueue m s).0 ≡ ok tt) × ((cli.await m (cli.enqueue m s).1).0 ≡ ok report)

  delivered_lem :
      (report : Option KafkaError) (s : cli.State)
      → ((delivered cli report s).0 ≡ ok tt ↔ (report ≡ none))
        × (SaysUnreachable (delivered cli report s).0
            ↔ ((e : KafkaError) × (report ≡ some e) × (is_unreachable e ≡ true)))
        × ((delivered cli report s).1 ≡ s)
  unfolding delivered
  delivered_lem none s = ((λ _. refl, λ _. refl), (λ h. elim h [ ], λ (x, h, _). cc), refl)
  delivered_lem (some e) s = elim (Bool-cases (is_unreachable e)) [
    | inl p ↦ rw p ((λ h. cc, λ h. cc), (λ _. (e, refl, p), λ _. refl), refl)
    | inr p ↦ rw p ((λ h. cc, λ h. cc), (λ h. cc, λ (x, h, q). cc), refl)
  ]

  -- The producer answers without an error exactly when the message was put into the queue and its
  -- report came without an error, and with an error that says that the broker is unreachable exactly
  -- when the report of the queued message has the code `ErrMsgTimedOut` or `ErrTransport`.
  pub produce_lem :
      (topic key : String) (value : Bytes) (headers : List Header) (s : cli.State)
      → let m : ProducerMessage Bytes = record {
        topic = topic;
        key = key;
        value = value;
        headers = headers;
      } in
        let r = (produce cli topic key value headers s).0 in
        (r ≡ ok tt ↔ Reported m s none)
        × (SaysUnreachable r ↔ (
            (e : KafkaError) × Reported m s (some e)
            × ((e.code ≡ msg_timed_out) ⊎ (e.code ≡ transport))))
  unfolding produce
  produce_lem topic key value headers s =
      let m : ProducerMessage Bytes = record {
        topic = topic;
        key = key;
        value = value;
        headers = headers;
      } in
      let s1 : cli.State = (cli.enqueue m s).1 in
      elim (Result-cases (cli.enqueue m s).0) [
        | inr (e, p) ↦
            let no = cli.enqueue_error m s e p in
            rw p ((λ h. cc, λ (h, _). cc), (λ h. cc, λ (x, (h, _), _). cc))
        | inl (a, p) ↦ elim (Result-cases (cli.await m s1).0) [
          | inr (e, q) ↦
              let no = cli.await_error m s1 e q in
              rw (p, q) ((λ h. cc, λ (_, h). cc), (λ h. cc, λ (x, (_, h), _). cc))
          | inl (report, q) ↦
              let (sent, unreachable, _) = delivered_lem report (cli.await m s1).1 in
              rw (p, q)
                (
                  (λ h. (refl, ap ok (sent.0 h)), λ (_, h). sent.1 (ok_eq h)),
                  (
                    λ h.
                        let (e, same, u) = unreachable.0 h in
                        (e, (refl, ap ok same), is_unreachable_lem e u),
                    λ (e, (_, h), c). unreachable.1 (e, ok_eq h, is_unreachable_of_code e c),
                  ),
                )
        ]
      ]

  abbrev pub to_event : ProducerMessage Bytes → OutboxEvent Bytes
  to_event m = record { topic = m.topic; key = m.key; payload = m.value }

  map-append :
      (ms : List (ProducerMessage Bytes)) (m : ProducerMessage Bytes)
      → map to_event (ms ++ m ∷ []) ≡ map to_event ms ++ to_event m ∷ []
  map-append [] m = refl
  map-append (x ∷ ms) m = ap (λ l. to_event x ∷ l) (map-append ms m)

  -- The producer as the publisher uses it, with the headers of the event's trace context.
  module _ (headers : OutboxEvent Bytes → List Header) where
    abbrev pub send : OutboxEvent Bytes → Exec cli.State ⊤
    send e = produce cli e.topic e.key e.payload (headers e)

    pub send_lem :
        (e : OutboxEvent Bytes) (s : cli.State)
        → ((send e s).0 ≢ ok tt)
            × (map to_event (cli.sent (send e s).1) ≡ map to_event (cli.sent s))
          ⊎ (map to_event (cli.sent (send e s).1) ≡ map to_event (cli.sent s) ++ e ∷ [])
    unfolding produce
    send_lem e s =
        let m : ProducerMessage Bytes = record {
          topic = e.topic;
          key = e.key;
          value = e.payload;
          headers = headers e;
        } in
        let s1 : cli.State = (cli.enqueue m s).1 in
        let s2 : cli.State = (cli.await m s1).1 in
        let same = cli.enqueue-sent m s in
        elim (Result-cases (cli.enqueue m s).0) [
          | inr (x, p) ↦ rw p (inl (λ h. cc, ap (map to_event) same))
          | inl (a, p) ↦ elim (Result-cases (cli.await m s1).0) [
            | inr (x, q) ↦ elim (cli.await-sent m s1) [
              | inl (_, kept) ↦ rw (p, q) (inl (λ h. cc, ap (map to_event) (kept ∙ same)))
              | inr new ↦
                  rw (p, q)
                    (inr (
                      ap (map to_event) new
                      ∙ map-append (cli.sent s1) m
                      ∙ ap (λ l. map to_event l ++ e ∷ []) same))
            ]
            | inl (report, q) ↦
                let (sent, _, still) = delivered_lem report s2 in
                let shown = ap (λ t. map to_event (cli.sent t)) still in
                elim (cli.await-sent m s1) [
                  | inl (bad, kept) ↦
                      rw (p, q)
                        (inl (
                          λ h. bad (q ∙ ap ok (sent.0 h)),
                          shown ∙ ap (map to_event) (kept ∙ same),
                        ))
                  | inr new ↦
                      rw (p, q)
                        (inr (
                          shown
                          ∙ ap (map to_event) new
                          ∙ map-append (cli.sent s1) m
                          ∙ ap (λ l. map to_event l ++ e ∷ []) same))
                ]
          ]
        ]

    abbrev pub kafka_producer : Producer Bytes
    kafka_producer = record {
      State = cli.State;
      sent = λ s. map to_event (cli.sent s);
      deadline = cli.deadline;
      produce = send;
      deadline-sent = λ s. ap (map to_event) (cli.deadline-sent s);
      produce-sent = send_lem;
    }
