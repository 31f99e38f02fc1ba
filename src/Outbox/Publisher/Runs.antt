-- ===== src/Outbox/Publisher/Runs.antt =====
-- What a run of the publisher sends and marks (publishOutbox of
-- cmd/consignment-service/manager/outbox.go).
use shippy.Prelude.{
  String, Bool-cases, true, ◌≡◌, refl, ◌∙◌, sym, ap, subst, List, [], ◌∷◌, ◌++◌, map, inl, inr,
  Result, ok, err, Error, is_broker_unreachable, is_context_ended, Result-cases, ⊤,
}
use mathlib.Core.List.{append_assoc, append-nil}
use shippy.Prelude.Collection.{Sublist, empty, keep, skip, Sublist-none}
use shippy.Outbox.{OutboxEvent, PendingEvent}
use shippy.Outbox.Publisher.{
  PublisherOutbox, Producer, World, on_outbox, on_broker, produce_failed, publish_events,
  publish_outbox,
}

module _ {Bytes : Type 0} (outbox : PublisherOutbox Bytes) (producer : Producer Bytes) where
  abbrev Service : Type 0
  Service = World outbox producer

  -- A run over the events `es`: it sent `ns` and marked `ms`.
  abbrev pub PublishedFrom :
      List String
      → List (OutboxEvent Bytes)
      → List (PendingEvent Bytes)
      → Result ⊤
      → Service
      → Type 0
  PublishedFrom marked sent es r w' =
      (ms ns : List (PendingEvent Bytes)) × (outbox.marked w'.outbox ≡ marked ++ map (λ e. e.id) ms)
      × (producer.sent w'.broker ≡ sent ++ map (λ e. e.event) ns)
      × Sublist ms ns
      × Sublist ns es
      × ((x : Error) → r ≡ err x → is_broker_unreachable x ≡ true)

  abbrev pub Published : List (PendingEvent Bytes) → Service → Result ⊤ → Service → Type 0
  Published es w r w' = PublishedFrom (outbox.marked w.outbox) (producer.sent w.broker) es r w'

  err_eq : {x y : Error} → Path (Result ⊤) (err x) (err y) → x ≡ y
  err_eq h = cc

  -- A step before a run: it sent nothing, sent the event, or sent and marked it.
  before_nothing :
      {es : List (PendingEvent Bytes)} {w' : Service} {r : Result ⊤} (w w1 : Service)
      (e : PendingEvent Bytes)
      → outbox.marked w1.outbox ≡ outbox.marked w.outbox
      → producer.sent w1.broker ≡ producer.sent w.broker
      → Published es w1 r w'
      → Published (e ∷ es) w r w'
  before_nothing w w1 e m s (ms, ns, pm, ps, sub, all, x) =
      rw (sym m, sym s) (ms, ns, pm, ps, sub, skip all, x)

  before_sent :
      {es : List (PendingEvent Bytes)} {w' : Service} {r : Result ⊤} (w w1 : Service)
      (e : PendingEvent Bytes)
      → outbox.marked w1.outbox ≡ outbox.marked w.outbox
      → producer.sent w1.broker ≡ producer.sent w.broker ++ e.event ∷ []
      → Published es w1 r w'
      → Published (e ∷ es) w r w'
  before_sent w w1 e m s (ms, ns, pm, ps, sub, all, x) = (
    ms,
    e ∷ ns,
    pm ∙ ap (λ l. l ++ map (λ e. e.id) ms) m,
    ps
        ∙ ap (λ l. l ++ map (λ e. e.event) ns) s
        ∙ append_assoc (producer.sent w.broker) (e.event ∷ []) (map (λ e. e.event) ns),
    skip sub,
    keep all,
    x,
  )

  before_marked :
      {es : List (PendingEvent Bytes)} {w' : Service} {r : Result ⊤} (w w1 : Service)
      (e : PendingEvent Bytes)
      → outbox.marked w1.outbox ≡ outbox.marked w.outbox ++ e.id ∷ []
      → producer.sent w1.broker ≡ producer.sent w.broker ++ e.event ∷ []
      → Published es w1 r w'
      → Published (e ∷ es) w r w'
  before_marked w w1 e m s (ms, ns, pm, ps, sub, all, x) = (
    e ∷ ms,
    e ∷ ns,
    pm
        ∙ ap (λ l. l ++ map (λ e. e.id) ms) m
        ∙ append_assoc (outbox.marked w.outbox) (e.id ∷ []) (map (λ e. e.id) ms),
    ps
        ∙ ap (λ l. l ++ map (λ e. e.event) ns) s
        ∙ append_assoc (producer.sent w.broker) (e.event ∷ []) (map (λ e. e.event) ns),
    keep sub,
    keep all,
    x,
  )

  stopped :
      (es : List (PendingEvent Bytes)) (w w' : Service) (r : Result ⊤)
      → outbox.marked w'.outbox ≡ outbox.marked w.outbox
      → producer.sent w'.broker ≡ producer.sent w.broker
      → ((x : Error) → r ≡ err x → is_broker_unreachable x ≡ true)
      → Published es w r w'
  stopped es w w' r m s x = (
    [],
    [],
    m ∙ sym (append-nil (outbox.marked w.outbox)),
    s ∙ sym (append-nil (producer.sent w.broker)),
    empty,
    Sublist-none es,
    x,
  )

  produce_failed-Published :
      (es : List (PendingEvent Bytes)) (x : Error) (w : Service)
      → Published es w
          (publish_events outbox producer es w).0
          (publish_events outbox producer es w).1
      → let r = produce_failed outbox producer (publish_events outbox producer es) x w in
        Published es w r.0 r.1
  produce_failed-Published es x w rest = elim (Bool-cases (is_context_ended x)) [
    | inl p ↦ simp p (stopped es w w (ok tt) refl refl (λ y h. cc))
    | inr p ↦ elim (Bool-cases (is_broker_unreachable x)) [
      | inl q ↦
          simp (p, q)
            (stopped es w w (err x) refl refl
              (λ y h. let e : x ≡ y = err_eq h in subst (λ z. is_broker_unreachable z ≡ true) e q))
      | inr q ↦ simp (p, q) rest
    ]
  ]

  published :
      (es : List (PendingEvent Bytes)) (w : Service)
      → let r = publish_events outbox producer es w in Published es w r.0 r.1
  unfolding publish_events
  published [] w = stopped [] w w (ok tt) refl refl (λ y h. cc)
  published (e ∷ es) w =
      let w1 : Service = (on_broker outbox producer producer.deadline w).1 in
      let w2 : Service = (on_broker outbox producer (producer.produce e.event) w1).1 in
      elim (Result-cases (producer.deadline w.broker).0) [
        | inr (x, p) ↦
            rw p (stopped (e ∷ es) w w1 (ok tt) refl (producer.deadline-sent w.broker) (λ y h. cc))
        | inl (a, p) ↦ elim (Result-cases (producer.produce e.event w1.broker).0) [
          | inr (x, q) ↦
              let rest : Published es w2
                  (produce_failed outbox producer (publish_events outbox producer es) x w2).0
                  (produce_failed outbox producer (publish_events outbox producer es) x w2).1 =
                produce_failed-Published es x w2 (published es w2) in
              rw (p, q)
                (elim (producer.produce-sent e.event w1.broker) [
                  | inl (_, s) ↦
                      before_nothing w w2 e refl (s ∙ producer.deadline-sent w.broker) rest
                  | inr s ↦
                      before_sent w w2 e refl
                        (s ∙ ap (λ l. l ++ e.event ∷ []) (producer.deadline-sent w.broker)) rest
                ])
          | inl (b, q) ↦
              let w3 : Service = (on_outbox outbox producer (outbox.mark_published e.id) w2).1 in
              rw (p, q)
                (elim (producer.produce-sent e.event w1.broker) [
                  | inl (ne, s) ↦ absurd (ne q)
                  | inr s ↦
                      let s' : producer.sent w3.broker ≡ producer.sent w.broker ++ e.event ∷ [] =
                        s ∙ ap (λ l. l ++ e.event ∷ []) (producer.deadline-sent w.broker) in
                      elim (outbox.mark_published-marked e.id w.outbox) [
                        | inl m ↦ before_sent w w3 e m s' (published es w3)
                        | inr m ↦ before_marked w w3 e m s' (published es w3)
                      ]
                ])
        ]
      ]

  all_sent :
      ((s : producer.State) → (producer.deadline s).0 ≡ ok tt)
      → ((e : OutboxEvent Bytes) (s : producer.State) → (producer.produce e s).0 ≡ ok tt)
      → (es : List (PendingEvent Bytes)) (w : Service)
      → let r = publish_events outbox producer es w in
        (r.0 ≡ ok tt) × (producer.sent r.1.broker ≡ producer.sent w.broker ++ map (λ e. e.event) es)
  unfolding publish_events
  all_sent in_time takes [] w = (refl, sym (append-nil (producer.sent w.broker)))
  all_sent in_time takes (e ∷ es) w =
      let w1 : Service = (on_broker outbox producer producer.deadline w).1 in
      let w2 : Service = (on_broker outbox producer (producer.produce e.event) w1).1 in
      let w3 : Service = (on_outbox outbox producer (outbox.mark_published e.id) w2).1 in
      let (done, sent) = all_sent in_time takes es w3 in
      let taken : producer.sent w3.broker ≡ producer.sent w.broker ++ e.event ∷ [] =
        elim (producer.produce-sent e.event w1.broker) [
          | inl (ne, s) ↦ absurd (ne (takes e.event w1.broker))
          | inr s ↦ s ∙ ap (λ l. l ++ e.event ∷ []) (producer.deadline-sent w.broker)
        ] in
      rw (in_time w.broker, takes e.event w1.broker)
        (
          done,
          sent
              ∙ ap (λ l. l ++ map (λ e. e.event) es) taken
              ∙ append_assoc (producer.sent w.broker) (e.event ∷ []) (map (λ e. e.event) es),
        )

  -- A run over the pending events sends some of them, each once and in their order, and marks as
  -- published only what it sent. It ends with an error only where the broker cannot be reached.
  pub sent_before_marked :
      (w : Service) (es : List (PendingEvent Bytes))
      → (outbox.get_pending_events w.outbox).0 ≡ ok es
      → let r = publish_outbox outbox producer w in Published es w r.0 r.1
  unfolding publish_outbox
  sent_before_marked w es pending =
      let w1 : Service = (on_outbox outbox producer outbox.get_pending_events w).1 in
      rw pending (
        subst
          (λ m.
            PublishedFrom m (producer.sent w.broker) es (publish_events outbox producer es w1).0
              (publish_events outbox producer es w1).1)
          (outbox.get_pending_events-marked w.outbox) (published es w1))

  -- If the deadline does not pass and the broker takes what it is given, every pending event is sent,
  -- in their order, whether or not the marks are stored, and the run succeeds.
  pub reachable_broker_gets_all :
      (w : Service) (es : List (PendingEvent Bytes))
      → ((s : producer.State) → (producer.deadline s).0 ≡ ok tt)
      → ((e : OutboxEvent Bytes) (s : producer.State) → (producer.produce e s).0 ≡ ok tt)
      → (outbox.get_pending_events w.outbox).0 ≡ ok es
      → let r = publish_outbox outbox producer w in
        (r.0 ≡ ok tt) × (producer.sent r.1.broker ≡ producer.sent w.broker ++ map (λ e. e.event) es)
  unfolding publish_outbox
  reachable_broker_gets_all w es in_time takes pending =
      let w1 : Service = (on_outbox outbox producer outbox.get_pending_events w).1 in
      rw pending (all_sent in_time takes es w1)
