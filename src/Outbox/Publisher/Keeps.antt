-- ===== src/Outbox/Publisher/Keeps.antt =====
-- What the calls of the outbox keep, a run of the publisher keeps (publishOutbox of
-- cmd/reservation-service/manager/outbox.go).
use shippy.Prelude.{
  Bool-cases, String, Error, inl, inr, Result-cases, List, [], ◌∷◌, is_broker_unreachable,
  is_context_ended,
}
use shippy.Outbox.{PendingEvent}
use shippy.Outbox.Publisher.{
  PublisherOutbox, Producer, World, on_outbox, on_broker, produce_failed, publish_events,
  publish_outbox,
}

module _ {Bytes : Type 0} (outbox : PublisherOutbox Bytes) (producer : Producer Bytes)
    (P : outbox.State → Type 0)
    (mark : (id : String) (s : outbox.State) → P s → P (outbox.mark_published id s).1) where
  produce_failed-keeps :
      (es : List (PendingEvent Bytes)) (x : Error) (w : World outbox producer)
      → P w.outbox
      → P (publish_events outbox producer es w).1.outbox
      → P (produce_failed outbox producer (publish_events outbox producer es) x w).1.outbox
  produce_failed-keeps es x w here rest = elim (Bool-cases (is_context_ended x)) [
    | inl p ↦ rw p here
    | inr p ↦ elim (Bool-cases (is_broker_unreachable x)) [
      | inl q ↦ rw (p, q) here
      | inr q ↦ rw (p, q) rest
    ]
  ]

  publish_events-keeps :
      (es : List (PendingEvent Bytes)) (w : World outbox producer)
      → P w.outbox
      → P (publish_events outbox producer es w).1.outbox
  unfolding publish_events
  publish_events-keeps [] w h = h
  publish_events-keeps (e ∷ es) w h =
      let w1 : World outbox producer = (on_broker outbox producer producer.deadline w).1 in
      let w2 : World outbox producer =
        (on_broker outbox producer (producer.produce e.event) w1).1 in
      let w3 : World outbox producer =
        (on_outbox outbox producer (outbox.mark_published e.id) w2).1 in
      elim (Result-cases (producer.deadline w.broker).0) [
        | inr (x, p) ↦ rw p h
        | inl (a, p) ↦ elim (Result-cases (producer.produce e.event w1.broker).0) [
          | inr (x, q) ↦ rw (p, q) (produce_failed-keeps es x w2 h (publish_events-keeps es w2 h))
          | inl (b, q) ↦ rw (p, q) (publish_events-keeps es w3 (mark e.id w.outbox h))
        ]
      ]

  pub publish_outbox-keeps :
      ((s : outbox.State) → P s → P (outbox.get_pending_events s).1)
      → (w : World outbox producer) → P w.outbox
      → P (publish_outbox outbox producer w).1.outbox
  unfolding publish_outbox
  publish_outbox-keeps poll w h =
      let w1 : World outbox producer = (on_outbox outbox producer outbox.get_pending_events w).1 in
      elim (Result-cases (outbox.get_pending_events w.outbox).0) [
        | inr (x, p) ↦ rw p (poll w.outbox h)
        | inl (es, p) ↦ rw p (publish_events-keeps es w1 (poll w.outbox h))
      ]
