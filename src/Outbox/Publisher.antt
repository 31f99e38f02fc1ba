-- ===== src/Outbox/Publisher.antt =====
-- The publisher of the outbox, the same in both services (publishOutbox of
-- cmd/consignment-service/manager/outbox.go and cmd/reservation-service/manager/outbox.go). The
-- ticker that calls it, tracing and logging are left out.
pub mod Runs
pub mod Keeps
mod Tests
use shippy.Prelude.{
  String, Bool, Bool-cases, true, false, ◌≡◌, refl, ◌∙◌, sym, ap, subst, List, [], ◌∷◌, ◌++◌, map,
  ◌⊎◌, inl, inr, Result, ok, err, Error, is_broker_unreachable, is_context_ended, Result-cases, ⊤,
  Exec, branch, pure, raise, on_error, with_text, ignore, ◌>>=◌, ◌>>◌, if◌then◌else◌, ◌≢◌,
}
use mathlib.Core.List.{append_assoc, append-nil}
use shippy.Prelude.Collection.{Sublist, empty, keep, skip, Sublist-none}
use shippy.Outbox.{OutboxEvent, PendingEvent}

-- The part of `OutboxRepository` that the publisher uses; `marked` lists the ids in the order in
-- which they were marked as published. A failed mark may have been stored.
pub record PublisherOutbox (Bytes : Type 0) : Type 1 where
  pub State : Type 0
  pub marked : State → List String
  pub get_pending_events : Exec State (List (PendingEvent Bytes))
  pub mark_published : String → Exec State ⊤
  pub get_pending_events-marked : (s : State) → marked (get_pending_events s).1 ≡ marked s
  pub mark_published-marked :
      (id : String) (s : State)
      → (marked (mark_published id s).1 ≡ marked s)
        ⊎ (marked (mark_published id s).1 ≡ marked s ++ id ∷ [])

-- `kafka.IProducer` and the context of the call: `deadline` is `publishCtx.Err()`. `sent` lists what
-- the broker took; a failed call may have been taken.
pub record Producer (Bytes : Type 0) : Type 1 where
  pub State : Type 0
  pub sent : State → List (OutboxEvent Bytes)
  pub deadline : Exec State ⊤
  pub produce : OutboxEvent Bytes → Exec State ⊤
  pub deadline-sent : (s : State) → sent (deadline s).1 ≡ sent s
  pub produce-sent :
      (e : OutboxEvent Bytes) (s : State)
      → ((produce e s).0 ≢ ok tt) × (sent (produce e s).1 ≡ sent s)
        ⊎ (sent (produce e s).1 ≡ sent s ++ e ∷ [])

pub record Publisher (Rows Broker : Type 0) : Type 0 where
  pub outbox : Rows
  pub broker : Broker

module _ {Bytes : Type 0} (outbox : PublisherOutbox Bytes) (producer : Producer Bytes) where
  abbrev pub World : Type 0
  World = Publisher outbox.State producer.State

  abbrev pub on_outbox : {A : Type 0} → Exec outbox.State A → Exec World A
  on_outbox m w = ((m w.outbox).0, record w { outbox = (m w.outbox).1 })

  abbrev pub on_broker : {A : Type 0} → Exec producer.State A → Exec World A
  on_broker m w = ((m w.broker).0, record w { broker = (m w.broker).1 })

  -- After a failed `Produce`, with the rest of the loop.
  abbrev pub produce_failed : Exec World ⊤ → Error → Exec World ⊤
  produce_failed rest e =
      if is_context_ended e then pure tt else if is_broker_unreachable e then raise e else rest

  -- The loop over the pending events.
  unfoldable pub publish_events : List (PendingEvent Bytes) → Exec World ⊤
  publish_events [] = pure tt
  publish_events (e ∷ es) =
      on_error (on_broker producer.deadline) (λ _. pure tt)
        (λ _.
          on_error (on_broker (producer.produce e.event)) (produce_failed (publish_events es))
            (λ _. ignore (on_outbox (outbox.mark_published e.id)) >> publish_events es))

  unfoldable pub publish_outbox : Exec World ⊤
  publish_outbox =
      with_text "failed to get pending outbox events" (on_outbox outbox.get_pending_events)
      >>= publish_events
