-- ===== src/Outbox/Publisher/Tests.antt =====
-- The publisher at concrete rows, with an outbox and a broker in memory.
use shippy.Prelude.{
  String, ◌≡◌, ◌≢◌, refl, List, [], ◌∷◌, ◌++◌, ◌⊎◌, inl, inr, Result, ok, err, Error,
  context_canceled, broker_unreachable, errorf, ⊤,
}
use shippy.Outbox.{OutboxEvent, PendingEvent}
use shippy.Outbox.Publisher.Runs.{Published, sent_before_marked}
use shippy.Outbox.Publisher.{PublisherOutbox, Producer, Publisher, publish_events, publish_outbox}

abbrev event : String → PendingEvent String
event id = record { id = id; event = record { topic = "t"; key = id; payload = id } }

abbrev pending : List (PendingEvent String)
pending = event "1" ∷ event "2" ∷ event "3" ∷ []

-- The ids that have been marked; the pending events stay the same.
abbrev outbox : PublisherOutbox String
outbox = record {
  State = List String;
  marked = λ s. s;
  get_pending_events = λ s. (ok pending, s);
  mark_published = λ id s. (ok tt, s ++ id ∷ []);
  get_pending_events-marked = λ s. refl;
  mark_published-marked = λ id s. inr refl;
}

-- A broker that answers by the errors of a script, then takes everything.
record Broker : Type 0 where
  pub script : List Error
  pub taken : List (OutboxEvent String)

answer : List Error → OutboxEvent String → List (OutboxEvent String) → Result ⊤ × Broker
answer [] e taken = (ok tt, record { script = []; taken = taken ++ e ∷ [] })
answer (x ∷ xs) e taken = (err x, record { script = xs; taken = taken })

answer_lem :
    (xs : List Error) (e : OutboxEvent String) (taken : List (OutboxEvent String))
    → ((answer xs e taken).0 ≢ ok tt) × ((answer xs e taken).1.taken ≡ taken)
      ⊎ ((answer xs e taken).1.taken ≡ taken ++ e ∷ [])
unfolding answer
answer_lem [] e taken = inr refl
answer_lem (x ∷ xs) e taken = inl ((λ h. cc), refl)

abbrev scripted : Producer String
scripted = record {
  State = Broker;
  sent = λ s. s.taken;
  deadline = λ s. (ok tt, s);
  produce = λ e s. answer s.script e s.taken;
  deadline-sent = λ s. refl;
  produce-sent = λ e s. answer_lem s.script e s.taken;
}

abbrev start : List Error → Publisher (List String) Broker
start xs = record { outbox = []; broker = record { script = xs; taken = [] } }

-- A message that the broker refuses is skipped; a canceled context and a broker that cannot be
-- reached stop the run.
refused_is_skipped :
    (publish_outbox outbox scripted (start (errorf "too large" ∷ []))).1.outbox ≡ "2" ∷ "3" ∷ []
unfolding publish_outbox publish_events answer
refused_is_skipped = refl

canceled_stops : (publish_outbox outbox scripted (start (context_canceled ∷ []))).0 ≡ ok tt
unfolding publish_outbox publish_events answer
canceled_stops = refl

unreachable_stops :
    publish_outbox outbox scripted (start (broker_unreachable ∷ []))
    ≡ (err broker_unreachable, start [])
unfolding publish_outbox publish_events answer
unreachable_stops = refl

sent_before_marked_example :
    let r = publish_outbox outbox scripted (start (errorf "too large" ∷ [])) in
    Published outbox scripted pending (start (errorf "too large" ∷ [])) r.0 r.1
sent_before_marked_example =
    sent_before_marked outbox scripted (start (errorf "too large" ∷ [])) pending refl
