-- ===== src/Kafka/Producer/Tests.antt =====
-- The producer with a broker that does not answer in time.
use shippy.Prelude.{
  String, Option, none, some, ◌≡◌, ◌≢◌, refl, ◌⊎◌, inl, inr, ◌↔◌, List, [], ◌∷◌, ◌++◌, ok, err,
  Error, Exec,
}
use shippy.Kafka.{msg_timed_out, transport}
use shippy.Kafka.Producer.{
  KafkaError, ProducerMessage, ProducerClient, is_unreachable, delivered, produce,
}
use shippy.Kafka.Producer.Delivery.{SaysUnreachable, Reported, produce_lem}

-- The reports to come, then none with an error.
record Broker : Type 0 where
  pub reports : List KafkaError
  pub taken : List (ProducerMessage String)

abbrev report : ProducerMessage String → Exec Broker (Option KafkaError)
report m s = elim s.reports [
  | [] ↦ (ok none, record s { taken = s.taken ++ m ∷ [] })
  | e ∷ es ↦ (ok (some e), record s { reports = es })
]

report_lem :
    (es : List KafkaError) (taken : List (ProducerMessage String)) (m : ProducerMessage String)
    → let r = report m (record { reports = es; taken = taken }) in
      (r.0 ≢ ok none) × (r.1.taken ≡ taken) ⊎ (r.1.taken ≡ taken ++ m ∷ [])
report_lem [] taken m = inr refl
report_lem (e ∷ es) taken m = inl (λ h. cc, refl)

no_error_of :
    (es : List KafkaError) (taken : List (ProducerMessage String)) (m : ProducerMessage String)
    (e : Error)
    → (report m (record { reports = es; taken = taken })).0 ≡ err e
    → ⊥
no_error_of [] taken m e h = cc
no_error_of (x ∷ es) taken m e h = cc

abbrev cli : ProducerClient String
cli = record {
  State = Broker;
  sent = λ s. s.taken;
  deadline = λ s. (ok tt, s);
  enqueue = λ m s. (ok tt, s);
  await = report;
  deadline-sent = λ s. refl;
  enqueue-sent = λ m s. refl;
  await-sent = λ m s. report_lem s.reports s.taken m;
  enqueue_error = λ m s e h. cc;
  await_error = λ m s e h. absurd (no_error_of s.reports s.taken m e h);
}

abbrev slow : Broker
slow = record { reports = record { code = msg_timed_out; text = "timed out" } ∷ []; taken = [] }

abbrev first : ProducerMessage String
first = record { topic = "t"; key = "k"; value = "v"; headers = [] }

produce_lem_example :
    let r = (produce cli "t" "k" "v" [] slow).0 in
    (r ≡ ok tt ↔ Reported cli first slow none)
    × (SaysUnreachable r ↔ (
        (e : KafkaError) × Reported cli first slow (some e)
        × ((e.code ≡ msg_timed_out) ⊎ (e.code ≡ transport))))
produce_lem_example = produce_lem cli "t" "k" "v" [] slow

-- The first report says that the broker is unreachable, the second call is delivered.
two_calls :
    let r = produce cli "t" "k" "v" [] slow in
    SaysUnreachable r.0 × ((produce cli "t" "k" "v" [] r.1).1.taken ≡ first ∷ [])
unfolding produce delivered is_unreachable
two_calls = (refl, refl)
