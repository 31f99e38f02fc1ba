-- ===== src/Kafka/Consumer/Tests.antt =====
-- The consumer at a topic of two messages, the first of which its handler refuses.
use shippy.Prelude.{
  ℕ, suc, ◌≤◌, ◌<◌, leb, arith, String, Bool, Bool-cases, true, ◌&&◌, if◌then◌else◌, ◌==◌, eq_iff,
  ◌≡◌, refl, ap, ◌⊎◌, inl, inr, List, [], ◌∷◌, ok, err, errorf, Exec, ⊤, ok_eq,
}
use shippy.Kafka.{TopicPartition}
use shippy.Kafka.Consumer.{
  Message, Client, EventHandler, Entry, lookup, Consumer, handle_message, consume_one, consume,
}
use shippy.Kafka.Consumer.Offsets.{Handled, commit_is_Handled, failure_is_skipped, consume-Bounded}

-- The messages to come; the offsets count them.
record Log : Type 0 where
  pub rest : List String
  pub position : ℕ
  pub committed : TopicPartition → ℕ

abbrev here : TopicPartition
here = record { topic = "t"; partition = 0 }

abbrev same_place : TopicPartition → TopicPartition → Bool
same_place p q = p.topic == q.topic && leb p.partition q.partition && leb q.partition p.partition

same_place_lem : (p q : TopicPartition) → same_place p q ≡ true → p ≡ q
same_place_lem p q h =
    let a : p.topic ≡ q.topic = ground (arith, eq_iff p.topic q.topic) in
    let b : p.partition ≡ q.partition = ground arith in λ i. record { topic = a i; partition = b i }

abbrev message : ℕ → String → Message String
message offset text = record { place = here; offset = offset; key = text; value = text }

abbrev read_message : Exec Log (Message String)
read_message s = elim s.rest [
  | [] ↦ (err (errorf "timed out"), s)
  | text ∷ rest ↦
      (ok (message s.position text), record s { rest = rest; position = suc s.position })
]

abbrev commit_message : Message String → Exec Log ⊤
commit_message m s = (
  ok tt,
  record s { committed = λ p. if same_place m.place p then suc m.offset else s.committed p },
)

same_place_refl : (p : TopicPartition) → same_place p p ≡ true
same_place_refl p = ground (arith, eq_iff p.topic p.topic)

commit_message-committed :
    (m : Message String) (s : Log) (p : TopicPartition)
    → let c = if same_place m.place p then suc m.offset else s.committed p in
      (c ≡ s.committed p) ⊎ ((m.place ≡ p) × (c ≡ suc m.offset))
commit_message-committed m s p = elim (Bool-cases (same_place m.place p)) [
  | inl q ↦ rw q (inr (same_place_lem m.place p q, refl))
  | inr q ↦ rw q (inl refl)
]

read_message_lem :
    (rest : List String) (position : ℕ) (committed : TopicPartition → ℕ) (m : Message String)
    → let r = read_message (record { rest = rest; position = position; committed = committed }) in
      r.0 ≡ ok m → (position ≤ m.offset) × (r.1.position ≡ suc m.offset)
read_message_lem [] n committed m h = cc
read_message_lem (t ∷ ts) n committed m h =
    let e : n ≡ m.offset = ap (λ x. x.offset) (ok_eq h) in (omega arith, ap suc e)

read_message-position :
    (rest : List String) (position : ℕ) (committed : TopicPartition → ℕ)
    → position
      ≤ (read_message
          (record { rest = rest; position = position; committed = committed })).1.position
read_message-position [] n committed = omega arith
read_message-position (t ∷ ts) n committed = omega arith

read_message-committed :
    (rest : List String) (position : ℕ) (committed : TopicPartition → ℕ)
    → (read_message
        (record { rest = rest; position = position; committed = committed })).1.committed
      ≡ committed
read_message-committed [] n committed = refl
read_message-committed (t ∷ ts) n committed = refl

abbrev cli : Client String
cli = record {
  State = Log;
  position = λ s p. s.position;
  committed = λ s p. s.committed p;
  done = λ s. (ok tt, s);
  subscribe_topics = λ topics s. (ok tt, s);
  read_message = read_message;
  commit_message = commit_message;
  close = λ s. (ok tt, s);
  done_lem = λ s p. (refl, refl);
  read_message-committed =
      λ s p. ap (λ c. c p) (read_message-committed s.rest s.position s.committed);
  read_message_lem = λ s m h. read_message_lem s.rest s.position s.committed m h;
  read_message-position = λ s p. read_message-position s.rest s.position s.committed;
  commit_message-position = λ m s p. refl;
  commit_message_lem = λ m s h. rw (same_place_refl m.place) refl;
  commit_message-committed = commit_message-committed;
}

-- The service counts the messages that it has taken.
abbrev take : EventHandler String ℕ
take key value n = if key == "bad" then (err (errorf "refused"), n) else (ok tt, suc n)

abbrev handlers : List (Entry String ℕ)
handlers = record { topic = "t"; handler = take } ∷ []

abbrev start : Consumer cli ℕ
start = record {
  client = record { rest = "bad" ∷ "good" ∷ []; position = 0; committed = λ p. 0 };
  service = 0;
}

-- Both messages are read, one is taken, and the next consumer starts behind both.
two_passes :
    let w = (consume cli 2 handlers start).1 in (w.service ≡ 1) × (w.client.committed here ≡ 2)
unfolding consume consume_one handle_message lookup
two_passes = (refl, refl)

failure_is_skipped_example :
    ((p : TopicPartition) → (consume_one cli handlers start).1.client.committed p ≡ 0)
    × (0 < (consume_one cli handlers (consume_one cli handlers start).1).1.client.committed here)
unfolding consume consume_one handle_message lookup
failure_is_skipped_example =
    failure_is_skipped cli 0 handlers start (message 0 "bad") (message 1 "good") take
      (errorf "refused") refl refl refl (refl, (take, refl, refl)) refl refl

commit_is_Handled_example :
    let w = (consume_one cli handlers start).1 in
    let w' = (consume_one cli handlers w).1 in
    (w'.client.committed here ≡ w.client.committed here)
    ⊎ ((m : Message String) × Handled cli handlers w m
        × (m.place ≡ here)
        × (w'.client.committed here ≡ suc m.offset))
commit_is_Handled_example = commit_is_Handled cli handlers (consume_one cli handlers start).1 here

consume-Bounded_example :
    let w = (consume cli 2 handlers start).1 in
    (w.client.committed here ≤ w.client.position) × (0 ≤ w.client.committed here)
consume-Bounded_example = consume-Bounded cli 2 handlers start here (omega arith)
