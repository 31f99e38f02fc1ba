-- ===== src/Kafka/Consumer.antt =====
-- The consumer (pkg/kafka/consumer.go). Tracing and logging are left out.
pub mod Offsets
mod Tests
use shippy.Prelude.{
  ℕ, zero, suc, ◌≤◌, String, Bool, true, false, Option, none, some, if◌then◌else◌, ◌==◌, ◌≡◌, ◌≢◌,
  ◌⊎◌, List, [], ◌∷◌, map, Result, ok, err, Error, Exec, pure, raise, on_error, ignore, with_text,
  ◌>>=◌, ◌>>◌, ⊤,
}
use shippy.Kafka.{TopicPartition}

pub record Message (Bytes : Type 0) : Type 0 where
  pub place : TopicPartition
  pub offset : ℕ
  pub key : Bytes
  pub value : Bytes

-- `kafka.Consumer` of the client library, with auto-commit off, and `ctx.Err()` as `done`. It reads a
-- partition in the order of the offsets, from its position, and keeps an offset per partition that a
-- consumer of the group that joins later starts from. The partitions stay with the consumer.
pub record Client (Bytes : Type 0) : Type 1 where
  pub State : Type 0
  pub position : State → TopicPartition → ℕ
  pub committed : State → TopicPartition → ℕ
  pub done : Exec State ⊤
  pub subscribe_topics : List String → Exec State ⊤
  pub read_message : Exec State (Message Bytes)
  pub commit_message : Message Bytes → Exec State ⊤
  pub close : Exec State ⊤
  pub done_lem :
      (s : State) (p : TopicPartition)
      → (position (done s).1 p ≡ position s p) × (committed (done s).1 p ≡ committed s p)
  pub read_message-committed :
      (s : State) (p : TopicPartition) → committed (read_message s).1 p ≡ committed s p
  pub read_message_lem :
      (s : State) (m : Message Bytes)
      → (read_message s).0 ≡ ok m
      → (position s m.place ≤ m.offset) × (position (read_message s).1 m.place ≡ suc m.offset)
  pub read_message-position :
      (s : State) (p : TopicPartition) → position s p ≤ position (read_message s).1 p
  pub commit_message-position :
      (m : Message Bytes) (s : State) (p : TopicPartition)
      → position (commit_message m s).1 p ≡ position s p
  pub commit_message_lem :
      (m : Message Bytes) (s : State)
      → (commit_message m s).0 ≡ ok tt
      → committed (commit_message m s).1 m.place ≡ suc m.offset
  -- After an error the offset may be committed.
  pub commit_message-committed :
      (m : Message Bytes) (s : State) (p : TopicPartition)
      → (committed (commit_message m s).1 p ≡ committed s p)
        ⊎ ((m.place ≡ p) × (committed (commit_message m s).1 p ≡ suc m.offset))

-- The client beside the state of the service that its handlers change.
pub record World (Client Service : Type 0) : Type 0 where
  pub client : Client
  pub service : Service

abbrev pub EventHandler : Type 0 → Type 0 → Type 0
EventHandler Bytes Service = Bytes → Bytes → Exec Service ⊤

-- `EventHandlers`, a map by topic.
pub record Entry (Bytes Service : Type 0) : Type 0 where
  pub topic : String
  pub handler : EventHandler Bytes Service

unfoldable pub lookup :
    {Bytes Service : Type 0}
    → String
    → List (Entry Bytes Service)
    → Option (EventHandler Bytes Service)
lookup topic [] = none
lookup topic (e ∷ es) = if e.topic == topic then some e.handler else lookup topic es

abbrev pub Consumer : {Bytes : Type 0} → Client Bytes → Type 0 → Type 0
Consumer cli Service = World cli.State Service

module _ {Bytes Service : Type 0} (cli : Client Bytes) where
  abbrev pub on_client : {A : Type 0} → Exec cli.State A → Exec (Consumer cli Service) A
  on_client m w = ((m w.client).0, record w { client = (m w.client).1 })

  abbrev pub on_service : {A : Type 0} → Exec Service A → Exec (Consumer cli Service) A
  on_service m w = ((m w.service).0, record w { service = (m w.service).1 })

  unfoldable pub handle_message :
      Message Bytes → EventHandler Bytes Service → Exec (Consumer cli Service) ⊤
  handle_message m handler =
      on_error (on_service (handler m.key m.value)) (λ _. pure tt)
        (λ _. ignore (on_client (cli.commit_message m)))

  abbrev pub dispatch :
      Message Bytes → Option (EventHandler Bytes Service) → Exec (Consumer cli Service) ⊤
  dispatch m none = pure tt
  dispatch m (some handler) = handle_message m handler

  -- One pass of the loop whose context has not ended.
  unfoldable pub consume_one : List (Entry Bytes Service) → Exec (Consumer cli Service) ⊤
  consume_one handlers =
      on_error (on_client cli.read_message) (λ _. pure tt)
        (λ m. dispatch m (lookup m.place.topic handlers))

  -- So many passes of the loop, which ends with the error of the context.
  unfoldable pub consume : ℕ → List (Entry Bytes Service) → Exec (Consumer cli Service) ⊤
  consume zero handlers = pure tt
  consume (suc n) handlers =
      on_client cli.done >>= λ _. consume_one handlers >>= λ _. consume n handlers

  -- `defer c.client.Close()`
  abbrev pub then_close : Exec (Consumer cli Service) ⊤ → Exec (Consumer cli Service) ⊤
  then_close m w = ((m w).0, record (m w).1 { client = (cli.close (m w).1.client).1 })

  unfoldable pub start_consuming : ℕ → List (Entry Bytes Service) → Exec (Consumer cli Service) ⊤
  start_consuming n handlers =
      with_text "failed to subscribe to topics"
        (on_client (cli.subscribe_topics (map (λ e. e.topic) handlers)))
      >>= λ _. then_close (consume n handlers)
