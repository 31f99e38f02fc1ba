-- ===== src/Kafka/Producer.antt =====
-- The producer (pkg/kafka/producer.go). A key is written as the text of its bytes.
pub mod Delivery
mod Tests
use shippy.Prelude.{
  ℕ, String, Bool, true, false, Option, none, some, ◌||◌, if◌then◌else◌, ◌≡◌, ◌≢◌, ◌⊎◌, List, [],
  ◌∷◌, ◌++◌, Result, ok, err, Error, errorf, wrap, broker_unreachable, is_broker_unreachable, Exec,
  pure, raise, on_error, ⊤,
}
use shippy.Kafka.{
  ErrorCode, no_error, timed_out, msg_timed_out, transport, topic_already_exists, other,
}
use shippy.Kafka.Headers.{Header}

pub record KafkaError : Type 0 where
  pub code : ErrorCode
  pub text : String

pub record ProducerMessage (Bytes : Type 0) : Type 0 where
  pub topic : String
  pub key : String
  pub value : Bytes
  pub headers : List Header

-- `kafka.Producer` of the client library: `enqueue` is its `Produce`, and `await` the `select` on the
-- delivery channel and the end of the context, whose error it then is. `sent` lists what the broker
-- has taken: nothing before the wait, and a message whose report is missing or bad may be taken.
pub record ProducerClient (Bytes : Type 0) : Type 1 where
  pub State : Type 0
  pub sent : State → List (ProducerMessage Bytes)
  -- `ctx.Err()`
  pub deadline : Exec State ⊤
  pub enqueue : ProducerMessage Bytes → Exec State ⊤
  pub await : ProducerMessage Bytes → Exec State (Option KafkaError)
  pub deadline-sent : (s : State) → sent (deadline s).1 ≡ sent s
  pub enqueue-sent : (m : ProducerMessage Bytes) (s : State) → sent (enqueue m s).1 ≡ sent s
  pub await-sent :
      (m : ProducerMessage Bytes) (s : State)
      → ((await m s).0 ≢ ok none) × (sent (await m s).1 ≡ sent s)
        ⊎ (sent (await m s).1 ≡ sent s ++ m ∷ [])
  pub enqueue_error :
      (m : ProducerMessage Bytes) (s : State) (e : Error)
      → (enqueue m s).0 ≡ err e
      → is_broker_unreachable e ≡ false
  pub await_error :
      (m : ProducerMessage Bytes) (s : State) (e : Error)
      → (await m s).0 ≡ err e
      → is_broker_unreachable e ≡ false

abbrev pub is_code : ErrorCode → Bool
is_code msg_timed_out = true
is_code transport = true
is_code _ = false

-- `isBrokerUnreachable`
unfoldable pub is_unreachable : KafkaError → Bool
is_unreachable e = is_code e.code

module _ {Bytes : Type 0} (cli : ProducerClient Bytes) where
  -- On the report of the delivery.
  unfoldable pub delivered : Option KafkaError → Exec cli.State ⊤
  delivered none = pure tt
  delivered (some e) =
      if is_unreachable e
      then raise (wrap e.text broker_unreachable)
      else raise (wrap "failed to deliver message" (errorf e.text))

  unfoldable pub produce : String → String → Bytes → List Header → Exec cli.State ⊤
  produce topic key value headers =
      let m : ProducerMessage Bytes = record {
        topic = topic;
        key = key;
        value = value;
        headers = headers;
      } in
      on_error (cli.enqueue m) (λ e. raise (wrap "failed to enqueue message" e))
        (λ _. on_error (cli.await m) raise delivered)
