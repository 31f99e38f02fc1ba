-- ===== src/Kafka/Consumer/Offsets.antt =====
-- Which messages a consumer reads and commits (StartConsuming and handleMessage of
-- pkg/kafka/consumer.go).
use shippy.Prelude.{
  ℕ, zero, suc, ◌≤◌, ◌<◌, arith, Option, none, some, ◌≡◌, refl, ◌∙◌, subst, ◌⊎◌, inl, inr, List, ok,
  err, Error, Result-cases,
}
use shippy.Kafka.{TopicPartition}
use shippy.Kafka.Consumer.{
  Message, Client, EventHandler, Entry, lookup, Consumer, on_client, dispatch, handle_message,
  consume_one, consume,
}

module _ {Bytes Service : Type 0} (cli : Client Bytes) where
  abbrev position : Consumer cli Service → TopicPartition → ℕ
  position w = cli.position w.client

  abbrev committed : Consumer cli Service → TopicPartition → ℕ
  committed w = cli.committed w.client

  handle_message-position :
      (m : Message Bytes) (handler : EventHandler Bytes Service) (w : Consumer cli Service)
      (p : TopicPartition)
      → position (handle_message cli m handler w).1 p ≡ position w p
  unfolding handle_message
  handle_message-position m handler w p = elim (Result-cases (handler m.key m.value w.service).0) [
    | inl (a, q) ↦ rw q (cli.commit_message-position m w.client p)
    | inr (e, q) ↦ rw q refl
  ]

  dispatch-position :
      (m : Message Bytes) (o : Option (EventHandler Bytes Service)) (w : Consumer cli Service)
      (p : TopicPartition)
      → position (dispatch cli m o w).1 p ≡ position w p
  dispatch-position m none w p = refl
  dispatch-position m (some handler) w p = handle_message-position m handler w p

  -- After a pass the positions are those after its read.
  consume_one-position :
      (handlers : List (Entry Bytes Service)) (w : Consumer cli Service) (p : TopicPartition)
      → position (consume_one cli handlers w).1 p ≡ cli.position (cli.read_message w.client).1 p
  unfolding consume_one
  consume_one-position handlers w p = elim (Result-cases (cli.read_message w.client).0) [
    | inl (m, q) ↦
        rw q (
          dispatch-position m (lookup m.place.topic handlers) (on_client cli cli.read_message w).1
            p)
    | inr (e, q) ↦ rw q refl
  ]

  consume-position :
      (n : ℕ) (handlers : List (Entry Bytes Service)) (w : Consumer cli Service)
      (p : TopicPartition)
      → position w p ≤ position (consume cli n handlers w).1 p
  unfolding consume
  consume-position zero handlers w p = omega arith
  consume-position (suc n) handlers w p =
      let w1 : Consumer cli Service = (on_client cli cli.done w).1 in
      let (same, _) = cli.done_lem w.client p in
      elim (Result-cases (cli.done w.client).0) [
        | inr (e, q) ↦ rw q (rw same (omega arith))
        | inl (a, q) ↦
            let first : position w1 p ≤ position (consume_one cli handlers w1).1 p =
              rw (consume_one-position handlers w1 p) (cli.read_message-position w1.client p) in
            rw q (elim (Result-cases (consume_one cli handlers w1).0) [
              | inr (e, r) ↦ rw r (ground arith)
              | inl (b, r) ↦
                  let rest = consume-position n handlers (consume_one cli handlers w1).1 p in
                  rw r (ground arith)
            ])
      ]

  -- A consumer reads a message once: whatever the handler answers, a later read of the same partition
  -- gives a message with a greater offset, after a pass that reads the message and any number of
  -- passes more.
  pub read_once :
      (n : ℕ) (handlers : List (Entry Bytes Service)) (w : Consumer cli Service)
      (m m' : Message Bytes)
      → (cli.read_message w.client).0 ≡ ok m
      → let w' = (consume cli n handlers (consume_one cli handlers w).1).1 in
        (cli.read_message w'.client).0 ≡ ok m' → m'.place ≡ m.place → m.offset < m'.offset
  read_once n handlers w m m' h h' same =
      let w1 : Consumer cli Service = (consume_one cli handlers w).1 in
      let w2 : Consumer cli Service = (consume cli n handlers w1).1 in
      let (_, read) = cli.read_message_lem w.client m h in
      let (before, _) = cli.read_message_lem w2.client m' h' in
      let after : position w1 m.place ≡ suc m.offset =
        consume_one-position handlers w m.place ∙ read in
      let later = consume-position n handlers w1 m.place in
      let here : position w2 m.place ≤ m'.offset =
        subst (λ p. position w2 p ≤ m'.offset) same before in
      omega arith

  -- The message that a pass has read and whose handler has succeeded.
  abbrev pub Handled : List (Entry Bytes Service) → Consumer cli Service → Message Bytes → Type 0
  Handled handlers w m =
      ((cli.read_message w.client).0 ≡ ok m)
      × ((handler : EventHandler Bytes Service) × (lookup m.place.topic handlers ≡ some handler)
          × ((handler m.key m.value w.service).0 ≡ ok tt))

  dispatch-committed :
      (m : Message Bytes) (o : Option (EventHandler Bytes Service)) (w : Consumer cli Service)
      (p : TopicPartition)
      → let w' = (dispatch cli m o w).1 in
        (committed w' p ≡ committed w p)
        ⊎ ((m.place ≡ p)
            × (committed w' p ≡ suc m.offset)
            × ((handler : EventHandler Bytes Service) × (o ≡ some handler)
                × ((handler m.key m.value w.service).0 ≡ ok tt)))
  unfolding handle_message
  dispatch-committed m none w p = inl refl
  dispatch-committed m (some handler) w p =
      elim (Result-cases (handler m.key m.value w.service).0) [
        | inr (e, q) ↦ rw q (inl refl)
        | inl (a, q) ↦ elim (cli.commit_message-committed m w.client p) [
          | inl same ↦ rw q (inl same)
          | inr (here, new) ↦ rw q (inr (here, new, (handler, refl, q)))
        ]
      ]

  -- A pass commits nothing but the message that it has read, and that only after its handler has
  -- succeeded.
  pub commit_is_Handled :
      (handlers : List (Entry Bytes Service)) (w : Consumer cli Service) (p : TopicPartition)
      → let w' = (consume_one cli handlers w).1 in
        (committed w' p ≡ committed w p)
        ⊎ ((m : Message Bytes) × Handled handlers w m
            × (m.place ≡ p)
            × (committed w' p ≡ suc m.offset))
  unfolding consume_one
  commit_is_Handled handlers w p =
      let w1 : Consumer cli Service = (on_client cli cli.read_message w).1 in
      let same = cli.read_message-committed w.client p in
      elim (Result-cases (cli.read_message w.client).0) [
        | inr (e, q) ↦ rw q (inl same)
        | inl (m, q) ↦ elim (dispatch-committed m (lookup m.place.topic handlers) w1 p) [
          | inl kept ↦ rw q (inl (kept ∙ same))
          | inr (here, new, (handler, there, good)) ↦
              rw q (inr (m, (refl, (handler, there, good)), here, new))
        ]
      ]

  -- The client that has read the next message, and then committed it.
  abbrev read : Consumer cli Service → cli.State
  read w = (cli.read_message w.client).1

  -- A message whose handler has failed is lost when a later message of its partition is handled: the
  -- failure leaves the committed offsets as they were, and the success of the later one, any number
  -- of passes after it, commits an offset above that of the failed message, from which a consumer that
  -- joins later goes on. The commit itself succeeds.
  pub failure_is_skipped :
      (n : ℕ) (handlers : List (Entry Bytes Service)) (w : Consumer cli Service)
      (m m' : Message Bytes) (handler : EventHandler Bytes Service) (e : Error)
      → (cli.read_message w.client).0 ≡ ok m
      → lookup m.place.topic handlers ≡ some handler
      → (handler m.key m.value w.service).0 ≡ err e
      → let w' = (consume cli n handlers (consume_one cli handlers w).1).1 in
        Handled handlers w' m'
        → m'.place ≡ m.place
        → (cli.commit_message m' (read w')).0 ≡ ok tt
        → ((p : TopicPartition) → committed (consume_one cli handlers w).1 p ≡ committed w p)
          × (m.offset < committed (consume_one cli handlers w').1 m.place)
  unfolding consume_one handle_message
  failure_is_skipped n handlers w m m' handler e h there failed (h', (handler', there', good)) same
        done =
      let w' : Consumer cli Service = (consume cli n handlers (consume_one cli handlers w).1).1 in
      let order : m.offset < m'.offset = read_once n handlers w m m' h h' same in
      let after : committed (consume_one cli handlers w').1 m'.place ≡ suc m'.offset =
        rw (h', there', good) (cli.commit_message_lem m' (read w') done) in
      (
        λ p. rw (h, there, failed) (cli.read_message-committed w.client p),
        subst (λ p. m.offset < committed (consume_one cli handlers w').1 p) same
            (rw after (omega arith)),
      )

  -- The committed offset of a partition is not above its position.
  abbrev pub Bounded : Consumer cli Service → TopicPartition → Type 0
  Bounded w p = committed w p ≤ position w p

  consume_one-Bounded :
      (handlers : List (Entry Bytes Service)) (w : Consumer cli Service) (p : TopicPartition)
      → Bounded w p
      → let w' = (consume_one cli handlers w).1 in Bounded w' p × (committed w p ≤ committed w' p)
  consume_one-Bounded handlers w p bound =
      let w' : Consumer cli Service = (consume_one cli handlers w).1 in
      let moved : position w' p ≡ cli.position (cli.read_message w.client).1 p =
        consume_one-position handlers w p in
      let grows = cli.read_message-position w.client p in
      elim (commit_is_Handled handlers w p) [
        | inl same ↦ (omega arith, omega arith)
        | inr (m, (h, _), here, new) ↦
            let (before, after) = cli.read_message_lem w.client m h in
            let before' : position w p ≤ m.offset =
              subst (λ q. position w q ≤ m.offset) here before in
            let after' : cli.position (cli.read_message w.client).1 p ≡ suc m.offset =
              subst (λ q. cli.position (cli.read_message w.client).1 q ≡ suc m.offset) here after in
            (omega arith, omega arith)
      ]

  -- However many passes a consumer makes, and whatever the handlers and the broker answer, no committed
  -- offset goes back, and none passes the position of its partition: no message is committed before it
  -- has been read. This holds for a partition whose committed offset is not above its position at the
  -- start.
  pub consume-Bounded :
      (n : ℕ) (handlers : List (Entry Bytes Service)) (w : Consumer cli Service)
      (p : TopicPartition)
      → Bounded w p
      → let w' = (consume cli n handlers w).1 in Bounded w' p × (committed w p ≤ committed w' p)
  unfolding consume
  consume-Bounded zero handlers w p bound = (bound, omega arith)
  consume-Bounded (suc n) handlers w p bound =
      let w1 : Consumer cli Service = (on_client cli cli.done w).1 in
      let (places, offsets) = cli.done_lem w.client p in
      let start : Bounded w1 p = rw (places, offsets) bound in
      elim (Result-cases (cli.done w.client).0) [
        | inr (e, q) ↦ rw q (start, rw offsets (omega arith))
        | inl (a, q) ↦
            let (first, up) = consume_one-Bounded handlers w1 p start in
            rw q (elim (Result-cases (consume_one cli handlers w1).0) [
              | inr (e, r) ↦ rw r (first, ground arith)
              | inl (b, r) ↦
                  let (last, more) =
                    consume-Bounded n handlers (consume_one cli handlers w1).1 p first in
                  rw r (last, ground arith)
            ])
      ]
