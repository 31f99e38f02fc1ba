-- ===== src/Testing.antt =====
-- Concrete values of what the models take as parameters: an encoding, an outbox, a retry loop. They
-- show that what is assumed of them can hold, and let the handlers run.
use shippy.Prelude.{
  ℕ, zero, suc, Bool, true, false, ◌≡◌, refl, subst, inl, inr, List, [], ◌∷◌, ◌++◌, Result, ok, err,
  Error, errorf, ⊤, Exec, Result-cases, if◌then◌else◌, ok_eq,
}
use shippy.Prelude.Backoff.{Backoff, Attempts, success, give_up, again}
use shippy.Events.{
  PaymentAuthorisedEvent, PaymentCapturedEvent, ReservationConfirmedEvent, ReservationExpiredEvent,
  ConsignmentConfirmationFailedEvent, CapacityEvent, Codec, Wire,
}
use shippy.Outbox.{OutboxEvent, OutboxRepository, Created}

pub data Message : Type 0 where
  payment_authorised : PaymentAuthorisedEvent → Message
  payment_captured : PaymentCapturedEvent → Message
  reservation_confirmed : ReservationConfirmedEvent → Message
  reservation_expired : ReservationExpiredEvent → Message
  confirmation_failed : ConsignmentConfirmationFailedEvent → Message
  capacity : CapacityEvent → Message

-- A codec that writes by a constructor and reads it back.
abbrev pub tagged :
    {E : Type 0} (tag : E → Message) (read : Message → Result E)
    → ((e : E) → read (tag e) ≡ ok e)
    → Codec Message E
tagged tag read back = record {
  marshal = λ e. ok (tag e);
  unmarshal = read;
  unmarshal-marshal = λ e b h. subst (λ m. read m ≡ ok e) (ok_eq h) (back e);
}

abbrev pub wrong : Error
wrong = errorf "cannot parse"

abbrev pub wire : Wire
wire = record {
  Bytes = Message;
  payment_authorised =
      tagged payment_authorised (λ m. elim m [ payment_authorised e ↦ ok e | _ ↦ err wrong ])
        (λ e. refl);
  payment_captured =
      tagged payment_captured (λ m. elim m [ payment_captured e ↦ ok e | _ ↦ err wrong ])
        (λ e. refl);
  reservation_confirmed =
      tagged reservation_confirmed (λ m. elim m [ reservation_confirmed e ↦ ok e | _ ↦ err wrong ])
        (λ e. refl);
  reservation_expired =
      tagged reservation_expired (λ m. elim m [ reservation_expired e ↦ ok e | _ ↦ err wrong ])
        (λ e. refl);
  confirmation_failed =
      tagged confirmation_failed (λ m. elim m [ confirmation_failed e ↦ ok e | _ ↦ err wrong ])
        (λ e. refl);
  capacity = tagged capacity (λ m. elim m [ capacity e ↦ ok e | _ ↦ err wrong ]) (λ e. refl);
}

-- An outbox that is up or down.
pub record Rows : Type 0 where
  pub up : Bool
  pub events : List (OutboxEvent Message)

abbrev pub insert_row : OutboxEvent Message → Exec Rows ⊤
insert_row e s = if s.up then (ok tt, record s { events = s.events ++ e ∷ [] }) else (err wrong, s)

insert_row_by :
    (b : Bool) (e : OutboxEvent Message) (es : List (OutboxEvent Message))
    → let r = insert_row e (record { up = b; events = es }) in Created e es r.1.events r.0
insert_row_by true e es = inl refl
insert_row_by false e es = inl refl

pub insert_row_lem :
    (e : OutboxEvent Message) (s : Rows)
    → Created e s.events (insert_row e s).1.events (insert_row e s).0
insert_row_lem e s = insert_row_by s.up e s.events

abbrev pub outbox : OutboxRepository Message
outbox = record {
  State = Rows;
  rows = λ s. s.events;
  create_event = insert_row;
  create_event_lem = insert_row_lem;
}

-- Retries at once, until the first success or the last attempt.
module _ {S A : Type 0} where
  unfoldable pub retry_loop : ℕ → Exec S A → Exec S A
  retry_loop zero op s = op s
  retry_loop (suc n) op s =
      let rest = retry_loop n op (op s).1 in
      elim (op s).0 [ ok a ↦ (ok a, (op s).1) | err e ↦ rest ]

  pub retry_loop-Attempts :
      (n : ℕ) (op : Exec S A) (s : S)
      → Attempts op (suc n) s (retry_loop n op s).0 (retry_loop n op s).1
  unfolding retry_loop
  retry_loop-Attempts zero op s = elim (Result-cases (op s).0) [
    | inl (a, p) ↦ rw p (success (λ i. (p i, (op s).1)))
    | inr (e, p) ↦ rw p (give_up (λ i. (p i, (op s).1)))
  ]
  retry_loop-Attempts (suc n) op s = elim (Result-cases (op s).0) [
    | inl (a, p) ↦ rw (p, retry_loop) (success (λ i. (p i, (op s).1)))
    | inr (e, p) ↦
        rw (p, retry_loop) (again (λ i. (p i, (op s).1)) (retry_loop-Attempts n op (op s).1))
  ]

abbrev pub backoff : Backoff
backoff = record {
  retry = λ n op. retry_loop n op;
  attempts = λ n op s. retry_loop-Attempts n op s;
}
