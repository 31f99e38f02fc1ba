-- ===== src/Outbox.antt =====
-- The outbox: the interface `OutboxRepository` of both services (storage/interfaces.go, types.go),
-- with what its clients rely on.
pub mod Publisher
use shippy.Events.{Codec}
use shippy.Prelude.{
  ℤ, ltb_ℤ, Bool, true, false, Option, none, some, String, List, [], ◌∷◌, ◌++◌, ◌≡◌, ◌⊎◌, Result,
  ok, err, Exec, ⊤,
}

-- What a client writes; the store adds an id and times.
pub record OutboxEvent (Bytes : Type 0) : Type 0 where
  pub topic : String
  pub key : String
  pub payload : Bytes

pub record PendingEvent (Bytes : Type 0) : Type 0 where
  pub id : String
  pub event : OutboxEvent Bytes

module _ {Bytes : Type 0} where
  -- A new row is pending. A row with its topic and key may stand for it (the unique index).
  abbrev pub IsPending : String → String → List (OutboxEvent Bytes) → Type 0
  IsPending topic key [] = ⊥
  IsPending topic key (e ∷ es) = ((e.topic ≡ topic) × (e.key ≡ key)) ⊎ IsPending topic key es

  -- Rows before and after `CreateEvent`, by its result. After an error the row may be there.
  abbrev pub Created :
      OutboxEvent Bytes → List (OutboxEvent Bytes) → List (OutboxEvent Bytes) → Result ⊤ → Type 0
  Created e before after (ok _) =
      (after ≡ before ++ e ∷ []) ⊎ ((after ≡ before) × IsPending e.topic e.key before)
  Created e before after (err _) = (after ≡ before) ⊎ (after ≡ before ++ e ∷ [])

-- After an insert that succeeded, a row with this message is in the outbox: a new one at the end,
-- or one of the same topic and key that was pending.
abbrev pub Scheduled :
    {Bytes E : Type 0}
    → Codec Bytes E
    → String
    → String
    → E
    → List (OutboxEvent Bytes)
    → List (OutboxEvent Bytes)
    → Type 0
Scheduled {Bytes} codec topic key message before after =
    (payload : Bytes) × (codec.unmarshal payload ≡ ok message)
    × ((after ≡ before ++ record { topic = topic; key = key; payload = payload } ∷ [])
        ⊎ ((after ≡ before) × IsPending topic key before))

-- A time that is not set, and the end of a lease that is not set or over.
abbrev pub is_unset : Option ℤ → Bool
is_unset none = true
is_unset (some t) = false

abbrev pub is_over : ℤ → Option ℤ → Bool
is_over now none = true
is_over now (some t) = ltb_ℤ t now

-- `rows` are the events that are not published, in the order of their creation.
pub record OutboxRepository (Bytes : Type 0) : Type 1 where
  pub State : Type 0
  pub rows : State → List (OutboxEvent Bytes)
  pub create_event : OutboxEvent Bytes → Exec State ⊤
  pub create_event_lem :
      (e : OutboxEvent Bytes) (s : State)
      → Created e (rows s) (rows (create_event e s).1) (create_event e s).0
