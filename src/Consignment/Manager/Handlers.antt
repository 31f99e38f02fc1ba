-- ===== src/Consignment/Manager/Handlers.antt =====
-- The handlers that the consumer of the consignment service calls, and the table of `New`
-- (cmd/consignment-service/manager/event.go and manager.go).
use shippy.Prelude.{String, List, [], ◌∷◌, Result, ⊤, Exec, lift, with_text, ◌>>=◌}
use shippy.Prelude.Backoff.{Backoff}
use shippy.Prelude.Dict.{Dict}
use shippy.Events.{
  Timestamp, Wire, payment_authorised_topic, confirmation_failed_topic, reservation_expired_topic,
  reservation_confirmed_topic,
}
use shippy.Reservation.Manager.Handlers.{active_handlers}
use shippy.Consignment.{ConsignmentStore, PaymentClient}
use shippy.Consignment.Manager.{
  Manager, payment_authorised, failed_confirmation, expired_reservation, reservation_confirmed,
}

module _ (wire : Wire) (store : ConsignmentStore wire.Bytes) (payment_cli : PaymentClient)
    (backoff : Backoff) where
  abbrev World : Type 0
  World = Manager wire store payment_cli backoff

  -- The handlers, on the bytes of an event.
  abbrev unmarshalled : {E : Type 0} → Result E → (E → Exec World ⊤) → Exec World ⊤
  unmarshalled r k = with_text "failed to unmarshal event" (lift r) >>= k

  unfoldable pub handle_payment_authorised_event : wire.Bytes → Exec World ⊤
  handle_payment_authorised_event value =
      unmarshalled (wire.payment_authorised.unmarshal value)
        (payment_authorised wire store payment_cli backoff)

  unfoldable pub handle_failed_confirmation_event : Timestamp → wire.Bytes → Exec World ⊤
  handle_failed_confirmation_event now value =
      unmarshalled (wire.confirmation_failed.unmarshal value)
        (failed_confirmation wire store payment_cli backoff now)

  unfoldable pub handle_expired_reservation_event : wire.Bytes → Exec World ⊤
  handle_expired_reservation_event value =
      unmarshalled (wire.reservation_expired.unmarshal value)
        (expired_reservation wire store payment_cli backoff)

  unfoldable pub handle_reservation_confirmed_event : Timestamp → wire.Bytes → Exec World ⊤
  handle_reservation_confirmed_event now value =
      unmarshalled (wire.reservation_confirmed.unmarshal value)
        (reservation_confirmed wire store payment_cli backoff now)

  unfoldable pub event_handlers : Dict (Timestamp → wire.Bytes → Exec World ⊤)
  event_handlers =
      (payment_authorised_topic, λ now. handle_payment_authorised_event)
      ∷ (confirmation_failed_topic, handle_failed_confirmation_event)
      ∷ (reservation_expired_topic, λ now. handle_expired_reservation_event)
      ∷ (reservation_confirmed_topic, handle_reservation_confirmed_event)
      ∷ []

  -- `New`, whose manager differs from its arguments in the table of handlers alone.
  unfoldable pub new : List String → Result (Dict (Timestamp → wire.Bytes → Exec World ⊤))
  new topics = active_handlers event_handlers topics []
