-- ===== src/Consignment/Server/Confirm.antt =====
-- The start of a saga: what a call of ConfirmConsignment leaves in the database and at the payment
-- service (cmd/consignment-service/server/handler.go).
use shippy.Prelude.{
  pos, false, String, ◌≡◌, ◌≢◌, refl, ◌∙◌, sym, ap, subst, [], ◌∷◌, ◌++◌, inl, inr, Error, status,
  not_found, internal, Result, ok, err, Result-cases, ok_eq, ⊤, Exec,
}
use shippy.Events.{Timestamp, Wire, payment_authorised_topic}
use shippy.Outbox.{OutboxEvent, Created, Scheduled}
use shippy.Consignment.{
  Stored, Consignment, ConsignmentStore, PaymentClient, View, find, update_status, status_cancelled,
  status_pending, some,
}
use shippy.Consignment.Messages.{ConsignmentMessage, ReservationResponse, unmarshal_consignment}
use shippy.Consignment.Server.{
  ReservationClient, Handler, count32, authorised_event, authorise_request, new_consignment,
  refresh_code, cancel_consignment, void_payment, create_consignment, publish_payment_authorised,
  schedule_confirmation, authorise_payment, confirm_consignment,
}

module _ (wire : Wire) (store : ConsignmentStore wire.Bytes) (payment_cli : PaymentClient)
    (reservation_cli : ReservationClient) where
  abbrev World : Type 0
  World = Handler wire store payment_cli reservation_cli

  abbrev confirm : Timestamp → String → Exec World ⊤
  confirm = confirm_consignment wire store payment_cli reservation_cli

  abbrev Data : Type 0
  Data = View wire.Bytes

  -- The event of the authorisation is a new row of the outbox, or one of its topic and key is there; no consignment has changed.
  abbrev pub Started : String → Consignment → Timestamp → Data → Data → Type 0
  Started auth_id c now v v' =
      Scheduled wire.payment_authorised payment_authorised_topic c.id
        (record {
          consignment_id = c.id;
          reservation_id = c.reservation_id;
          vessel_id = c.vessel_id;
          payment_auth_id = auth_id;
          idempotency_key = "";
          weight = c.weight;
          containers = count32 c.containers;
          retry_count = pos 0;
          cache_cleared = false;
          payment_captured = false;
          payment_id = "";
          saga_started_at = some now;
        })
        v.events v'.events
      × (v'.consignments ≡ v.consignments)

  publish-Started :
      (auth_id : String) (c : Consignment) (now : Timestamp) (w : World)
      → let r = publish_payment_authorised wire store payment_cli reservation_cli auth_id c now w in
        r.0 ≡ ok tt
        → Started auth_id c now (store.view w.store) (store.view r.1.store)
          × (r.1.payment ≡ w.payment)
  unfolding publish_payment_authorised cancel_consignment void_payment authorised_event
  publish-Started auth_id c now w done =
      elim (Result-cases (wire.payment_authorised.marshal (authorised_event auth_id c now))) [
        | inr (x, p) ↦ let h = rw p at done in cc
        | inl (payload, p) ↦
            let row : OutboxEvent wire.Bytes = record {
              topic = payment_authorised_topic;
              key = c.id;
              payload = payload;
            } in
            elim (Result-cases (store.create_event row w.store).0) [
              | inr (x, q) ↦ let h = rw (p, q) at done in cc
              | inl (a, q) ↦
                  let created : Created row (store.view w.store).events
                      (store.view (store.create_event row w.store).1).events (ok a) =
                    subst
                      (Created row (store.view w.store).events
                        (store.view (store.create_event row w.store).1).events)
                      q (store.create_event_lem row w.store) in
                  rw (p, q)
                    (
                      (
                        (
                          payload,
                          wire.payment_authorised.unmarshal-marshal (authorised_event auth_id c now)
                              payload p,
                          created,
                        ),
                        store.create_event-consignments row w.store,
                      ),
                      refl,
                    )
            ]
      ]

  -- The last calls of the payment service and of the database are a void of the authorisation and
  -- the cancellation of the consignment.
  abbrev pub Undone : String → Consignment → World → Type 0
  Undone auth_id c w =
      ((s : payment_cli.State) × (w.payment ≡ (payment_cli.void auth_id s).1))
      × ((t : store.State) × (w.store ≡ (update_status store c.id status_cancelled t).1))

  schedule-cases :
      (auth_id : String) (c : Consignment) (now : Timestamp) (w : World)
      → let r = schedule_confirmation wire store payment_cli reservation_cli c now auth_id w in
        (r.0 ≡ ok tt
          → Started auth_id c now (store.view w.store) (store.view r.1.store)
            × (r.1.payment ≡ w.payment))
        × (r.0 ≢ ok tt → Undone auth_id c r.1)
  unfolding schedule_confirmation cancel_consignment void_payment
  schedule-cases auth_id c now w =
      let m : Result ⊤ × World =
        publish_payment_authorised wire store payment_cli reservation_cli auth_id c now w in
      elim (Result-cases m.0) [
        | inl (a, p) ↦ rw p ((λ h. publish-Started auth_id c now w p), λ h. absurd (h refl))
        | inr (x, p) ↦ rw p ((λ h. cc), λ h. ((m.1.payment, refl), (m.1.store, refl)))
      ]

  -- The state in which the event is scheduled.
  abbrev authorised : String → Consignment → World → World
  authorised id c w = record {
    store = (store.get_by_id id w.store).1;
    payment = (payment_cli.authorise (authorise_request c) w.payment).1;
    reservation = (reservation_cli.refresh_reservation c.reservation_id w.reservation).1;
  }

  confirm-schedules :
      (now : Timestamp) (id auth_id : String) (c : Consignment) (w : World)
      → (store.get_by_id id w.store).0 ≡ ok c
      → (reservation_cli.refresh_reservation c.reservation_id w.reservation).0 ≡ ok tt
      → (payment_cli.authorise (authorise_request c) w.payment).0 ≡ ok auth_id
      → confirm now id w
        ≡ schedule_confirmation wire store payment_cli reservation_cli c now auth_id
            (authorised id c w)
  unfolding confirm_consignment authorise_payment
  confirm-schedules now id auth_id c w p q s = rw (p, q, s)

  -- A call that reports the confirmation as begun has authorised a payment for the consignment with
  -- the requested id. Its event, with the id of the authorisation and what the consignment has reserved,
  -- is a new row of the outbox, or the outbox is as it was since a row of its topic and key, whose
  -- payload may be another, is pending. The call has changed no consignment, and the payment service
  -- saw that one authorisation.
  pub confirmed_is_Started :
      (now : Timestamp) (id : String) (w : World)
      → let r = confirm now id w in
        r.0 ≡ ok tt
        → (c : Consignment) × (auth_id : String) × (find id (store.view w.store).consignments
            ≡ some c)
          × (payment_cli.authorise (authorise_request c) w.payment ≡ (ok auth_id, r.1.payment))
          × Started auth_id c now (store.view w.store) (store.view r.1.store)
  unfolding confirm_consignment authorise_payment cancel_consignment
  confirmed_is_Started now id w done = elim (Result-cases (store.get_by_id id w.store).0) [
    | inr (x, p) ↦ let h = rw p at done in cc
    | inl (c, p) ↦
        elim (Result-cases (reservation_cli.refresh_reservation c.reservation_id w.reservation).0) [
          | inr (x, q) ↦ let h = rw (p, q) at done in cc
          | inl (a, q) ↦
              elim (Result-cases (payment_cli.authorise (authorise_request c) w.payment).0) [
                | inr (x, s) ↦ let h = rw (p, q, s) at done in cc
                | inl (auth_id, s) ↦
                    let steps = confirm-schedules now id auth_id c w p q s in
                    let w3 : World = authorised id c w in
                    let r : Result ⊤ × World =
                      schedule_confirmation wire store payment_cli reservation_cli c now auth_id
                        w3 in
                    let (begun, _) = schedule-cases auth_id c now w3 in
                    let (started, paid) = begun (rw steps at done) in
                    let (same, found) = store.get_by_id_lem id w.store in
                    rw steps (
                      c,
                      auth_id,
                      found c p,
                      (λ i. (s i, (sym paid) i)),
                      subst (λ v. Started auth_id c now v (store.view r.1.store)) same started,
                    )
              ]
        ]
  ]

  -- Where the consignment cannot be read or its reservation cannot be refreshed, the call is refused
  -- and the consignments, the outbox and the payment service are as before. The code tells an
  -- unknown consignment and a reservation that is gone from other failures.
  pub refusal_is_harmless :
      (now : Timestamp) (id : String) (w : World)
      → let r = confirm now id w in
        ((x : Error)
          → (store.get_by_id id w.store).0 ≡ err x
          → (r.0 ≡ err (status not_found))
            × (r.1.payment ≡ w.payment)
            × (store.view r.1.store ≡ store.view w.store))
        × ((c : Consignment) (x : Error)
            → (store.get_by_id id w.store).0 ≡ ok c
            → (reservation_cli.refresh_reservation c.reservation_id w.reservation).0 ≡ err x
            → (r.0 ≡ err (refresh_code x))
              × (r.1.payment ≡ w.payment)
              × (store.view r.1.store ≡ store.view w.store))
  unfolding confirm_consignment
  refusal_is_harmless now id w =
      let (same, _) = store.get_by_id_lem id w.store in
      ((λ x p. rw p (refl, refl, same)), λ c x p q. rw (p, q) (refl, refl, same))

  -- Once a payment has been authorised, a call that does not report the confirmation as begun has
  -- voided the authorisation and tried to cancel the consignment, as its last calls.
  pub failed_start_is_Undone :
      (now : Timestamp) (id auth_id : String) (c : Consignment) (w : World)
      → (store.get_by_id id w.store).0 ≡ ok c
      → (reservation_cli.refresh_reservation c.reservation_id w.reservation).0 ≡ ok tt
      → (payment_cli.authorise (authorise_request c) w.payment).0 ≡ ok auth_id
      → let r = confirm now id w in r.0 ≢ ok tt → Undone auth_id c r.1
  failed_start_is_Undone now id auth_id c w p q s =
      let (_, undone) = schedule-cases auth_id c now (authorised id c w) in
      rw (confirm-schedules now id auth_id c w p q s) undone

  -- A consignment that is created, with the reservation that the reservation service returned, is the
  -- requested one with a new id and on the vessel of the reservation; it is pending, it is stored
  -- beside the others, and it is the one in the answer. A failure is reported as an internal error.
  -- The reservation stays as it was made, and the payment service is not called.
  pub created_is_pending :
      (id : String) (req : ConsignmentMessage) (w : World) (reservation : ReservationResponse)
      → let call =
          reservation_cli.reserve_capacity
            (record {
              consignment_id = id;
              weight = req.weight;
              number_of_containers = count32 req.containers;
            })
            w.reservation in
        call.0 ≡ ok reservation
        → let r = create_consignment wire store payment_cli reservation_cli id req w in
          let c : Consignment = record (new_consignment id req reservation) {
            status = status_pending;
          } in
          (r.1.payment ≡ w.payment)
          × (r.1.reservation ≡ call.1)
          × ((m : ConsignmentMessage)
              → r.0 ≡ ok m
              → (m ≡ unmarshal_consignment c)
                × (store.view r.1.store ≡ record (store.view w.store) {
                  consignments = (store.view w.store).consignments ++ c ∷ [];
                }))
          × ((x : Error) → r.0 ≡ err x → x ≡ status internal)
  unfolding create_consignment
  created_is_pending id req w reservation reserved =
      let new : Consignment = new_consignment id req reservation in
      let after : store.State = (store.create new w.store).1 in
      elim (Result-cases (store.create new w.store).0) [
        | inr (x, q) ↦ rw (reserved, q) (refl, refl, (λ m h. cc), λ y h. cc)
        | inl (c, q) ↦
            let (same, stored) =
              subst
                (Stored (record new { status = status_pending }) (store.view w.store)
                  (store.view after))
                q (store.create_lem new w.store) in
            rw (reserved, q)
              (
                refl,
                refl,
                (λ m h. (sym (ok_eq h) ∙ ap unmarshal_consignment same, stored)),
                λ y h. cc,
              )
      ]
