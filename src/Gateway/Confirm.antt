-- ===== src/Gateway/Confirm.antt =====
-- The confirmation of a consignment through the gateway on the consignment service (ConfirmConsignment
-- of cmd/gateway/handler/consignment.go and of cmd/consignment-service/server/handler.go).
mod Tests
use shippy.Prelude.{
  ℕ, String, Bool, Bool-cases, true, false, Option, none, some, if◌then◌else◌, ◌==◌, eq_iff, arith,
  ◌≡◌, ◌≢◌, refl, sym, ap, ◌∙◌, inl, inr, ◌↔◌, Code, not_found, failed_precondition, internal,
  status, is_not_found, Error, Result, ok, err, Result-cases, ok_eq, ⊤, Exec, subst,
}
use shippy.Events.{Timestamp, Wire, payment_authorised_topic}
use shippy.Consignment.{Consignment, ConsignmentStore, PaymentClient}
use shippy.Consignment.Server.{
  ReservationClient, Handler, authorised_event, cancel_consignment, void_payment,
  publish_payment_authorised, schedule_confirmation, authorise_payment, confirm_consignment,
  create_consignment, get_consignments, authorise_request, refresh_code,
}
use shippy.Gateway.{HttpResponse, code_of}
use shippy.Gateway.Handler.{UserClient, ConsignmentClient, World, confirm_failed}
use shippy.Gateway.Handler

module _ (wire : Wire) (store : ConsignmentStore wire.Bytes) (payment_cli : PaymentClient)
    (reservation_cli : ReservationClient) where
  abbrev Server : Type 0
  Server = Handler wire store payment_cli reservation_cli

  -- The client of the consignment service, with the new id and the clock of its calls.
  abbrev pub consignment_service : String → Timestamp → ConsignmentClient
  consignment_service id now = record {
    State = Server;
    create_consignment = create_consignment wire store payment_cli reservation_cli id;
    confirm_consignment = confirm_consignment wire store payment_cli reservation_cli now;
    get_consignments = get_consignments wire store payment_cli reservation_cli;
  }

  abbrev IsInternal : Result ⊤ → Type 0
  IsInternal (ok _) = Unit
  IsInternal (err e) = code_of e ≡ some internal

  publish-IsInternal :
      (auth_id : String) (c : Consignment) (now : Timestamp) (s : Server)
      → IsInternal
          (publish_payment_authorised wire store payment_cli reservation_cli auth_id c now s).0
  unfolding publish_payment_authorised cancel_consignment void_payment
  publish-IsInternal auth_id c now s =
      elim (Result-cases (wire.payment_authorised.marshal (authorised_event auth_id c now))) [
        | inr (e, p) ↦ rw p refl
        | inl (payload, p) ↦
            elim (Result-cases
              (store.create_event
                (record { topic = payment_authorised_topic; key = c.id; payload = payload })
                s.store).0) [ inl (a, q) ↦ rw (p, q) tt | inr (e, q) ↦ rw (p, q) refl ]
      ]

  schedule-IsInternal :
      (auth_id : String) (c : Consignment) (now : Timestamp) (s : Server)
      → IsInternal (schedule_confirmation wire store payment_cli reservation_cli c now auth_id s).0
  unfolding schedule_confirmation cancel_consignment void_payment
  schedule-IsInternal auth_id c now s =
      elim (Result-cases
        (publish_payment_authorised wire store payment_cli reservation_cli auth_id c now s).0) [
          | inl (a, p) ↦ rw p tt
          | inr (e, p) ↦ rw p (subst IsInternal p (publish-IsInternal auth_id c now s))
        ]

  authorise-IsInternal :
      (c : Consignment) (now : Timestamp) (s : Server)
      → IsInternal (authorise_payment wire store payment_cli reservation_cli c now s).0
  unfolding authorise_payment cancel_consignment
  authorise-IsInternal c now s =
      elim (Result-cases (payment_cli.authorise (authorise_request c) s.payment).0) [
        | inr (e, p) ↦ rw p refl
        | inl (a, p) ↦ rw p (
            schedule-IsInternal a c now
              (record s { payment = (payment_cli.authorise (authorise_request c) s.payment).1 }))
      ]

  -- The consignment that the server looks up, and the refresh of its reservation.
  abbrev pub lookup : String → Server → Result Consignment
  lookup id s = (store.get_by_id id s.store).0

  abbrev pub refreshed : Consignment → Server → Result ⊤
  refreshed c s = (reservation_cli.refresh_reservation c.reservation_id s.reservation).0

  abbrev pub IsGone : Result ⊤ → Type 0
  IsGone (ok _) = ⊥
  IsGone (err e) = is_not_found e ≡ true

  gone :
      (c x : Consignment) (s : Server) {r : Result ⊤}
      → refreshed c s ≡ r
      → c ≡ x
      → IsGone (refreshed x s)
      → IsGone r
  gone c x s q same g = subst IsGone q (subst (λ y. IsGone (refreshed y s)) (sym same) g)

  -- What the status code of an answer says of the confirmation.
  abbrev pub Explained : String → Server → Result ⊤ → ℕ → Type 0
  Explained id s r code =
      ((code ≡ 202) ↔ (r ≡ ok tt))
      × ((code ≡ 404) ↔ ((e : Error) × (lookup id s ≡ err e)))
      × ((code ≡ 409) ↔ ((c : Consignment) × (lookup id s ≡ ok c) × IsGone (refreshed c s)))

  -- The gateway answers a request to confirm a consignment by 202 exactly when the server has started
  -- the confirmation, by 404 exactly when the server cannot look the consignment up, and by 409 exactly
  -- when its reservation is no longer there to be refreshed. The id is not empty.
  pub confirm_codes :
      (users : UserClient) (new_id : String) (now : Timestamp) (id : String)
      → let svc = consignment_service new_id now in
        (w : World users svc)
        → id ≢ ""
        → Explained id w.consignments
            (confirm_consignment wire store payment_cli reservation_cli now id w.consignments).0
            (Handler.confirm_consignment users svc id w).0.code
  unfolding confirm_consignment Handler.confirm_consignment
  confirm_codes users new_id now id w given =
      let s : Server = w.consignments in
      let a : (id == "") ≡ false = ground (arith, eq_iff id "") in
      let s1 : Server = record s { store = (store.get_by_id id s.store).1 } in
      elim (Result-cases (store.get_by_id id s.store).0) [
        | inr (e, p) ↦
            rw (a, p)
              (
                (λ h. absurd (omega (arith, h)), λ h. cc),
                (λ _. (e, refl), λ _. refl),
                (λ h. absurd (omega (arith, h)), λ (c, h, _). cc),
              )
        | inl (c, p) ↦
            let s2 : Server = record s1 {
              reservation = (reservation_cli.refresh_reservation c.reservation_id s.reservation).1;
            } in
            elim (Result-cases
              (reservation_cli.refresh_reservation c.reservation_id s.reservation).0) [
                | inr (e, q) ↦ elim (Bool-cases (is_not_found e)) [
                  | inl n ↦
                      rw (a, p, q, n)
                        (
                          (λ h. absurd (omega (arith, h)), λ h. cc),
                          (λ h. absurd (omega (arith, h)), λ (x, h). cc),
                          (λ _. (c, refl, subst IsGone (sym q) n), λ _. refl),
                        )
                  | inr n ↦
                      rw (a, p, q, n)
                        (
                          (λ h. absurd (omega (arith, h)), λ h. cc),
                          (λ h. absurd (omega (arith, h)), λ (x, h). cc),
                          (
                            λ h. absurd (omega (arith, h)),
                            λ (x, h, g). let g' = gone c x s q (ok_eq h) g in cc,
                          ),
                        )
                ]
                | inl (b, q) ↦
                    elim (Result-cases
                      (authorise_payment wire store payment_cli reservation_cli c now s2).0) [
                        | inl (d, t) ↦
                            rw (a, p, q, t)
                              (
                                (λ _. refl, λ _. refl),
                                (λ h. absurd (omega (arith, h)), λ (x, h). cc),
                                (
                                  λ h. absurd (omega (arith, h)),
                                  λ (x, h, g). absurd (gone c x s q (ok_eq h) g),
                                ),
                              )
                        | inr (e, t) ↦
                            let known : code_of e ≡ some internal =
                              subst IsInternal t (authorise-IsInternal c now s2) in
                            rw (a, p, q, t, known)
                              (
                                (λ h. absurd (omega (arith, h)), λ h. cc),
                                (λ h. absurd (omega (arith, h)), λ (x, h). cc),
                                (
                                  λ h. absurd (omega (arith, h)),
                                  λ (x, h, g). absurd (gone c x s q (ok_eq h) g),
                                ),
                              )
                      ]
              ]
      ]
