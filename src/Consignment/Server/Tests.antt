-- ===== src/Consignment/Server/Tests.antt =====
-- The calls of the consignment service at concrete requests.
use shippy.Prelude.{
  Result, inl, pos, String, Bool, true, false, some, ◌≡◌, ◌≢◌, refl, [], ◌∷◌, ok, err, errorf,
  status, not_found,
}
use shippy.Testing.{Message, wire}
use shippy.Consignment.{ConsignmentStore, Consignment, find, set_one, status_pending}
use shippy.Consignment.Messages.{ConsignmentMessage}
use shippy.Consignment.Memory.{store, payment_cli}
use shippy.Consignment.Server.{
  ReservationClient, Handler, create_consignment, authorise_request, confirm_consignment,
  authorise_payment, schedule_confirmation, publish_payment_authorised, cancel_consignment,
  void_payment,
}
use shippy.Consignment.Server.Confirm.{
  Started, Undone, confirmed_is_Started, failed_start_is_Undone,
}

-- A reservation service that gives one reservation, and knows it until it is told otherwise.
abbrev reservation_cli : ReservationClient
reservation_cli = record {
  State = Bool;
  reserve_capacity = λ req s. (ok (record { id = "r1"; reserved = true; vessel_id = "v1" }), true);
  refresh_reservation =
      λ id s. elim s [ true ↦ (ok tt, true) | false ↦ (err (status not_found), false) ];
}

abbrev Service : Type 0
Service = Handler wire store payment_cli reservation_cli

abbrev consignment : Consignment
consignment = record {
  id = "c1";
  weight = pos 40;
  description = "tea";
  containers = [];
  vessel_id = "v1";
  reservation_id = "r1";
  status = status_pending;
  payment_id = "";
}

abbrev service : Bool → Bool → Service
service up known = record {
  store = record { up = up; docs = record { consignments = consignment ∷ []; events = [] } };
  payment = record { failures = 0; calls = [] };
  reservation = known;
}

abbrev request : ConsignmentMessage
request = record {
  id = "";
  description = "tea";
  weight = pos 40;
  containers = record { id = "b1"; customer_id = "u1"; origin = "Leith"; user_id = "u2" } ∷ [];
  vessel_id = "";
  status = "confirmed";
}

confirms :
    (confirm_consignment wire store payment_cli reservation_cli (pos 7) "c1" (service true true)).0
    ≡ ok tt
unfolding confirm_consignment authorise_payment schedule_confirmation publish_payment_authorised
    find
confirms = refl

confirmed_is_Started_example :
    let r =
      confirm_consignment wire store payment_cli reservation_cli (pos 7) "c1" (service true true) in
    (c : Consignment) × (auth_id : String) × (find "c1" (consignment ∷ []) ≡ some c)
    × (payment_cli.authorise (authorise_request c) (service true true).payment
        ≡ (ok auth_id, r.1.payment))
    × Started wire store payment_cli reservation_cli auth_id c
        (pos 7)
        (service true true).store.docs
        r.1.store.docs
confirmed_is_Started_example =
    confirmed_is_Started wire store payment_cli reservation_cli (pos 7) "c1" (service true true)
      confirms

-- The database where no event can be written.
abbrev no_events : ConsignmentStore Message
no_events = record store {
  create_event = λ e s. (err (errorf "full"), s);
  create_event_lem = λ e s. inl refl;
  create_event-consignments = λ e s. refl;
}

abbrev full : Handler wire no_events payment_cli reservation_cli
full = record {
  store = record { up = true; docs = record { consignments = consignment ∷ []; events = [] } };
  payment = record { failures = 0; calls = [] };
  reservation = true;
}

not_begun :
    (confirm_consignment wire no_events payment_cli reservation_cli (pos 7) "c1" full).0 ≢ ok tt
unfolding confirm_consignment authorise_payment schedule_confirmation publish_payment_authorised
    cancel_consignment void_payment find
not_begun h = cc

-- The consignment is cancelled twice and its payment is voided twice.
voided_twice :
    (confirm_consignment wire no_events payment_cli reservation_cli
      (pos 7)
      "c1"
      full).1.payment.calls
    ≡ "c1" ∷ "a1" ∷ "a1" ∷ []
unfolding confirm_consignment authorise_payment schedule_confirmation publish_payment_authorised
    cancel_consignment void_payment find set_one
voided_twice = refl

failed_start_is_Undone_example :
    let r = confirm_consignment wire no_events payment_cli reservation_cli (pos 7) "c1" full in
    Undone wire no_events payment_cli reservation_cli "a1" consignment r.1
unfolding find
failed_start_is_Undone_example =
    failed_start_is_Undone wire no_events payment_cli reservation_cli (pos 7) "c1" "a1" consignment
      full refl refl refl not_begun

abbrev created : ConsignmentMessage
created = record {
  id = "c2";
  description = "tea";
  weight = pos 40;
  containers = record { id = "b1"; customer_id = "u1"; origin = ""; user_id = "u2" } ∷ [];
  vessel_id = "v1";
  status = "pending";
}

abbrev after_create : Result ConsignmentMessage × Service
after_create =
    create_consignment wire store payment_cli reservation_cli "c2" request (service true true)
