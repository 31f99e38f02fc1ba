-- ===== src/Gateway/Confirm/Tests.antt =====
-- A confirmation whose reservation has gone.
use shippy.Prelude.{pos, true, ◌≡◌, refl, arith, eq_iff, [], ◌∷◌, ok, err, status, not_found}
use shippy.Testing.{wire}
use shippy.Consignment.{Consignment, find, status_pending}
use shippy.Consignment.Memory.{store, payment_cli}
use shippy.Consignment.Server.{ReservationClient, confirm_consignment}
use shippy.User.Memory.{db, bcrypt, jwt}
use shippy.Gateway.Login.{user_service}
use shippy.Gateway.Handler.{UserClient, World}
use shippy.Gateway.Handler
use shippy.Gateway.Confirm.{consignment_service, Explained, confirm_codes}

abbrev no_reservations : ReservationClient
no_reservations = record {
  State = Unit;
  reserve_capacity = λ req s. (ok (record { id = "r1"; reserved = true; vessel_id = "v1" }), s);
  refresh_reservation = λ id s. (err (status not_found), s);
}

abbrev consignment : Consignment
consignment = record {
  id = "c1";
  weight = pos 40;
  description = "tea";
  containers = [];
  vessel_id = "v1";
  reservation_id = "r1";
  status = status_pending;
  payment_id = "";
}

abbrev users : UserClient
users = user_service db bcrypt jwt "secret" "salt" (pos 100)

abbrev start : World users (consignment_service wire store payment_cli no_reservations "c2" (pos 7))
start = record {
  users = [];
  consignments = record {
    store = record { up = true; docs = record { consignments = consignment ∷ []; events = [] } };
    payment = record { failures = 0; calls = [] };
    reservation = tt;
  };
}

confirm_codes_example :
    Explained wire store payment_cli no_reservations "c1" start.consignments
      (confirm_consignment wire store payment_cli no_reservations (pos 7) "c1" start.consignments).0
      (Handler.confirm_consignment users
        (consignment_service wire store payment_cli no_reservations "c2" (pos 7))
        "c1"
        start).0.code
confirm_codes_example =
    confirm_codes wire store payment_cli no_reservations users "c2" (pos 7) "c1" start
      (λ h. ground (arith, eq_iff "c1" ""))

-- The answer is a conflict.
conflict :
    (Handler.confirm_consignment users
      (consignment_service wire store payment_cli no_reservations "c2" (pos 7))
      "c1"
      start).0.code
    ≡ 409
unfolding Handler.confirm_consignment confirm_consignment find
conflict = refl
