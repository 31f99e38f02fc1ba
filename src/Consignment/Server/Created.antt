-- ===== src/Consignment/Server/Created.antt =====
-- From a call of CreateConsignment to a later call of GetConsignments
-- (cmd/consignment-service/server/handler.go).
use shippy.Events.{Wire}
use shippy.Consignment.{Consignment, ConsignmentStore, PaymentClient}
use shippy.Consignment.Server.{ReservationClient, Handler}

module _ (wire : Wire) (store : ConsignmentStore wire.Bytes) (payment_cli : PaymentClient)
    (reservation_cli : ReservationClient) where
  abbrev World : Type 0
  World = Handler wire store payment_cli reservation_cli
