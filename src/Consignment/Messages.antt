-- ===== src/Consignment/Messages.antt =====
-- The messages of proto/consignment and proto/reservation, and their conversion to and from what is
-- stored (the helpers of cmd/consignment-service/storage/mongo/mongo.go).
use shippy.Prelude.{ℤ, String, Bool, ◌≡◌, refl, ap, List, [], ◌∷◌, map}
use shippy.Consignment.{Container, Consignment}

pub record ContainerMessage : Type 0 where
  pub id : String
  pub customer_id : String
  pub origin : String
  pub user_id : String

pub record ConsignmentMessage : Type 0 where
  pub id : String
  pub description : String
  pub weight : ℤ
  pub containers : List ContainerMessage
  pub vessel_id : String
  pub status : String

pub record ReserveCapacityRequest : Type 0 where
  pub consignment_id : String
  pub weight : ℤ
  pub number_of_containers : ℤ

pub record ReservationResponse : Type 0 where
  pub id : String
  pub reserved : Bool
  pub vessel_id : String

abbrev pub marshal_container : ContainerMessage → Container
marshal_container c = record { id = c.id; customer_id = c.customer_id; user_id = c.user_id }

abbrev pub unmarshal_container : Container → ContainerMessage
unmarshal_container c = record {
  id = c.id;
  customer_id = c.customer_id;
  origin = "";
  user_id = c.user_id;
}

unfoldable pub marshal_containers : List ContainerMessage → List Container
marshal_containers [] = []
marshal_containers (c ∷ cs) = marshal_container c ∷ marshal_containers cs

unfoldable pub unmarshal_containers : List Container → List ContainerMessage
unmarshal_containers [] = []
unmarshal_containers (c ∷ cs) = unmarshal_container c ∷ unmarshal_containers cs

unfoldable pub marshal_consignment : ConsignmentMessage → Consignment
marshal_consignment c = record {
  id = c.id;
  weight = c.weight;
  description = c.description;
  containers = marshal_containers c.containers;
  vessel_id = c.vessel_id;
  reservation_id = "";
  status = c.status;
  payment_id = "";
}

unfoldable pub unmarshal_consignment : Consignment → ConsignmentMessage
unmarshal_consignment c = record {
  id = c.id;
  description = c.description;
  weight = c.weight;
  containers = unmarshal_containers c.containers;
  vessel_id = c.vessel_id;
  status = c.status;
}

unfoldable pub unmarshal_consignments : List Consignment → List ConsignmentMessage
unmarshal_consignments [] = []
unmarshal_consignments (c ∷ cs) = unmarshal_consignment c ∷ unmarshal_consignments cs

abbrev pub drop_origin : ContainerMessage → ContainerMessage
drop_origin c = record c { origin = "" }

unmarshal_containers-marshal :
    (cs : List ContainerMessage) → unmarshal_containers (marshal_containers cs) ≡ map drop_origin cs
unfolding marshal_containers unmarshal_containers
unmarshal_containers-marshal [] = refl
unmarshal_containers-marshal (c ∷ cs) =
    ap (λ l. drop_origin c ∷ l) (unmarshal_containers-marshal cs)

-- The conversion of a message to a consignment and back drops the origins of the containers, and
-- nothing else.
pub unmarshal_consignment-marshal :
    (c : ConsignmentMessage)
    → unmarshal_consignment (marshal_consignment c)
      ≡ record c { containers = map drop_origin c.containers }
unfolding marshal_consignment unmarshal_consignment
unmarshal_consignment-marshal c =
    ap (λ l. record c { containers = l }) (unmarshal_containers-marshal c.containers)
