-- ===== src/User.antt =====
-- The user service (cmd/user-service): its rows, the messages of proto/user, and their conversion
-- (repository.go).
pub mod Repository
pub mod Token
pub mod Handler
pub mod Login
pub mod Memory
mod Tests
use shippy.Prelude.{String, Bool, ◌≡◌, refl, List, [], ◌∷◌}

pub record User : Type 0 where
  pub id : String
  pub name : String
  pub email : String
  pub company : String
  pub password : String

-- `pb.User`
pub record UserMessage : Type 0 where
  pub id : String
  pub name : String
  pub company : String
  pub email : String
  pub password : String

abbrev pub marshal_user : UserMessage → User
marshal_user u = record {
  id = u.id;
  name = u.name;
  email = u.email;
  company = u.company;
  password = u.password;
}

abbrev pub unmarshal_user : User → UserMessage
unmarshal_user u = record {
  id = u.id;
  name = u.name;
  email = u.email;
  company = u.company;
  password = u.password;
}

unfoldable pub marshal_user_collection : List UserMessage → List User
marshal_user_collection [] = []
marshal_user_collection (u ∷ us) = marshal_user u ∷ marshal_user_collection us

unfoldable pub unmarshal_user_collection : List User → List UserMessage
unmarshal_user_collection [] = []
unmarshal_user_collection (u ∷ us) = unmarshal_user u ∷ unmarshal_user_collection us
