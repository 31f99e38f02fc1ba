-- ===== src/Gateway/Handler.antt =====
-- The handlers of the gateway and their routes (cmd/gateway/handler, cmd/gateway/main.go). What the
-- web framework reads from the body of a request comes as a result; a panic is answered by its
-- recovery.
use shippy.Prelude.{
  ℕ, ℤ, String, Option, none, some, if◌then◌else◌, ◌==◌, List, map, Result, ok, err, Error, Code,
  not_found, failed_precondition, unauthenticated, Exec, ⊤,
}
use shippy.User.{UserMessage}
use shippy.User.Token.{Jwt}
use shippy.User.Handler.{TokenMessage, Response}
use shippy.Consignment.Messages.{ConsignmentMessage, ContainerMessage}
use shippy.Gateway.{
  HttpResponse, Body, no_body, error_text, error_of, token_body, id_body, consignments_body,
  code_of,
}
use shippy.Gateway.Middleware.{Verdict, next, abort, panicked}
use shippy.Gateway.Middleware

-- `userpb.UserServiceClient` and `consignmentpb.ConsignmentServiceClient`.
pub record UserClient : Type 1 where
  pub State : Type 0
  pub auth : UserMessage → Exec State TokenMessage
  pub create : UserMessage → Exec State Response

pub record ConsignmentClient : Type 1 where
  pub State : Type 0
  pub create_consignment : ConsignmentMessage → Exec State ConsignmentMessage
  pub confirm_consignment : String → Exec State ⊤
  pub get_consignments : Exec State (List ConsignmentMessage)

pub record Services (Users Consignments : Type 0) : Type 0 where
  pub users : Users
  pub consignments : Consignments

-- The bodies of the requests.
pub record Credentials : Type 0 where
  pub email : String
  pub password : String

pub record NewUser : Type 0 where
  pub name : String
  pub email : String
  pub company : String
  pub password : String

pub record ContainerBody : Type 0 where
  pub customer_id : String
  pub origin : String
  pub user_id : String

pub record CreateConsignmentRequest : Type 0 where
  pub description : String
  pub weight : ℤ
  pub containers : List ContainerBody

abbrev pub respond : ℕ → Body → HttpResponse
respond code body = record { code = code; body = body }

-- The answer by the result of a call.
abbrev pub answer :
    {A : Type 0} → Result A → (Error → HttpResponse) → (A → HttpResponse) → HttpResponse
answer (ok a) failed done = done a
answer (err e) failed done = failed e

abbrev pub auth_failed : Option Code → HttpResponse
auth_failed (some unauthenticated) = respond 401 (error_text "invalid credentials")
auth_failed _ = respond 500 no_body

abbrev pub confirm_failed : Error → Option Code → HttpResponse
confirm_failed e (some not_found) = respond 404 (error_text "consignment not found")
confirm_failed e (some failed_precondition) = respond 409 (error_of e)
confirm_failed e _ = respond 500 (error_text "failed to confirm consignment")

-- A response without a user is a nil pointer.
abbrev pub user_created : Response → HttpResponse
user_created r = elim r.user [ none ↦ respond 500 no_body | some u ↦ respond 200 (id_body u.id) ]

abbrev pub to_container : ContainerBody → ContainerMessage
to_container c = record {
  id = "";
  customer_id = c.customer_id;
  origin = c.origin;
  user_id = c.user_id;
}

abbrev pub to_consignment : CreateConsignmentRequest → ConsignmentMessage
to_consignment req = record {
  id = "";
  description = req.description;
  weight = req.weight;
  containers = map to_container req.containers;
  vessel_id = "";
  status = "";
}

module _ (users : UserClient) (consignments : ConsignmentClient) where
  abbrev pub World : Type 0
  World = Services users.State consignments.State

  abbrev pub Served : Type 0
  Served = World → HttpResponse × World

  abbrev pub call_users :
      {A : Type 0} → Exec users.State A → (Error → HttpResponse) → (A → HttpResponse) → Served
  call_users m failed done w =
      (answer (m w.users).0 failed done, record w { users = (m w.users).1 })

  abbrev pub call_consignments :
      {A : Type 0}
      → Exec consignments.State A
      → (Error → HttpResponse)
      → (A → HttpResponse)
      → Served
  call_consignments m failed done w =
      (answer (m w.consignments).0 failed done, record w { consignments = (m w.consignments).1 })

  unfoldable pub auth : Result Credentials → Served
  auth (err e) w = (respond 400 (error_text "Invalid request"), w)
  auth (ok c) w =
      call_users
        (users.auth
          (record { id = ""; name = ""; company = ""; email = c.email; password = c.password }))
        (λ e. auth_failed (code_of e)) (λ t. respond 200 (token_body t.token)) w

  unfoldable pub create_user : Result NewUser → Served
  create_user (err e) w = (respond 400 (error_text "Invalid request"), w)
  create_user (ok u) w =
      call_users
        (users.create (record {
          id = "";
          name = u.name;
          company = u.company;
          email = u.email;
          password = u.password;
        }))
        (λ e. respond 500 no_body) user_created w

  unfoldable pub create_consignment : Result CreateConsignmentRequest → Served
  create_consignment (err e) w = (respond 400 (error_of e), w)
  create_consignment (ok req) w =
      call_consignments (consignments.create_consignment (to_consignment req))
        (λ e. respond 500 (error_text "failed to create consignment"))
        (λ c. respond 201 (id_body c.id)) w

  unfoldable pub confirm_consignment : String → Served
  confirm_consignment id w =
      if id == ""
      then (respond 400 (error_text "failed to confirm consignment"), w)
      else call_consignments (consignments.confirm_consignment id)
          (λ e. confirm_failed e (code_of e)) (λ _. respond 202 no_body) w

  unfoldable pub get_consignments : Served
  get_consignments =
      call_consignments consignments.get_consignments
        (λ e. respond 500 (error_text "failed to get consignments"))
        (λ cs. respond 200 (consignments_body cs))

  -- The routes of the group that the middleware guards.
  pub data Guarded : Type 0 where
    post_consignments : Result CreateConsignmentRequest → Guarded
    post_confirm : String → Guarded
    get_all : Guarded

  pub data Request : Type 0 where
    healthz : Request
    post_auth : Result Credentials → Request
    post_users : Result NewUser → Request
    guarded : Guarded → Request

  abbrev pub serve_guarded : Guarded → Served
  serve_guarded (post_consignments req) = create_consignment req
  serve_guarded (post_confirm id) = confirm_consignment id
  serve_guarded get_all = get_consignments

  abbrev pub behind : Verdict → Served → Served
  behind next h w = h w
  behind (abort r) h w = (r, w)
  behind panicked h w = (respond 500 no_body, w)

  unfoldable pub serve : Jwt → String → ℤ → String → Request → Served
  serve jwt secret now token healthz w = (respond 200 no_body, w)
  serve jwt secret now token (post_auth c) w = auth c w
  serve jwt secret now token (post_users u) w = create_user u w
  serve jwt secret now token (guarded g) w =
      behind (Middleware.auth jwt secret now token) (serve_guarded g) w
