-- ===== src/Gateway/Login.antt =====
-- From a new user to the consignment service, through the gateway on the user service (cmd/gateway and
-- cmd/user-service).
use shippy.Prelude.{
  ℤ, ◌+ℤ◌, ltb_ℤ, String, false, ◌==◌, eq_iff, arith, ◌≡◌, ◌≢◌, refl, ok, Result-cases, inr, inl,
}
use shippy.User.{User, UserMessage, unmarshal_user}
use shippy.User.Repository.{Database}
use shippy.User.Token.{Jwt, claims_for, lifetime}
use shippy.User.Handler.{Bcrypt, auth, create_user}
use shippy.User.Login.{created_logs_in}
use shippy.Gateway.{token_body}
use shippy.Gateway.Middleware.{next, check_claims, decode_jwt}
use shippy.Gateway.Middleware
use shippy.Gateway.Handler.{
  UserClient, ConsignmentClient, World, NewUser, Credentials, Guarded, Request, post_auth,
  post_users, guarded, serve, serve_guarded, respond, answer, user_created,
}
use shippy.Gateway.Handler

-- The client of the user service, with the salt and the clock of its calls.
abbrev pub user_service : Database → Bcrypt → Jwt → String → String → ℤ → UserClient
user_service db bcrypt jwt secret salt now = record {
  State = db.State;
  auth = auth db bcrypt jwt secret now;
  create = create_user db bcrypt jwt secret salt;
}

module _ (db : Database) (bcrypt : Bcrypt) (jwt : Jwt) (secret salt : String) (now : ℤ)
    (consignments : ConsignmentClient) where
  abbrev users : UserClient
  users = user_service db bcrypt jwt secret salt now

  abbrev message : NewUser → UserMessage
  message u = record {
    id = "";
    name = u.name;
    company = u.company;
    email = u.email;
    password = u.password;
  }

  -- A token of a user with an id is good for the middleware until it expires.
  token_passes :
      (now' : ℤ) (u : User) (token : String)
      → u.id ≢ ""
      → token ≢ ""
      → jwt.signed_string secret (claims_for now (unmarshal_user u)) ≡ ok token
      → ltb_ℤ (now +ℤ lifetime) now' ≡ false
      → Middleware.auth jwt secret now' token ≡ next
  unfolding Middleware.auth decode_jwt
  token_passes now' u token named given signed good =
      let parsed =
        jwt.parse_signed secret token (claims_for now (unmarshal_user u)) now' signed good in
      let a : (token == "") ≡ false = ground (arith, eq_iff token "") in
      let b : (u.id == "") ≡ false = ground (arith, eq_iff u.id "") in rw (a, parsed, b) refl

  -- A user that the gateway has created logs in with the same email and password, and the token opens
  -- every guarded route for 72 hours; the database answers the login, and the token can be signed and
  -- is not empty.
  pub new_user_gets_in :
      (n : NewUser) (w : World users consignments) (clock now' : ℤ) (u : User) (old token : String)
      → let r = serve users consignments jwt secret clock old (post_users (ok n)) w in
        r.0.code ≡ 200
        → (db.select_by_email n.email r.1.users).0 ≡ ok u
        → jwt.signed_string secret (claims_for now (unmarshal_user u)) ≡ ok token
        → token ≢ ""
        → ltb_ℤ (now +ℤ lifetime) now' ≡ false
        → ((serve users consignments jwt secret clock old
              (post_auth (ok (record { email = n.email; password = n.password })))
              r.1).0
            ≡ respond 200 (token_body token))
          × ((g : Guarded users consignments) (v : World users consignments)
              → serve users consignments jwt secret now' token (guarded g) v
                ≡ serve_guarded users consignments g v)
  unfolding serve Handler.auth Handler.create_user
  new_user_gets_in n w clock now' u old token done found signed given good =
      elim (Result-cases (create_user db bcrypt jwt secret salt (message n) w.users).0) [
        | inr (e, p) ↦ let h : 500 ≡ 200 = rw p at done in absurd (omega (arith, h))
        | inl (r, p) ↦
            let login : UserMessage = record {
              id = "";
              name = "";
              company = "";
              email = n.email;
              password = n.password;
            } in
            let (token_answer, named) =
              created_logs_in db bcrypt jwt secret salt now (message n) login w.users r u token p
                refl refl found signed in
            (
              rw token_answer refl,
              λ g v. rw (token_passes now' u token named given signed good) refl,
            )
      ]
