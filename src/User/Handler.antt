-- ===== src/User/Handler.antt =====
-- The gRPC handler of the user service (cmd/user-service/handler.go). Logging is left out.
use shippy.Prelude.{
  ℤ, String, Bool, true, false, Option, none, some, if◌then◌else◌, ◌==◌, ◌≡◌, List, [], Result, ok,
  err, Error, status, not_found, internal, unauthenticated, Exec, pure, raise, lift, on_error,
  ◌>>=◌, ⊤,
}
use shippy.User.{UserMessage, marshal_user, unmarshal_user, unmarshal_user_collection}
use shippy.User.Repository.{Database, get_all, get, get_by_email, create}
use shippy.User.Token.{CustomClaims, Jwt, decode, encode}

-- `bcrypt`: a hash is made with a salt, and a password fits the hashes made of it.
pub record Bcrypt : Type 0 where
  pub generate_from_password : String → String → Result String
  pub compare_hash_and_password : String → String → Result ⊤
  pub compare_generated :
      (salt password hash : String)
      → generate_from_password salt password ≡ ok hash
      → compare_hash_and_password hash password ≡ ok tt

-- `pb.Token`, and `pb.Response` with one user or several.
pub record TokenMessage : Type 0 where
  pub token : String
  pub valid : Bool

pub record Response : Type 0 where
  pub user : Option UserMessage
  pub users : List UserMessage

-- A call that returns, or panics on a nil pointer.
pub data Reply (A : Type 0) : Type 0 where
  returned : Result A → Reply A
  panicked : Reply A

-- On the claims; a nil pointer, to the claims or to their user, panics.
abbrev pub validate_claims : Result (Option CustomClaims) → Reply TokenMessage
validate_claims (err e) = returned (err (status unauthenticated))
validate_claims (ok none) = panicked
validate_claims (ok (some claims)) = elim claims.user [
  | none ↦ panicked
  | some user ↦ returned (
      if user.id == ""
      then err (status unauthenticated)
      else ok (record { token = ""; valid = true }))
]

module _ (db : Database) (bcrypt : Bcrypt) (jwt : Jwt) (secret : String) where
  abbrev or_code : {A : Type 0} → Error → Exec db.State A → Exec db.State A
  or_code code m = on_error m (λ _. raise code) pure

  unfoldable pub get_user : UserMessage → Exec db.State Response
  get_user req = or_code (status not_found) (get db req.id) >>= λ u.
      pure (record { user = some (unmarshal_user u); users = [] })

  unfoldable pub get_users : Exec db.State Response
  get_users = or_code (status internal) (get_all db) >>= λ us.
      pure (record { user = none; users = unmarshal_user_collection us })

  -- `now` is what `time.Now()` returns.
  unfoldable pub auth : ℤ → UserMessage → Exec db.State TokenMessage
  auth now req = do
    user ← or_code (status unauthenticated) (get_by_email db req.email)
    _ ←
        or_code (status unauthenticated)
          (lift (bcrypt.compare_hash_and_password user.password req.password))
    token ← or_code (status internal) (lift (encode jwt secret now (unmarshal_user user)))
    pure (record { token = token; valid = false })

  -- `salt` is the random part of the hash.
  unfoldable pub create_user : String → UserMessage → Exec db.State Response
  create_user salt req = do
    hashed_pass ← or_code (status internal) (lift (bcrypt.generate_from_password salt req.password))
    created ←
        or_code (status internal) (create db (marshal_user (record req { password = hashed_pass })))
    pure (record { user = some (record (unmarshal_user created) { password = "" }); users = [] })

module _ (jwt : Jwt) (secret : String) where
  unfoldable pub validate_token : ℤ → TokenMessage → Reply TokenMessage
  validate_token now req = validate_claims (decode jwt secret now req.token)
