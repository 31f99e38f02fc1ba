-- ===== src/Gateway/Middleware.antt =====
-- The check of the token of a request (cmd/gateway/middleware/auth.go).
use shippy.Prelude.{ℤ, String, Option, none, some, if◌then◌else◌, ◌==◌, Result, ok, err}
use shippy.User.{UserMessage}
use shippy.User.Token.{CustomClaims, Jwt, claims_of}
use shippy.Gateway.{HttpResponse, error_text}

-- The request goes on to its handler, or is answered here, or a nil pointer panics.
pub data Verdict : Type 0 where
  next : Verdict
  abort : HttpResponse → Verdict
  panicked : Verdict

abbrev pub unauthorized : String → Verdict
unauthorized text = abort (record { code = 401; body = error_text text })

abbrev pub check_user : Option UserMessage → Verdict
check_user none = unauthorized "invalid token"
check_user (some user) = if user.id == "" then unauthorized "invalid token" else next

abbrev pub check_claims : Result (Option CustomClaims) → Verdict
check_claims (err e) = unauthorized "invalid token"
check_claims (ok none) = panicked
check_claims (ok (some claims)) = check_user claims.user

module _ (jwt : Jwt) where
  unfoldable pub decode_jwt : ℤ → String → String → Result (Option CustomClaims)
  decode_jwt now token secret = claims_of (jwt.parse_with_claims now secret token)

  -- `token` is the header `x-token`, "" where there is none.
  unfoldable pub auth : String → ℤ → String → Verdict
  auth secret now token =
      if token == ""
      then unauthorized "x-token header required"
      else check_claims (decode_jwt now token secret)
