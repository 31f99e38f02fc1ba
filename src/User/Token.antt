-- ===== src/User/Token.antt =====
-- `TokenService` (cmd/user-service/token_service.go), on the part of the JWT library that it calls.
use shippy.Prelude.{
  ℤ, pos, ◌+ℤ◌, ltb_ℤ, String, Bool, true, false, Option, none, some, if◌then◌else◌, ◌≡◌, Result,
  ok, err,
}
use shippy.User.{UserMessage}

-- The user is a pointer.
pub record CustomClaims : Type 0 where
  pub user : Option UserMessage
  pub expires_at : ℤ
  pub issuer : String

-- `jwt.Token` after parsing.
pub record ParsedToken : Type 0 where
  pub claims : CustomClaims
  pub valid : Bool

-- Signing with HS256, and `ParseWithClaims` at a time: a token is good for the secret that signed it,
-- until it expires.
pub record Jwt : Type 0 where
  pub signed_string : String → CustomClaims → Result String
  pub parse_with_claims : ℤ → String → String → Result ParsedToken
  pub parse_signed :
      (secret token : String) (claims : CustomClaims) (now : ℤ)
      → signed_string secret claims ≡ ok token
      → ltb_ℤ claims.expires_at now ≡ false
      → parse_with_claims now secret token ≡ ok (record { claims = claims; valid = true })

-- What a parsed token gives; claims that are not valid come back as a nil pointer with a nil error.
abbrev pub claims_of : Result ParsedToken → Result (Option CustomClaims)
claims_of (err e) = err e
claims_of (ok t) = if t.valid then ok (some t.claims) else ok none

-- 72 hours in seconds.
abbrev pub lifetime : ℤ
lifetime = pos 259200

abbrev pub claims_for : ℤ → UserMessage → CustomClaims
claims_for now user = record {
  user = some user;
  expires_at = now +ℤ lifetime;
  issuer = "shipping.UserService";
}

module _ (jwt : Jwt) where
  unfoldable pub decode : String → ℤ → String → Result (Option CustomClaims)
  decode secret now token = claims_of (jwt.parse_with_claims now secret token)

  unfoldable pub encode : String → ℤ → UserMessage → Result String
  encode secret now user = jwt.signed_string secret (claims_for now user)
