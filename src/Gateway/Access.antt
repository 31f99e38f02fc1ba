-- ===== src/Gateway/Access.antt =====
-- Who reaches the consignment service through the gateway (cmd/gateway/middleware/auth.go and the
-- routes of cmd/gateway/main.go), and the same check in the user service (ValidateToken of
-- cmd/user-service/handler.go).
use shippy.Prelude.{
  ℤ, String, Bool-cases, true, false, Option, none, some, if◌then◌else◌, ◌==◌, eq_iff, arith, ◌≡◌,
  ◌≢◌, refl, sym, subst, ◌⊎◌, inl, inr, ◌↔◌, Result, ok, err, Result-cases,
}
use shippy.User.{UserMessage}
use shippy.User.Token.{CustomClaims, ParsedToken, Jwt, claims_of, decode}
use shippy.User.Handler.{TokenMessage, Reply, returned, panicked, validate_token, validate_claims}
use shippy.Gateway.{HttpResponse}
use shippy.Gateway.Middleware.{
  Verdict, next, abort, unauthorized, check_user, check_claims, decode_jwt,
}
use shippy.Gateway.Middleware
use shippy.Gateway.Handler.{UserClient, ConsignmentClient, World, Guarded, guarded, serve}

-- A token that parses to valid claims of a user with an id.
abbrev pub Authorised : Jwt → String → ℤ → String → Type 0
Authorised jwt secret now token =
    (token ≢ "")
    × ((t : ParsedToken) × (user : UserMessage) × (jwt.parse_with_claims now secret token ≡ ok t)
        × (t.valid ≡ true)
        × (t.claims.user ≡ some user)
        × (user.id ≢ ""))

-- An answer that is a refusal.
abbrev pub Refused : HttpResponse → Type 0
Refused r = (r.code ≡ 401) ⊎ (r.code ≡ 500)

abbrev Checked : Jwt → String → ℤ → String → Verdict → Type 0
Checked jwt secret now token v =
    ((v ≡ next) × Authorised jwt secret now token)
    ⊎ ((v ≡ Verdict.panicked) ⊎ ((r : HttpResponse) × (v ≡ abort r) × (r.code ≡ 401)))

module _ (jwt : Jwt) (secret : String) (now : ℤ) (token : String) (given : token ≢ "") where
  parsed-Checked :
      (t : ParsedToken)
      → jwt.parse_with_claims now secret token ≡ ok t
      → Checked jwt secret now token (check_claims (claims_of (ok t)))
  parsed-Checked t p = elim (Bool-cases t.valid) [
    | inr q ↦ rw q (inr (inl refl))
    | inl q ↦
        subst
          (λ b.
            Checked jwt secret now token (check_claims (if b then ok (some t.claims) else ok none)))
          (sym q) (user_checked q t.claims.user refl)
  ]
    where
      user_checked :
          t.valid ≡ true
          → (u : Option UserMessage) → t.claims.user ≡ u
          → Checked jwt secret now token (check_claims (ok (some t.claims)))
      user_checked q none h = rw h (inr (inr (_, refl, refl)))
      user_checked q (some u) h = elim (Bool-cases (u.id == "")) [
        | inl r ↦ rw (h, r) (inr (inr (_, refl, refl)))
        | inr r ↦ rw (h, r) (inl (refl, (given, (t, u, p, q, h, ground (arith, eq_iff u.id "")))))
      ]

auth-Checked :
    (jwt : Jwt) (secret : String) (now : ℤ) (token : String)
    → Checked jwt secret now token (Middleware.auth jwt secret now token)
unfolding Middleware.auth decode_jwt
auth-Checked jwt secret now token = elim (Bool-cases (token == "")) [
  | inl p ↦ rw p (inr (inr (_, refl, refl)))
  | inr p ↦
      let given : token ≢ "" = ground (arith, eq_iff token "") in
      elim (Result-cases (jwt.parse_with_claims now secret token)) [
        | inr (e, q) ↦ rw (p, q) (inr (inr (_, refl, refl)))
        | inl (t, q) ↦ rw p (
            subst (λ r. Checked jwt secret now token (check_claims (claims_of r))) (sym q)
              (parsed-Checked jwt secret now token given t q))
      ]
]

-- A request to a guarded route reaches a service only with a token that parses to valid claims of a
-- user with an id; any other request is refused, with no service called.
pub guarded_needs_token :
    (users : UserClient) (consignments : ConsignmentClient) (jwt : Jwt) (secret : String) (now : ℤ)
    (token : String) (g : Guarded users consignments) (w : World users consignments)
    → let r = serve users consignments jwt secret now token (guarded g) w in
      Authorised jwt secret now token ⊎ (Refused r.0 × (r.1 ≡ w))
unfolding serve
guarded_needs_token users consignments jwt secret now token g w =
    elim (auth-Checked jwt secret now token) [
      | inl (p, good) ↦ inl good
      | inr (inl p) ↦ rw p (inr (inr refl, refl))
      | inr (inr (r, p, c)) ↦ rw p (inr (inl c, refl))
    ]

abbrev pub valid : Reply TokenMessage
valid = returned (ok (record { token = ""; valid = true }))

-- Claims that have no user.
abbrev pub Nameless : Result (Option CustomClaims) → Type 0
Nameless (err e) = ⊥
Nameless (ok none) = Unit
Nameless (ok (some c)) = c.user ≡ none

claims_agree :
    (r : Result (Option CustomClaims))
    → (validate_claims r ≡ valid ↔ (check_claims r ≡ next))
      × (validate_claims r ≡ panicked ↔ Nameless r)
claims_agree (err e) = ((λ h. cc, λ h. cc), (λ h. cc, λ h. elim h [ ]))
claims_agree (ok none) = ((λ h. cc, λ h. cc), (λ h. tt, λ h. refl))
claims_agree (ok (some c)) = by_user c.user refl
  where
    by_user :
        (u : Option UserMessage)
        → c.user ≡ u
        → (validate_claims (ok (some c)) ≡ valid ↔ (check_claims (ok (some c)) ≡ next))
          × (validate_claims (ok (some c)) ≡ panicked ↔ (c.user ≡ none))
    by_user none h = rw h ((λ h. cc, λ h. cc), (λ _. refl, λ _. refl))
    by_user (some u) h = elim (Bool-cases (u.id == "")) [
      | inl p ↦ rw (h, p) ((λ h. cc, λ h. cc), (λ h. cc, λ h. cc))
      | inr p ↦ rw (h, p) ((λ _. refl, λ _. refl), (λ h. cc, λ h. cc))
    ]

-- The user service takes a token as valid exactly when the gateway lets a request with it through,
-- where both have the same secret and clock and the token is not empty; and it panics exactly where
-- the claims of the token have no user.
pub tokens_agree :
    (jwt : Jwt) (secret : String) (now : ℤ) (token : String)
    → token ≢ ""
    → let r = validate_token jwt secret now (record { token = token; valid = false }) in
      (r ≡ valid ↔ (Middleware.auth jwt secret now token ≡ next))
      × (r ≡ panicked ↔ Nameless (decode jwt secret now token))
unfolding validate_token decode Middleware.auth decode_jwt
tokens_agree jwt secret now token given =
    let other : (token == "") ≡ false = ground (arith, eq_iff token "") in
    rw other (claims_agree (claims_of (jwt.parse_with_claims now secret token)))
