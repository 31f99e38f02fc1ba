-- ===== src/User/Login.antt =====
-- A user that was created logs in, and what the token says (Create and Auth of
-- cmd/user-service/handler.go, on repository.go and token_service.go).
use shippy.Prelude.{
  ℤ, ◌+ℤ◌, ltb_ℤ, String, Bool-cases, false, none, some, ◌==◌, eq_iff, arith, ◌≡◌, ◌≢◌, refl, sym,
  ap, ◌∙◌, subst, inl, inr, List, [], ◌∷◌, ◌++◌, ok, Result-cases, ok_eq,
}
use shippy.User.{User, UserMessage, marshal_user, unmarshal_user}
use shippy.User.Repository.{Database, Inserted, find_email, create}
use shippy.User.Token.{Jwt, claims_for, claims_of, decode, encode, lifetime}
use shippy.User.Handler.{Bcrypt, TokenMessage, Response, auth, create_user}

find_email-append :
    (email : String) (us : List User) (u : User)
    → find_email email us ≡ none
    → u.email ≡ email
    → find_email email (us ++ u ∷ []) ≡ some u
unfolding find_email
find_email-append email [] u h same = ground (arith, eq_iff u.email email)
find_email-append email (x ∷ us) u h same = elim (Bool-cases (x.email == email)) [
  | inl p ↦ let h' = rw p at h in cc
  | inr p ↦ rw p (find_email-append email us u (rw p at h) same)
]

module _ (db : Database) (bcrypt : Bcrypt) (jwt : Jwt) (secret : String) where
  -- The row that `Create` has written.
  abbrev pub Row : String → UserMessage → db.State → User → Type 0
  Row salt req s u =
      (u.id ≢ "")
      × (u.name ≡ req.name)
      × (u.email ≡ req.email)
      × (u.company ≡ req.company)
      × (bcrypt.generate_from_password salt req.password ≡ ok u.password)

  pub created_row :
      (salt : String) (req : UserMessage) (s : db.State) (r : Response)
      → (create_user db bcrypt jwt secret salt req s).0 ≡ ok r
      → (u : User) × Row salt req s u
        × (find_email req.email (db.users (create_user db bcrypt jwt secret salt req s).1) ≡ some u)
  unfolding create_user create
  created_row salt req s r h =
      elim (Result-cases (bcrypt.generate_from_password salt req.password)) [
        | inr (e, p) ↦ let h' = rw p at h in cc
        | inl (hash, p) ↦
            let u : User = record (marshal_user (record req { password = hash })) {
              id = db.uuid s;
            } in
            elim (Result-cases (db.insert_user u s).0) [
              | inr (e, q) ↦ let h' = rw (p, q) at h in cc
              | inl (a, q) ↦
                  let (absent, new) =
                    subst (Inserted u (db.users s) (db.users (db.insert_user u s).1)) q
                      (db.insert_user_lem u s) in
                  (
                    u,
                    (db.uuid_lem s, refl, refl, refl, p),
                    rw (p, q) (rw new (find_email-append req.email (db.users s) u absent refl)),
                  )
            ]
      ]

  -- What a login that succeeds has found, and what its token says while it is good: the user is the
  -- one with the email, whose hash the password fits, and the claims have the whole row of the user,
  -- the hash included.
  pub token_has_row :
      (now now' : ℤ) (req : UserMessage) (s : db.State) (t : TokenMessage)
      → (auth db bcrypt jwt secret now req s).0 ≡ ok t
      → ltb_ℤ (now +ℤ lifetime) now' ≡ false
      → (u : User) × (find_email req.email (db.users s) ≡ some u)
        × (bcrypt.compare_hash_and_password u.password req.password ≡ ok tt)
        × (decode jwt secret now' t.token ≡ ok (some (claims_for now (unmarshal_user u))))
  unfolding auth encode decode
  token_has_row now now' req s t h good = elim (Result-cases (db.select_by_email req.email s).0) [
    | inr (e, p) ↦ let h' = rw p at h in cc
    | inl (u, p) ↦ elim (Result-cases (bcrypt.compare_hash_and_password u.password req.password)) [
      | inr (e, q) ↦ let h' = rw (p, q) at h in cc
      | inl (a, q) ↦
          elim (Result-cases (jwt.signed_string secret (claims_for now (unmarshal_user u)))) [
            | inr (e, x) ↦ let h' = rw (p, q, x) at h in cc
            | inl (token, x) ↦
                let same : token ≡ t.token = ap (λ y. y.token) (ok_eq (rw (p, q, x) at h)) in
                let parsed =
                  jwt.parse_signed secret token (claims_for now (unmarshal_user u)) now' x good in
                (
                  u,
                  (db.select_by_email_lem req.email s).1 u p,
                  q,
                  rw (sym same) (ap claims_of parsed),
                )
          ]
    ]
  ]

  -- A login by the password of a user that was created, on a database that answers and with a token
  -- that can be signed.
  pub created_logs_in :
      (salt : String) (now : ℤ) (req login : UserMessage) (s : db.State) (r : Response) (u : User)
      (token : String)
      → (create_user db bcrypt jwt secret salt req s).0 ≡ ok r
      → login.email ≡ req.email
      → login.password ≡ req.password
      → let s1 = (create_user db bcrypt jwt secret salt req s).1 in
        (db.select_by_email req.email s1).0 ≡ ok u
        → jwt.signed_string secret (claims_for now (unmarshal_user u)) ≡ ok token
        → ((auth db bcrypt jwt secret now login s1).0
            ≡ ok (record { token = token; valid = false }))
          × (u.id ≢ "")
  unfolding auth encode
  created_logs_in salt now req login s r u token h email password found signed =
      let s1 : db.State = (create_user db bcrypt jwt secret salt req s).1 in
      let (v, (given, _, _, _, hashed), there) = created_row salt req s r h in
      let same : v ≡ u = some_eq (sym there ∙ (db.select_by_email_lem req.email s1).1 u found) in
      let fits : bcrypt.compare_hash_and_password u.password req.password ≡ ok tt =
        subst (λ x. bcrypt.compare_hash_and_password x.password req.password ≡ ok tt) same
          (bcrypt.compare_generated salt req.password v.password hashed) in
      (rw (email, password, found, fits, signed) refl, subst (λ x. x.id ≢ "") same given)
    where
      some_eq : {a b : User} → some a ≡ some b → a ≡ b
      some_eq h = cc
