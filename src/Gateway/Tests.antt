-- ===== src/Gateway/Tests.antt =====
-- The gateway on the user service in memory, with a consignment service that counts its calls.
use shippy.Prelude.{ℕ, suc, pos, ◌+ℤ◌, false, ◌≡◌, refl, ◌⊎◌, ◌↔◌, arith, eq_iff, [], ◌∷◌, ok}
use shippy.User.Repository.{find_email, create}
use shippy.User.Token.{decode}
use shippy.User.Handler.{create_user, validate_token, panicked}
use shippy.User.Memory.{db, bcrypt, jwt, stored}
use shippy.Gateway.{token_body}
use shippy.Gateway.Middleware.{next, decode_jwt}
use shippy.Gateway.Middleware
use shippy.Gateway.Handler.{
  ConsignmentClient, World, NewUser, Guarded, get_all, post_confirm, post_auth, post_users, guarded,
  serve, serve_guarded, respond, get_consignments, confirm_consignment,
}
use shippy.Gateway.Handler
use shippy.Gateway.Login.{user_service, new_user_gets_in}
use shippy.Gateway.Access.{Authorised, Refused, Nameless, valid, guarded_needs_token, tokens_agree}

abbrev consignments : ConsignmentClient
consignments = record {
  State = ℕ;
  create_consignment = λ c n. (ok c, suc n);
  confirm_consignment = λ id n. (ok tt, suc n);
  get_consignments = λ n. (ok [], suc n);
}

abbrev users : Handler.UserClient
users = user_service db bcrypt jwt "secret" "salt" (pos 100)

abbrev start : World users consignments
start = record { users = []; consignments = 0 }

abbrev ann : NewUser
ann = record { name = "Ann"; email = "ann@x"; company = "X"; password = "pass" }

abbrev after : World users consignments
after = record { users = stored ∷ []; consignments = 0 }

-- Without a token nothing is called.
no_token :
    (serve users consignments jwt "secret" (pos 100) "" (guarded get_all) start).1.consignments ≡ 0
unfolding serve Middleware.auth
no_token = refl

guarded_needs_token_example :
    let r =
      serve users consignments jwt "secret" (pos 200) "other" (guarded (post_confirm "c1")) start in
    Authorised jwt "secret" (pos 200) "other" ⊎ (Refused r.0 × (r.1 ≡ start))
guarded_needs_token_example =
    guarded_needs_token users consignments jwt "secret" (pos 200) "other" (post_confirm "c1") start

tokens_agree_example :
    let r = validate_token jwt "secret" (pos 200) (record { token = "token"; valid = false }) in
    (r ≡ valid ↔ (Middleware.auth jwt "secret" (pos 200) "token" ≡ next))
    × (r ≡ panicked ↔ Nameless (decode jwt "secret" (pos 200) "token"))
tokens_agree_example =
    tokens_agree jwt "secret" (pos 200) "token" (λ h. ground (arith, eq_iff "token" ""))

new_user_gets_in_example :
    ((serve users consignments jwt "secret"
        (pos 100)
        ""
        (post_auth (ok (record { email = "ann@x"; password = "pass" })))
        after).0
      ≡ respond 200 (token_body "token"))
    × ((g : Guarded users consignments) (v : World users consignments)
        → serve users consignments jwt "secret" (pos 200) "token" (guarded g) v
          ≡ serve_guarded users consignments g v)
unfolding serve Handler.create_user create_user create find_email ◌+ℤ◌
new_user_gets_in_example =
    new_user_gets_in db bcrypt jwt "secret" "salt" (pos 100) consignments ann start (pos 100)
      (pos 200) stored "" "token" refl refl refl (λ h. ground (arith, eq_iff "token" "")) refl
