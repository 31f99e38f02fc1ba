-- ===== src/User/Tests.antt =====
-- The user service at concrete users.
use shippy.Prelude.{pos, ◌+ℤ◌, false, some, ◌≡◌, refl, [], ◌∷◌, ok}
use shippy.User.{User, UserMessage, unmarshal_user}
use shippy.User.Repository.{find_email, create}
use shippy.User.Token.{claims_for, decode, encode}
use shippy.User.Handler.{TokenMessage, auth, create_user}
use shippy.User.Memory.{db, bcrypt, jwt, stored}
use shippy.User.Login.{token_has_row}

abbrev ann : UserMessage
ann = record { id = ""; name = "Ann"; company = "X"; email = "ann@x"; password = "pass" }

abbrev token : TokenMessage
token = record { token = "token"; valid = false }

-- The answer to a creation hides the hash; the row has it.
creation :
    let r = create_user db bcrypt jwt "secret" "salt" ann [] in
    (r.0
      ≡ ok (record { user = some (record (unmarshal_user stored) { password = "" }); users = [] }))
    × (r.1 ≡ stored ∷ [])
unfolding create_user create find_email
creation = (refl, refl)

token_has_row_example :
    (u : User) × (find_email "ann@x" (stored ∷ []) ≡ some u)
    × (bcrypt.compare_hash_and_password u.password "pass" ≡ ok tt)
    × (decode jwt "secret" (pos 200) "token" ≡ ok (some (claims_for (pos 100) (unmarshal_user u))))
unfolding auth encode find_email ◌+ℤ◌
token_has_row_example =
    token_has_row db bcrypt jwt "secret" (pos 100) (pos 200) ann (stored ∷ []) token refl refl
