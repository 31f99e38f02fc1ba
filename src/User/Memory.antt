-- ===== src/User/Memory.antt =====
-- A table of users, an encryption and signed tokens in memory, for the runs of the user service and of
-- the gateway.
use Prim.Native.String.{◌++◌ as ◌+s◌}
use shippy.Prelude.{
  ℤ, pos, ltb_ℤ, String, Bool, Bool-cases, true, false, Option, none, some, ◌&&◌, if◌then◌else◌,
  ◌==◌, eq_iff, arith, ◌≡◌, refl, sym, ap, inl, inr, List, [], ◌∷◌, ◌++◌, Result, ok, err, errorf,
  ok_eq, Exec, ⊤, not, leb_ℤ, subst, eq_of_parts,
}
use shippy.User.{User, UserMessage, unmarshal_user}
use shippy.User.Repository.{Database, Inserted, find_email}
use shippy.User.Token.{CustomClaims, ParsedToken, Jwt, claims_for}
use shippy.User.Handler.{Bcrypt}

abbrev pub found : Option User → Result User
found none = err (errorf "no rows")
found (some u) = ok u

pub found_lem : (o : Option User) (u : User) → found o ≡ ok u → o ≡ some u
found_lem none u h = cc
found_lem (some v) u h = let e = ok_eq h in cc

abbrev pub insert_beside : Option User → User → Exec (List User) ⊤
insert_beside none u us = (ok tt, us ++ u ∷ [])
insert_beside (some v) u us = (err (errorf "duplicate"), us)

pub insert_lem :
    (o : Option User) (u : User) (us : List User)
    → find_email u.email us ≡ o
    → Inserted u us (insert_beside o u us).1 (insert_beside o u us).0
insert_lem none u us h = (h, refl)
insert_lem (some v) u us h = inl refl

abbrev pub db : Database
db = record {
  State = List User;
  users = λ s. s;
  select_users = λ s. (ok s, s);
  select_by_id = λ id s. (err (errorf "no rows"), s);
  select_by_email = λ email s. (found (find_email email s), s);
  insert_user = λ u s. insert_beside (find_email u.email s) u s;
  uuid = λ s. "u1";
  uuid_lem = λ s h. ground (arith, eq_iff "u1" "");
  select_by_email_lem = λ email s. (refl, λ u h. found_lem (find_email email s) u h);
  insert_user_lem = λ u s. insert_lem (find_email u.email s) u s refl;
}

abbrev pub compare : String → String → Result ⊤
compare hash password = if hash == ("hash of " +s password) then ok tt else err (errorf "mismatch")

pub compare_generated :
    (salt password hash : String)
    → ok ("hash of " +s password) ≡ ok hash
    → compare hash password ≡ ok tt
compare_generated salt password hash h =
    let e = ok_eq h in ground (arith, eq_iff hash ("hash of " +s password))

abbrev pub bcrypt : Bcrypt
bcrypt = record {
  generate_from_password = λ salt password. ok ("hash of " +s password);
  compare_hash_and_password = λ hash password. compare hash password;
  compare_generated = compare_generated;
}

-- The user that a first creation stores, and the only claims that are signed here.
abbrev pub stored : User
stored = record {
  id = "u1";
  name = "Ann";
  email = "ann@x";
  company = "X";
  password = "hash of pass";
}

abbrev pub known : CustomClaims
known = claims_for (pos 100) (unmarshal_user stored)

abbrev pub is_stored : UserMessage → Bool
is_stored u =
    u.id == "u1"
    && u.name == "Ann"
    && u.company == "X"
    && u.email == "ann@x"
    && u.password == "hash of pass"

abbrev pub is_stored_option : Option UserMessage → Bool
is_stored_option none = false
is_stored_option (some u) = is_stored u

abbrev pub is_known : CustomClaims → Bool
is_known c =
    is_stored_option c.user
    && leb_ℤ c.expires_at known.expires_at
    && leb_ℤ known.expires_at c.expires_at
    && c.issuer == "shipping.UserService"

abbrev pub sign : Bool → Result String
sign true = ok "token"
sign false = err (errorf "unsupported")

abbrev pub parse : ℤ → String → Result ParsedToken
parse now token =
    if token == "token" && not (ltb_ℤ known.expires_at now)
    then ok (record { claims = known; valid = true })
    else err (errorf "invalid token")

is_stored_lem : (u : UserMessage) → is_stored u ≡ true → u ≡ unmarshal_user stored
is_stored_lem u h =
    let a : u.id ≡ "u1" = ground (arith, eq_iff u.id "u1") in
    let b : u.name ≡ "Ann" = ground (arith, eq_iff u.name "Ann") in
    let c : u.company ≡ "X" = ground (arith, eq_iff u.company "X") in
    let d : u.email ≡ "ann@x" = ground (arith, eq_iff u.email "ann@x") in
    let e : u.password ≡ "hash of pass" = ground (arith, eq_iff u.password "hash of pass") in
    λ i. record { id = a i; name = b i; company = c i; email = d i; password = e i }

is_stored_option_lem :
    (o : Option UserMessage) → is_stored_option o ≡ true → o ≡ some (unmarshal_user stored)
is_stored_option_lem none h = cc
is_stored_option_lem (some u) h = ap some (is_stored_lem u h)

is_known_lem : (c : CustomClaims) → is_known c ≡ true → c ≡ known
is_known_lem c h =
    let a : is_stored_option c.user ≡ true = ground arith in
    let u = is_stored_option_lem c.user a in
    let e : c.expires_at ≡ known.expires_at =
      eq_of_parts c.expires_at known.expires_at (ground arith) in
    let i : c.issuer ≡ "shipping.UserService" =
      ground (arith, eq_iff c.issuer "shipping.UserService") in
    λ j. record { user = u j; expires_at = e j; issuer = i j }

pub parse_signed :
    (token : String) (c : CustomClaims) (now : ℤ)
    → sign (is_known c) ≡ ok token
    → ltb_ℤ c.expires_at now ≡ false
    → parse now token ≡ ok (record { claims = c; valid = true })
parse_signed token c now h good = elim (Bool-cases (is_known c)) [
  | inr p ↦ let h' = rw p at h in cc
  | inl p ↦
      let same = is_known_lem c p in
      let text : "token" ≡ token = ok_eq (rw p at h) in
      let late : ltb_ℤ known.expires_at now ≡ false =
        subst (λ x. ltb_ℤ x.expires_at now ≡ false) same good in
      subst (λ x. parse now token ≡ ok (record { claims = x; valid = true })) (sym same)
        (subst (λ t. parse now t ≡ ok (record { claims = known; valid = true })) text
          (rw late refl))
]

abbrev pub jwt : Jwt
jwt = record {
  signed_string = λ secret c. sign (is_known c);
  parse_with_claims = λ now secret token. parse now token;
  parse_signed = λ secret token c now h good. parse_signed token c now h good;
}
