-- ===== src/User/Repository.antt =====
-- `PostgresRepository` (cmd/user-service/repository.go) on the part of the database that it calls.
use shippy.Prelude.{
  String, Option, none, some, if◌then◌else◌, ◌==◌, ◌≡◌, ◌≢◌, ◌⊎◌, List, [], ◌∷◌, ◌++◌, Result, ok,
  err, Exec, pure, ◌>>=◌, ⊤,
}
use shippy.User.{User}

-- The row with an email, which is unique.
unfoldable pub find_email : String → List User → Option User
find_email email [] = none
find_email email (u ∷ us) = if u.email == email then some u else find_email email us

abbrev pub Inserted : User → List User → List User → Result ⊤ → Type 0
Inserted u before after (ok _) = (find_email u.email before ≡ none) × (after ≡ before ++ u ∷ [])
Inserted u before after (err _) = (after ≡ before) ⊎ (after ≡ before ++ u ∷ [])

-- The table `users` of sql/init.sql, whose ids and emails are unique, and `uuid.NewV4`.
pub record Database : Type 1 where
  pub State : Type 0
  pub users : State → List User
  pub select_users : Exec State (List User)
  pub select_by_id : String → Exec State User
  pub select_by_email : String → Exec State User
  pub insert_user : User → Exec State ⊤
  pub uuid : State → String
  pub uuid_lem : (s : State) → uuid s ≢ ""
  pub select_by_email_lem :
      (email : String) (s : State)
      → (users (select_by_email email s).1 ≡ users s)
        × ((u : User) → (select_by_email email s).0 ≡ ok u → find_email email (users s) ≡ some u)
  pub insert_user_lem :
      (u : User) (s : State) → Inserted u (users s) (users (insert_user u s).1) (insert_user u s).0

module _ (db : Database) where
  abbrev pub get_all : Exec db.State (List User)
  get_all = db.select_users

  abbrev pub get : String → Exec db.State User
  get id = db.select_by_id id

  abbrev pub get_by_email : String → Exec db.State User
  get_by_email email = db.select_by_email email

  -- The result is the user as the call leaves it behind its pointer.
  unfoldable pub create : User → Exec db.State User
  create u s = let u' : User = record u { id = db.uuid s } in (db.insert_user u' >>= λ _. pure u') s
