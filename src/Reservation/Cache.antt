-- ===== src/Reservation/Cache.antt =====
-- The cache of reservations on Redis (cmd/reservation-service/storage/redis/redis.go). NewCache makes
-- a client and is left out.
pub mod Keys
pub mod Scanning
pub mod Instance
mod Tests
use Prim.Native.String.{◌++◌ as ◌+++◌, len, slice}
use text.Mathlib.Text.{starts_with}
use shippy.Prelude.{
  ℕ, zero, suc, ℤ, String, Bool, true, false, Option, none, some, if◌then◌else◌, List, [], ◌∷◌,
  ◌++◌, map, ◌==◌, Error, errorf, wrap, is_redis_nil, Result, ok, err, ⊤, Exec, pure, raise, lift,
  on_error, with_text, ◌>>=◌, ◌>>◌,
}
use shippy.Reservation.{ReservationInfo, ReservationCache}
use shippy.Reservation.Redis.{Redis, Json}

abbrev pub id_prefix : String
id_prefix = "reservation:"

abbrev pub data_prefix : String
data_prefix = "reservation_data:"

-- `fmt.Sprintf(reservationKeyNameSpaceFmt, id)`
unfoldable pub id_key : String → String
id_key id = id_prefix +++ id

unfoldable pub data_key : String → String
data_key id = data_prefix +++ id

-- `strings.TrimPrefix(key, "reservation:")`
unfoldable pub trim_id : String → String
trim_id key = if starts_with key id_prefix then slice key (len id_prefix) (len key) else key

-- The set of the active ids, as a list.
unfoldable pub is_active : List String → String → Bool
is_active [] id = false
is_active (a ∷ active) id = if a == id then true else is_active active id

-- The text for a value that could not be read.
abbrev pub get_text : Error → String
get_text e = if is_redis_nil e then "reservation not found" else "failed to get reservation"

abbrev pub is_one : ℕ → Bool
is_one (suc zero) = true
is_one _ = false

module _ (json : Json) where
  -- The loop over the values, for the set of active ids. Keys that are gone and values that cannot
  -- be read are skipped.
  unfoldable pub expired_of : List String → List (Option String) → List ReservationInfo
  expired_of active [] = []
  expired_of active (none ∷ values) = expired_of active values
  expired_of active (some v ∷ values) =
      let rest = expired_of active values in
      elim (json.unmarshal v) [
        | err e ↦ rest
        | ok r ↦ if is_active active r.id then rest else r ∷ rest
      ]

module _ (redis : Redis) (json : Json) (reservation_ttl reservation_data_ttl : ℤ) where
  unfoldable pub store : String → ReservationInfo → Exec redis.State ⊤
  store id r = do
    with_text "failed to set price" (redis.set (id_key id) "" reservation_ttl)
    data_text ← with_text "failed to marshal reservation" (lift (json.marshal r))
    with_text "failed to set reservation data"
        (redis.set (data_key id) data_text reservation_data_ttl)

  unfoldable pub get_data : String → Exec redis.State ReservationInfo
  get_data id = do
    value ← on_error (redis.get (data_key id)) (λ e. raise (wrap (get_text e) e)) pure
    with_text "failed to unmarshal reservation" (lift (json.unmarshal value))

  -- The loop of `SCAN`, with fuel: `n` calls at most.
  unfoldable pub scan_keys : ℕ → String → ℕ → List String → Exec redis.State (List String)
  scan_keys zero pattern cursor keys = raise (errorf "out of fuel")
  scan_keys (suc n) pattern cursor keys = redis.scan cursor pattern >>= λ page.
      let rest = scan_keys n pattern page.1 (keys ++ page.0) in
      elim page.1 [ zero ↦ pure (keys ++ page.0) | suc c ↦ rest ]

  -- `GetExpired` after the keys have been read.
  unfoldable pub read_expired : List String → List String → Exec redis.State (List ReservationInfo)
  read_expired id_keys [] = pure []
  read_expired id_keys (k ∷ data_keys) =
      with_text "failed to mget reservation data" (redis.mget (k ∷ data_keys)) >>= λ values.
      pure (expired_of json (map trim_id id_keys) values)

  -- The fuel of the two iterations.
  unfoldable pub get_expired : ℕ → ℕ → Exec redis.State (List ReservationInfo)
  get_expired n m = do
    id_keys ← scan_keys n "reservation:*" 0 []
    data_keys ← scan_keys m "reservation_data:*" 0 []
    read_expired id_keys data_keys

  unfoldable pub refresh : String → Exec redis.State Bool
  refresh id =
      with_text "failed to refresh reservation TTL" (redis.expire (id_key id) reservation_ttl)

  unfoldable pub delete_data : String → Exec redis.State Bool
  delete_data id =
      with_text "failed to delete reservation data" (redis.del (data_key id)) >>= λ deleted.
      pure (is_one deleted)

  unfoldable pub delete_id : String → Exec redis.State Bool
  delete_id id = with_text "failed to delete reservation id" (redis.del (id_key id)) >>= λ deleted.
      pure (is_one deleted)
