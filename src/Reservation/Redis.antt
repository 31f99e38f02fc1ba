-- ===== src/Reservation/Redis.antt =====
-- The part of the client of Redis and of encoding/json that the cache calls
-- (cmd/reservation-service/storage/redis/redis.go calls them), with what they document.
use shippy.Prelude.{
  ℕ, suc, ℤ, String, Bool, Option, none, some, ◌≡◌, ◌≢◌, List, ◌++◌, Result, ok, Exec, ⊤,
}
use shippy.Reservation.{ReservationInfo}

-- The number of keys that `DEL` of one key removes.
abbrev pub removed : Option String → ℕ
removed none = 0
removed (some v) = 1

-- `content s key`: the value of a key that is there.
pub record Redis : Type 1 where
  pub State : Type 0
  pub content : State → String → Option String
  pub set : (key value : String) (ttl : ℤ) → Exec State ⊤
  pub get : String → Exec State String
  pub del : String → Exec State ℕ
  pub expire : (key : String) (ttl : ℤ) → Exec State Bool
  pub scan : (cursor : ℕ) (pattern : String) → Exec State (List String × ℕ)
  pub mget : List String → Exec State (List (Option String))
  pub set_lem :
      (key value : String) (ttl : ℤ) (s : State)
      → (set key value ttl s).0 ≡ ok tt
      → content (set key value ttl s).1 key ≡ some value
  pub get_lem :
      (key value : String) (s : State)
      → content s key ≡ some value
      → (v : String) → (get key s).0 ≡ ok v
      → v ≡ value
  pub get-content : (key other : String) (s : State) → content (get key s).1 other ≡ content s other
  pub del_lem :
      (key : String) (s : State) (n : ℕ)
      → (del key s).0 ≡ ok n
      → (n ≡ removed (content s key)) × (content (del key s).1 key ≡ none)
  pub del-other :
      (key other : String) (s : State) → key ≢ other → content (del key s).1 other ≡ content s other
  -- These three put no key there, whatever they answer.
  pub del-none :
      (key other : String) (s : State) → content s other ≡ none → content (del key s).1 other ≡ none
  pub scan-none :
      (cursor : ℕ) (pattern other : String) (s : State)
      → content s other ≡ none
      → content (scan cursor pattern s).1 other ≡ none
  pub mget-none :
      (keys : List String) (other : String) (s : State)
      → content s other ≡ none
      → content (mget keys s).1 other ≡ none

-- `json.Marshal` and `json.Unmarshal` of a reservation.
pub record Json : Type 0 where
  pub marshal : ReservationInfo → Result String
  pub unmarshal : String → Result ReservationInfo
  pub unmarshal-marshal : (r : ReservationInfo) (v : String) → marshal r ≡ ok v → unmarshal v ≡ ok r

-- An iteration of `SCAN` in `n` calls, from a cursor to the end: the batches and the last state.
-- Redis promises that an iteration ends.
pub data Scans (redis : Redis) (pattern : String)
    : ℕ → ℕ → redis.State → List String → redis.State → Type 0 where
  last :
      {cursor : ℕ} {s t : redis.State} {batch : List String}
      → redis.scan cursor pattern s ≡ (ok (batch, 0), t)
      → Scans redis pattern 1 cursor s batch t
  more :
      {n cursor next : ℕ} {s t u : redis.State} {batch rest : List String}
      → redis.scan cursor pattern s ≡ (ok (batch, suc next), t)
      → Scans redis pattern n (suc next) t rest u
      → Scans redis pattern (suc n) cursor s (batch ++ rest) u
