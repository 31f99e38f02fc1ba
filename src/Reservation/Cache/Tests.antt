-- ===== src/Reservation/Cache/Tests.antt =====
-- The cache on a store of keys in memory.
use shippy.Prelude.{
  ℕ, zero, suc, pos, String, Bool, true, false, Option, none, some, if◌then◌else◌, ◌==◌, eq_iff,
  arith, ◌≡◌, refl, sym, List, [], ◌∷◌, map, ◌↔◌, Result, ok, err, errorf, redis_nil, ok_eq,
}
use shippy.Prelude.Collection.{Any}
use shippy.Reservation.{ReservationInfo}
use shippy.Reservation.Redis.{Redis, Json, removed, last, more}
use shippy.Reservation.Cache.{trim_id, is_active, expired_of, scan_keys, read_expired, get_expired}
use shippy.Reservation.Cache.Scanning.{Expired, get_expired_lem}

-- The keys, and what the iterations list, the data keys in two batches.
record Store : Type 0 where
  pub content : String → Option String
  pub id_keys : List String
  pub data_keys : List String

abbrev with_value : String → Option String → Store → Store
with_value key value s = record s { content = λ k. if k == key then value else s.content k }

abbrev read : Option String → Result String
read none = err redis_nil
read (some v) = ok v

abbrev page : ℕ → Bool → Store → List String × ℕ
page cursor true s = (s.id_keys, 0)
page zero false s = ([], 1)
page (suc c) false s = (s.data_keys, 0)

read-some : (o : Option String) (value v : String) → o ≡ some value → read o ≡ ok v → v ≡ value
read-some none value v p h = cc
read-some (some w) value v p h = let e = ok_eq h in cc

abbrev redis : Redis
redis = record {
  State = Store;
  content = λ s key. s.content key;
  set = λ key value ttl s. (ok tt, with_value key (some value) s);
  get = λ key s. (read (s.content key), s);
  del = λ key s. (ok (removed (s.content key)), with_value key none s);
  expire = λ key ttl s. (ok true, s);
  scan = λ cursor pattern s. (ok (page cursor (pattern == "reservation:*") s), s);
  mget = λ keys s. (ok (map s.content keys), s);
  set_lem = λ key value ttl s h. ground (arith, eq_iff key key);
  get_lem = λ key value s p v h. read-some (s.content key) value v p h;
  get-content = λ key other s. refl;
  del_lem = λ key s n h. (sym (ok_eq h), ground (arith, eq_iff key key));
  del-none = λ key other s h. ground arith;
  scan-none = λ cursor pattern other s h. h;
  mget-none = λ keys other s h. h;
  del-other = λ key other s h. ground (arith, eq_iff other key);
}

abbrev first : ReservationInfo
first = record {
  id = "r1";
  vessel_id = "v1";
  consignment_id = "c1";
  number_of_containers = pos 4;
  weight = pos 40;
}

abbrev second : ReservationInfo
second = record first { id = "r2" }

abbrev parse : String → Result ReservationInfo
parse v =
    if v == "first" then ok first else if v == "second" then ok second else err (errorf "invalid")

-- An encoding of one reservation.
abbrev json : Json
json = record {
  marshal = λ r. err (errorf "unsupported");
  unmarshal = parse;
  unmarshal-marshal = λ r v h. cc;
}

abbrev start : Store
start = record {
  content = λ k.
      if k == "reservation_data:r1"
      then some "first"
      else if k == "reservation_data:r2"
      then some "second"
      else none;
  id_keys = "reservation:r1" ∷ [];
  data_keys = "reservation_data:r1" ∷ "reservation_data:r2" ∷ "reservation_data:r3" ∷ [];
}

-- The second reservation has no id key, and the data of the third has gone.
second_expired : (get_expired redis json (pos 600) (pos 1200) 1 2 start).0 ≡ ok (second ∷ [])
unfolding get_expired scan_keys read_expired expired_of is_active trim_id
second_expired = refl

get_expired_lem_example :
    (expired : List ReservationInfo) × ((get_expired redis json (pos 600) (pos 1200) 1 2 start).0
      ≡ ok expired)
    × ((r : ReservationInfo)
        → Any (λ x. x ≡ r) expired
          ↔ Any
              (Expired json (map trim_id ("reservation:r1" ∷ [])) r)
              (some "first" ∷ some "second" ∷ none ∷ []))
get_expired_lem_example =
    get_expired_lem redis json (pos 600) (pos 1200) 1 2 (some "first" ∷ some "second" ∷ none ∷ [])
      (last refl) (more refl (last refl)) (omega arith) (omega arith) refl
