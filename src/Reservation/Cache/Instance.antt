-- ===== src/Reservation/Cache/Instance.antt =====
-- The cache on Redis keeps what the manager and the server rely on
-- (cmd/reservation-service/storage/redis/redis.go as the `ReservationCache` of
-- cmd/reservation-service/storage/interfaces.go).
use shippy.Prelude.{
  ℕ, zero, suc, List, [], ◌∷◌, ◌++◌, Exec, pure, with_text, ℤ, String, Bool, true, false, Option,
  none, some, ◌≡◌, refl, sym, ◌∙◌, ap, ok, Result-cases, ok_eq, inr, inl,
}
use shippy.Reservation.{ReservationInfo, ReservationCache}
use shippy.Reservation.Redis.{Redis, Json, removed}
use shippy.Prelude.Keeps.{Keeps, Keeps-bind, Keeps-with_text}
use shippy.Reservation.Cache.{
  id_key, data_key, is_one, store, get_data, scan_keys, read_expired, get_expired, refresh,
  delete_data, delete_id,
}
use shippy.Reservation.Cache.Keys.{id_key-ne-data_key}

abbrev pub is_some : Option String → Bool
is_some none = false
is_some (some v) = true

is_some-none : (o : Option String) → is_some o ≡ false → o ≡ none
is_some-none none h = refl
is_some-none (some v) h = cc

is_one-removed : (o : Option String) → is_one (removed o) ≡ is_some o
is_one-removed none = refl
is_one-removed (some v) = refl

module _ (redis : Redis) (json : Json) (reservation_ttl reservation_data_ttl : ℤ) where
  abbrev pub has_data : redis.State → String → Bool
  has_data s id = is_some (redis.content s (data_key id))

  store-content :
      (id : String) (r : ReservationInfo) (s : redis.State)
      → let t = store redis json reservation_ttl reservation_data_ttl id r s in
        t.0 ≡ ok tt
        → (v : String) × (json.marshal r ≡ ok v) × (redis.content t.1 (data_key id) ≡ some v)
  unfolding store
  store-content id r s h = elim (Result-cases (redis.set (id_key id) "" reservation_ttl s).0) [
    | inr (e, p) ↦ let h' = rw p at h in cc
    | inl (a, p) ↦ elim (Result-cases (json.marshal r)) [
      | inr (e, q) ↦ let h' = rw (p, q) at h in cc
      | inl (v, q) ↦
          let s1 : redis.State = (redis.set (id_key id) "" reservation_ttl s).1 in
          elim (Result-cases (redis.set (data_key id) v reservation_data_ttl s1).0) [
            | inr (e, w) ↦ let h' = rw (p, q, w) at h in cc
            | inl (b, w) ↦
                rw (p, q, w) (v, refl, redis.set_lem (data_key id) v reservation_data_ttl s1 w)
          ]
    ]
  ]

  pub store-has_data :
      (id : String) (r : ReservationInfo) (s : redis.State)
      → let t = store redis json reservation_ttl reservation_data_ttl id r s in
        t.0 ≡ ok tt → has_data t.1 id ≡ true
  store-has_data id r s h = let (v, _, there) = store-content id r s h in ap is_some there

  pub delete_data_lem :
      (id : String) (s : redis.State) (b : Bool)
      → let t = delete_data redis json reservation_ttl reservation_data_ttl id s in
        t.0 ≡ ok b → (b ≡ has_data s id) × (has_data t.1 id ≡ false)
  unfolding delete_data
  delete_data_lem id s b h = elim (Result-cases (redis.del (data_key id) s).0) [
    | inr (e, p) ↦ let h' = rw p at h in cc
    | inl (n, p) ↦
        let (count, gone) = redis.del_lem (data_key id) s n p in
        let same : is_one n ≡ b = ok_eq (rw p at h) in
        rw p (
          sym same ∙ ap is_one count ∙ is_one-removed (redis.content s (data_key id)),
          ap is_some gone,
        )
  ]

  pub has_data-delete_id :
      (id j : String) (s : redis.State)
      → has_data (delete_id redis json reservation_ttl reservation_data_ttl id s).1 j ≡ has_data s j
  unfolding delete_id
  has_data-delete_id id j s =
      let same =
        ap is_some (redis.del-other (id_key id) (data_key j) s (id_key-ne-data_key id j)) in
      elim (Result-cases (redis.del (id_key id) s).0) [
        | inr (e, p) ↦ rw p same
        | inl (n, p) ↦ rw p same
      ]

  pub delete_data-gone :
      (id j : String) (s : redis.State)
      → has_data s j ≡ false
      → has_data (delete_data redis json reservation_ttl reservation_data_ttl id s).1 j ≡ false
  unfolding delete_data
  delete_data-gone id j s h =
      let gone = ap is_some (redis.del-none (data_key id) (data_key j) s (is_some-none _ h)) in
      elim (Result-cases (redis.del (data_key id) s).0) [
        | inr (e, p) ↦ rw p gone
        | inl (n, p) ↦ rw p gone
      ]

  -- No key is there that was not.
  module _ (key : String) where
    abbrev IsNone : redis.State → Type 0
    IsNone s = redis.content s key ≡ none

    scan_keys-IsNone :
        (n : ℕ) (pattern : String) (cursor : ℕ) (keys : List String)
        → Keeps IsNone
            (scan_keys redis json reservation_ttl reservation_data_ttl n pattern cursor keys)
    unfolding scan_keys
    scan_keys-IsNone zero pattern cursor keys = λ s p. p
    scan_keys-IsNone (suc n) pattern cursor keys =
        Keeps-bind IsNone (redis.scan cursor pattern) _
          (λ s p. redis.scan-none cursor pattern key s p)
          (λ page.
            by_cursor page.1 (keys ++ page.0)
              (scan_keys redis json reservation_ttl reservation_data_ttl n pattern page.1
                (keys ++ page.0))
              (scan_keys-IsNone n pattern page.1 (keys ++ page.0)))
      where
        by_cursor :
            (next : ℕ) (all : List String) (rest : Exec redis.State (List String))
            → Keeps IsNone rest
            → Keeps IsNone (elim next [ zero ↦ pure all | suc c ↦ rest ])
        by_cursor zero all rest k = λ s p. p
        by_cursor (suc c) all rest k = k

    read_expired-IsNone :
        (id_keys data_keys : List String)
        → Keeps IsNone
            (read_expired redis json reservation_ttl reservation_data_ttl id_keys data_keys)
    unfolding read_expired
    read_expired-IsNone id_keys [] = λ s p. p
    read_expired-IsNone id_keys (k ∷ data_keys) =
        Keeps-bind IsNone (with_text "failed to mget reservation data" (redis.mget (k ∷ data_keys)))
          _
          (Keeps-with_text IsNone "failed to mget reservation data" (redis.mget (k ∷ data_keys))
            (λ s p. redis.mget-none (k ∷ data_keys) key s p))
          (λ values s p. p)

  pub get_expired-gone :
      (f g : ℕ) (j : String) (s : redis.State)
      → has_data s j ≡ false
      → has_data (get_expired redis json reservation_ttl reservation_data_ttl f g s).1 j ≡ false
  unfolding get_expired
  get_expired-gone f g j s h =
      let P : redis.State → Type 0 = IsNone (data_key j) in
      ap is_some (
        Keeps-bind P
          (scan_keys redis json reservation_ttl reservation_data_ttl f "reservation:*" 0 []) _
          (scan_keys-IsNone (data_key j) f "reservation:*" 0 [])
          (λ id_keys.
            Keeps-bind P
              (scan_keys redis json reservation_ttl reservation_data_ttl g "reservation_data:*" 0
                [])
              _ (scan_keys-IsNone (data_key j) g "reservation_data:*" 0 [])
              (λ data_keys. read_expired-IsNone (data_key j) id_keys data_keys))
          s (is_some-none _ h))

  -- The cache of the service, with the fuel of its two iterations.
  abbrev pub redis_cache : ℕ → ℕ → ReservationCache
  redis_cache f g = record {
    State = redis.State;
    has_data = has_data;
    store = store redis json reservation_ttl reservation_data_ttl;
    get_data = get_data redis json reservation_ttl reservation_data_ttl;
    get_expired = get_expired redis json reservation_ttl reservation_data_ttl f g;
    delete_data = delete_data redis json reservation_ttl reservation_data_ttl;
    delete_id = delete_id redis json reservation_ttl reservation_data_ttl;
    refresh = refresh redis json reservation_ttl reservation_data_ttl;
    store_lem = store-has_data;
    delete_data_lem = delete_data_lem;
    has_data-delete_id = has_data-delete_id;
    delete_data-gone = delete_data-gone;
    get_expired-gone = get_expired-gone f g;
  }

  -- What was stored is read back, if it can be read at all.
  pub get_data-store :
      (id : String) (r r' : ReservationInfo) (s : redis.State)
      → let t = store redis json reservation_ttl reservation_data_ttl id r s in
        t.0 ≡ ok tt
        → (get_data redis json reservation_ttl reservation_data_ttl id t.1).0 ≡ ok r'
        → r' ≡ r
  unfolding get_data
  get_data-store id r r' s h read =
      let t : redis.State = (store redis json reservation_ttl reservation_data_ttl id r s).1 in
      let (v, written, there) = store-content id r s h in
      elim (Result-cases (redis.get (data_key id) t).0) [
        | inr (e, p) ↦ let read' = rw p at read in cc
        | inl (w, p) ↦
            let same : w ≡ v = redis.get_lem (data_key id) v t there w p in
            let back : json.unmarshal w ≡ ok r =
              ap json.unmarshal same ∙ json.unmarshal-marshal r v written in
            let read' = rw (p, back) at read in sym (ok_eq read')
      ]

  -- Of two deletions of the data of one reservation that both answer, the first says whether the data
  -- was there, and the second says that it is not: only one caller of `DeleteData` goes on.
  pub deleted_once :
      (id : String) (s : redis.State) (b b' : Bool)
      → let t = delete_data redis json reservation_ttl reservation_data_ttl id s in
        t.0 ≡ ok b
        → (delete_data redis json reservation_ttl reservation_data_ttl id t.1).0 ≡ ok b'
        → (b ≡ has_data s id) × (b' ≡ false)
  deleted_once id s b b' h h' =
      let t : redis.State = (delete_data redis json reservation_ttl reservation_data_ttl id s).1 in
      let (there, gone) = delete_data_lem id s b h in
      let (later, _) = delete_data_lem id t b' h' in (there, later ∙ gone)
