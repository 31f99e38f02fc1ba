-- ===== src/Reservation/Cache/Scanning.antt =====
-- The keys that the loops of `SCAN` read, and the reservations that count as expired (GetExpired of
-- cmd/reservation-service/storage/redis/redis.go).
use shippy.Prelude.{
  ℕ, zero, suc, ◌≤◌, ℤ, String, Bool-cases, false, Option, none, some, List, [], ◌∷◌, ◌++◌, map,
  ◌≡◌, refl, ◌∙◌, ap, subst, ◌↔◌, inl, inr, arith, ok, Result-cases,
}
use mathlib.Core.List.{append_assoc}
use shippy.Prelude.Collection.{Any}
use shippy.Reservation.{ReservationInfo}
use shippy.Reservation.Redis.{Redis, Json, Scans, last, more}
use shippy.Reservation.Cache.{trim_id, is_active, expired_of, scan_keys, read_expired, get_expired}

-- A value that was read stands for an expired reservation.
abbrev pub Expired : Json → List String → ReservationInfo → Option String → Type 0
Expired json active r value =
    (v : String) × (value ≡ some v) × (json.unmarshal v ≡ ok r) × (is_active active r.id ≡ false)

module _ (json : Json) (active : List String) where
  pub expired_of-Any :
      (values : List (Option String)) (r : ReservationInfo)
      → Any (λ x. x ≡ r) (expired_of json active values)
      → Any (Expired json active r) values
  unfolding expired_of
  expired_of-Any [] r h = elim h [ ]
  expired_of-Any (none ∷ values) r h = inr (expired_of-Any values r h)
  expired_of-Any (some v ∷ values) r h = elim (Result-cases (json.unmarshal v)) [
    | inr (e, p) ↦ inr (expired_of-Any values r (rw (p, expired_of) at h))
    | inl (x, p) ↦ elim (Bool-cases (is_active active x.id)) [
      | inl q ↦ inr (expired_of-Any values r (rw (p, q, expired_of) at h))
      | inr q ↦ elim (rw (p, q, expired_of) at h) [
        | inl same ↦
            inl (v, refl, p ∙ ap ok same, subst (λ y. is_active active y.id ≡ false) same q)
        | inr rest ↦ inr (expired_of-Any values r rest)
      ]
    ]
  ]

  pub Any-expired_of :
      (values : List (Option String)) (r : ReservationInfo)
      → Any (Expired json active r) values
      → Any (λ x. x ≡ r) (expired_of json active values)
  unfolding expired_of
  Any-expired_of [] r h = elim h [ ]
  Any-expired_of (none ∷ values) r (inl (v, e, _, _)) = cc
  Any-expired_of (none ∷ values) r (inr h) = Any-expired_of values r h
  Any-expired_of (some v ∷ values) r (inl (w, same, read, inactive)) =
      let here : v ≡ w = cc in rw (ap json.unmarshal here ∙ read, inactive, expired_of) (inl refl)
  Any-expired_of (some v ∷ values) r (inr h) =
      let ih = Any-expired_of values r h in
      elim (Result-cases (json.unmarshal v)) [
        | inr (e, p) ↦ rw (p, expired_of) ih
        | inl (x, p) ↦ elim (Bool-cases (is_active active x.id)) [
          | inl q ↦ rw (p, q, expired_of) ih
          | inr q ↦ rw (p, q, expired_of) (inr ih)
        ]
      ]

module _ (redis : Redis) (json : Json) (reservation_ttl reservation_data_ttl : ℤ) where
  scan_keys-Scans :
      (pattern : String) {n cursor : ℕ} {s t : redis.State} {keys : List String}
      → Scans redis pattern n cursor s keys t
      → (f : ℕ) (acc : List String) → n ≤ f
      → scan_keys redis json reservation_ttl reservation_data_ttl f pattern cursor acc s
        ≡ (ok (acc ++ keys), t)
  unfolding scan_keys
  scan_keys-Scans pattern (last e) zero acc h = absurd (omega arith)
  scan_keys-Scans pattern (last e) (suc f) acc h = rw e
  scan_keys-Scans pattern (more {n = n} e rest) zero acc h = absurd (omega arith)
  scan_keys-Scans pattern (more {n = n} {u = u} {batch = batch} {rest = keys} e rest) (suc f) acc
        h =
      let ih = scan_keys-Scans pattern rest f (acc ++ batch) (omega arith) in
      rw e (ih ∙ ap (λ l. (ok l, u)) (append_assoc acc batch keys))

  -- With the fuel of two whole iterations the keys are all read, and the answer has exactly the
  -- reservations of the values read whose id was not among the id keys of the first iteration. (So a
  -- reservation that is stored after that iteration, and found by the second one, counts as expired.)
  pub get_expired_lem :
      (f g : ℕ) {n m : ℕ} {s s1 s2 : redis.State} {id_keys data_keys : List String} {k : String}
      (values : List (Option String))
      → Scans redis "reservation:*" n 0 s id_keys s1
      → Scans redis "reservation_data:*" m 0 s1 (k ∷ data_keys) s2
      → n ≤ f
      → m ≤ g
      → (redis.mget (k ∷ data_keys) s2).0 ≡ ok values
      → (expired : List ReservationInfo) × ((get_expired redis json reservation_ttl
            reservation_data_ttl f g s).0
          ≡ ok expired)
        × ((r : ReservationInfo)
            → Any (λ x. x ≡ r) expired ↔ Any (Expired json (map trim_id id_keys) r) values)
  unfolding get_expired read_expired
  get_expired_lem f g {id_keys = id_keys} values ids datas hn hm read =
      let active : List String = map trim_id id_keys in
      rw
        (
          scan_keys-Scans "reservation:*" ids f [] hn,
          scan_keys-Scans "reservation_data:*" datas g [] hm,
          read,
        )
        (
          expired_of json active values,
          refl,
          λ r. (expired_of-Any json active values r, Any-expired_of json active values r),
        )
