-- ===== src/Reservation/Manager/Table.antt =====
-- The table of handlers that `New` of the managers makes, and the cleanup of expired reservations
-- (cmd/reservation-service/manager/manager.go).
use shippy.Prelude.{
  String, Bool, Option-cases, true, false, Option, none, some, List, [], ◌∷◌, ◌++◌, ◌≡◌, refl, sym,
  ap, subst, inl, inr, ◌==◌, eq_iff, ◌&&◌, ◌||◌, if◌then◌else◌, arith, Result, ok, err, is_ok, ⊤,
  Exec, Result-cases, ok_eq, to_int32,
}
use shippy.Prelude.Dict.{Dict, lookup, insert, lookup-insert}
use shippy.Prelude.Backoff.{Backoff}
use shippy.Events.{Wire, ReservationExpiredEvent, reservation_expired_topic}
use shippy.Outbox.{OutboxEvent, OutboxRepository, IsPending, Created}
use shippy.Reservation.{ReservationInfo, ReservationCache, VesselClient}
use shippy.Reservation.Manager.{Manager, publish_reservation_expired}
use shippy.Reservation.Manager.Handlers.{active_handlers, publish_expired, release_reservations}

abbrev pub contains : List String → String → Bool
contains [] t = false
contains (x ∷ xs) t = x == t || contains xs t

abbrev pub has_handler {ℓ} : {H : Type ℓ} → Option H → Bool
has_handler none = false
has_handler (some _) = true

abbrev pub all_known {ℓ} : {H : Type ℓ} → Dict H → List String → Bool
all_known handlers [] = true
all_known handlers (t ∷ ts) = has_handler (lookup t handlers) && all_known handlers ts

module _ {ℓ} {H : Type ℓ} (handlers : Dict H) where
  active_handlers-known :
      (topics : List String) (active : Dict H)
      → is_ok (active_handlers handlers topics active) ≡ all_known handlers topics
  unfolding active_handlers
  active_handlers-known [] active = refl
  active_handlers-known (t ∷ ts) active = elim (Option-cases (lookup t handlers)) [
    | inl p ↦ rw (p, has_handler, active_handlers)
    | inr (h, p) ↦
        rw (p, has_handler, active_handlers) (active_handlers-known ts (insert t h active))
  ]

  active_handlers-lookup :
      (topics : List String) (active table : Dict H) (t : String)
      → active_handlers handlers topics active ≡ ok table
      → lookup t table ≡ (if contains topics t then lookup t handlers else lookup t active)
  unfolding active_handlers
  active_handlers-lookup [] active table t h = ap (lookup t) (sym (ok_eq h))
  active_handlers-lookup (x ∷ xs) active table t h = elim (Option-cases (lookup x handlers)) [
    | inl p ↦ cc (rw (p, active_handlers) at h)
    | inr (f, p) ↦
        let ih =
          active_handlers-lookup xs (insert x f active) table t (rw (p, active_handlers) at h) in
        ground (arith, ih, lookup-insert x t f active, eq_iff x t, p)
  ]

  -- A manager is made exactly if every topic that it is given has a handler; then each of these
  -- topics has its own handler in the table, and no other topic has one.
  pub active_handlers_lem :
      (topics : List String)
      → (is_ok (active_handlers handlers topics []) ≡ all_known handlers topics)
        × ((table : Dict H) (t : String)
            → active_handlers handlers topics [] ≡ ok table
            → lookup t table ≡ (if contains topics t then lookup t handlers else none))
  unfolding lookup
  active_handlers_lem topics =
      (active_handlers-known topics [], λ table t h. active_handlers-lookup topics [] table t h)

module _ (wire : Wire) (cache : ReservationCache) (outbox : OutboxRepository wire.Bytes)
    (vessel_cli : VesselClient) (backoff : Backoff) where
  abbrev World : Type 0
  World = Manager wire cache outbox vessel_cli backoff

  abbrev rows : World → List (OutboxEvent wire.Bytes)
  rows w = outbox.rows w.outbox

  IsPending-append :
      (topic key : String) (es fs : List (OutboxEvent wire.Bytes))
      → IsPending topic key es
      → IsPending topic key (es ++ fs)
  IsPending-append topic key (e ∷ es) fs (inl h) = inl h
  IsPending-append topic key (e ∷ es) fs (inr h) = inr (IsPending-append topic key es fs h)
  IsPending-append topic key [] fs h = absurd h

  IsPending-last :
      (e : OutboxEvent wire.Bytes) (es : List (OutboxEvent wire.Bytes))
      → IsPending e.topic e.key (es ++ e ∷ [])
  IsPending-last e [] = inl (refl, refl)
  IsPending-last e (x ∷ es) = inr (IsPending-last e es)

  -- A pending row stays, whatever the insert returns.
  Created-keeps :
      (e : OutboxEvent wire.Bytes) (es fs : List (OutboxEvent wire.Bytes)) (r : Result ⊤)
      (topic key : String)
      → Created e es fs r
      → IsPending topic key es
      → IsPending topic key fs
  Created-keeps e es fs (ok _) topic key (inl h) p =
      subst (IsPending topic key) (sym h) (IsPending-append topic key es (e ∷ []) p)
  Created-keeps e es fs (ok _) topic key (inr h) p = subst (IsPending topic key) (sym h.0) p
  Created-keeps e es fs (err _) topic key (inl h) p = subst (IsPending topic key) (sym h) p
  Created-keeps e es fs (err _) topic key (inr h) p =
      subst (IsPending topic key) (sym h) (IsPending-append topic key es (e ∷ []) p)

  Created-IsPending :
      (e : OutboxEvent wire.Bytes) (es fs : List (OutboxEvent wire.Bytes)) (r : Result ⊤)
      → is_ok r ≡ true
      → Created e es fs r
      → IsPending e.topic e.key fs
  Created-IsPending e es fs (ok _) h (inl p) =
      subst (IsPending e.topic e.key) (sym p) (IsPending-last e es)
  Created-IsPending e es fs (ok _) h (inr p) = subst (IsPending e.topic e.key) (sym p.0) p.1
  Created-IsPending e es fs (err _) h p = cc

  abbrev publish : ReservationInfo → Exec World ⊤
  publish = publish_reservation_expired wire cache outbox vessel_cli backoff

  -- The message of an expired reservation.
  abbrev expired_message : ReservationInfo → ReservationExpiredEvent
  expired_message r = record {
    reservation_id = r.id;
    vessel_id = r.vessel_id;
    consignment_id = r.consignment_id;
    weight = to_int32 r.weight;
    containers = to_int32 r.number_of_containers;
  }

  publish-keeps :
      (r : ReservationInfo) (w : World) (topic key : String)
      → IsPending topic key (rows w)
      → IsPending topic key (rows (publish r w).1)
  unfolding publish_reservation_expired
  publish-keeps r w topic key p =
      elim (Result-cases (wire.reservation_expired.marshal (expired_message r))) [
        | inr (x, q) ↦ rw q p
        | inl (payload, q) ↦
            let e : OutboxEvent wire.Bytes = record {
              topic = reservation_expired_topic;
              key = r.id;
              payload = payload;
            } in
            rw q (Created-keeps e (rows w) _ _ topic key (outbox.create_event_lem e w.outbox) p)
      ]

  publish-IsPending :
      (r : ReservationInfo) (w : World)
      → is_ok (publish r w).0 ≡ true
      → IsPending reservation_expired_topic r.id (rows (publish r w).1)
  unfolding publish_reservation_expired
  publish-IsPending r w h =
      elim (Result-cases (wire.reservation_expired.marshal (expired_message r))) [
        | inr (x, q) ↦ cc (rw q at h)
        | inl (payload, q) ↦
            let e : OutboxEvent wire.Bytes = record {
              topic = reservation_expired_topic;
              key = r.id;
              payload = payload;
            } in
            rw q (Created-IsPending e (rows w) _ _ (rw q at h) (outbox.create_event_lem e w.outbox))
      ]

  publish_expired-keeps :
      (rs : List ReservationInfo) (w : World) (topic key : String)
      → IsPending topic key (rows w)
      → IsPending topic key (rows (publish_expired wire cache outbox vessel_cli backoff rs w).1)
  unfolding publish_expired
  publish_expired-keeps [] w topic key p = p
  publish_expired-keeps (r ∷ rs) w topic key p =
      publish_expired-keeps rs (publish r w).1 topic key (publish-keeps r w topic key p)

  publish_expired-ok :
      (rs : List ReservationInfo) (w : World)
      → (publish_expired wire cache outbox vessel_cli backoff rs w).0 ≡ ok tt
  unfolding publish_expired
  publish_expired-ok [] w = refl
  publish_expired-ok (r ∷ rs) w = publish_expired-ok rs (publish r w).1

  -- The publications of the loop that succeeded, each in the state that the ones before it left.
  abbrev pub Announced : List ReservationInfo → World → World → Type 0
  Announced [] w w' = Unit
  Announced (r ∷ rs) w w' =
      (is_ok (publish r w).0 ≡ true → IsPending reservation_expired_topic r.id (rows w'))
      × Announced rs (publish r w).1 w'

  publish_expired-Announced :
      (rs : List ReservationInfo) (w : World)
      → Announced rs w (publish_expired wire cache outbox vessel_cli backoff rs w).1
  unfolding publish_expired
  publish_expired-Announced [] w = tt
  publish_expired-Announced (r ∷ rs) w = (
    λ h.
        publish_expired-keeps rs (publish r w).1 reservation_expired_topic r.id
          (publish-IsPending r w h),
    publish_expired-Announced rs (publish r w).1,
  )

  -- Where the expired reservations `rs` can be read, the cleanup is done whatever the publications
  -- return: one that fails does not stop the loop. In the end every reservation whose publication
  -- succeeded has a pending event under its id, and every event that was pending before still is.
  pub cleanup_announces :
      (w : World) (rs : List ReservationInfo)
      → (cache.get_expired w.cache).0 ≡ ok rs
      → let w1 = record w { cache = (cache.get_expired w.cache).1 } in
        let r = release_reservations wire cache outbox vessel_cli backoff w in
        (r.0 ≡ ok tt)
        × Announced rs w1 r.1
        × ((topic key : String) → IsPending topic key (rows w) → IsPending topic key (rows r.1))
  unfolding release_reservations
  cleanup_announces w rs h =
      let w1 : World = record w { cache = (cache.get_expired w.cache).1 } in
      rw h (publish_expired-ok rs w1, publish_expired-Announced rs w1, publish_expired-keeps rs w1)
