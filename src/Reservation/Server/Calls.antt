-- ===== src/Reservation/Server/Calls.antt =====
-- What the calls of the reservation service leave in the cache and at the vessel service
-- (cmd/reservation-service/server/handler.go).
use shippy.Prelude.{
  ◌⊎◌, false, String, Bool, true, false, ◌≡◌, refl, sym, ◌∙◌, ap, subst, Error, Result, ok, err,
  Result-cases, ok_eq, ⊤, Exec, suc, inl, is_ok, inr,
}
use shippy.Prelude.Backoff.{Backoff, Attempts, Attempts-ok}
use shippy.Consignment.Messages.{ReserveCapacityRequest, ReservationResponse}
use shippy.Vessel.Messages.{VesselMessage}
use shippy.Reservation.{ReservationInfo, ReservationCache, VesselClient}
use shippy.Reservation.Server.{
  retries, Handler, compensation, request_of, cached, get_code, on_cache, on_vessel, reserve_call,
  cache_reservation, reserve_capacity, release_capacity, delete_call, confirm_capacity,
}

module _ (cache : ReservationCache) (vessel_cli : VesselClient) (backoff : Backoff)
    (parse : String → Result String) where
  abbrev World : Type 0
  World = Handler cache vessel_cli backoff parse

  abbrev pub release_once : String → String → ReserveCapacityRequest → Exec World ⊤
  release_once id vessel_id req =
      on_vessel cache vessel_cli backoff parse
        (vessel_cli.release_capacity (compensation id vessel_id req))

  -- What a call leaves after the reservation `reserved` at the vessel service. The answer of a success
  -- is the reservation, its data is in the cache, and the vessel service has been called no further.
  abbrev pub Kept :
      String
      → ReserveCapacityRequest
      → Result VesselMessage × World
      → ReservationResponse
      → World
      → Type 0
  Kept id req reserved response w' =
      (vessel : VesselMessage) × (reserved.0 ≡ ok vessel)
      × (response.id ≡ id)
      × (response.reserved ≡ true)
      × (parse vessel.id ≡ ok response.vessel_id)
      × (is_ok (parse req.consignment_id) ≡ true)
      × (cache.has_data w'.cache id ≡ true)
      × (w'.vessel ≡ reserved.1.vessel)

  -- Nothing was done after the reservation: it failed, or an id could not be read.
  abbrev pub LeftAlone : ReserveCapacityRequest → Result VesselMessage × World → World → Type 0
  LeftAlone req reserved w' =
      (w' ≡ reserved.1)
      × ((is_ok reserved.0 ≡ false)
          ⊎ ((vessel : VesselMessage) × (reserved.0 ≡ ok vessel)
              × ((is_ok (parse vessel.id) ≡ false) ⊎ (is_ok (parse req.consignment_id) ≡ false))))

  -- The vessel service saw one run of retries of the release, and if it succeeds, its last call
  -- released the amounts of the request.
  abbrev pub GivenBack :
      String → ReserveCapacityRequest → Result VesselMessage × World → World → Type 0
  GivenBack id req reserved w' =
      (vessel : VesselMessage) × (y : Result ⊤) × (u : World) × (reserved.0 ≡ ok vessel)
      × Attempts (release_once id vessel.id req) (suc retries) u y w'
      × (u.vessel ≡ reserved.1.vessel)
      × (y ≡ ok tt
          → (t : vessel_cli.State) × (vessel_cli.release_capacity
                (record {
                  reservation_id = id;
                  vessel_id = vessel.id;
                  weight = req.weight;
                  number_of_containers = req.number_of_containers;
                })
                t
              ≡ (ok tt, w'.vessel)))

  release_call-GivenBack :
      (id vessel_id : String) (req : ReserveCapacityRequest) (w : World)
      → let m = backoff.retry retries (release_once id vessel_id req) w in
        m.0 ≡ ok tt
        → (t : vessel_cli.State) × (vessel_cli.release_capacity (compensation id vessel_id req) t
            ≡ (ok tt, m.1.vessel))
  release_call-GivenBack id vessel_id req w h =
      let op : Exec World ⊤ = release_once id vessel_id req in
      let (u, _, e) =
        Attempts-ok {0} op (λ s. Unit) (λ s p. p) (backoff.attempts retries op w) h tt in
      (u.vessel, ap (λ x. (x.0, x.1.vessel)) e)

  -- What a call leaves, whatever fails. If the answer is a success, the reservation is kept: its data is
  -- in the cache and the vessel service has been called no further. If it is an error, then either the
  -- service is as the call that reserves left it, since that failed or since the id of the vessel or of
  -- the consignment cannot be read, so that a reservation is neither released nor cached; or the vessel
  -- service has seen one run of retries of the release. If that run succeeds, its last call released the
  -- amounts of the request; if not, the reservation may stay.
  pub reserve_capacity-outcome :
      (id : String) (req : ReserveCapacityRequest) (w : World)
      → let reserved = reserve_call cache vessel_cli backoff parse id req w in
        let r = reserve_capacity cache vessel_cli backoff parse id req w in
        ((response : ReservationResponse) → r.0 ≡ ok response → Kept id req reserved response r.1)
        × ((x : Error) → r.0 ≡ err x → LeftAlone req reserved r.1 ⊎ GivenBack id req reserved r.1)
  unfolding reserve_capacity cache_reservation compensation
  reserve_capacity-outcome id req w =
      let w1 : World = (reserve_call cache vessel_cli backoff parse id req w).1 in
      elim (Result-cases (reserve_call cache vessel_cli backoff parse id req w).0) [
        | inr (x, p) ↦ rw p ((λ response h. cc), λ y h. inl (refl, inl refl))
        | inl (vessel, p) ↦ elim (Result-cases (parse vessel.id)) [
          | inr (x, q) ↦
              rw (p, q)
                ((λ response h. cc), λ y h. inl (refl, inr (vessel, refl, inl (ap is_ok q))))
          | inl (vessel_id, q) ↦ elim (Result-cases (parse req.consignment_id)) [
            | inr (x, c) ↦
                rw (p, q, c) ((λ response h. cc), λ y h. inl (refl, inr (vessel, refl, inr refl)))
            | inl (consignment_id, c) ↦
                let data_of : ReservationInfo = cached id vessel_id consignment_id req in
                let w2 : World =
                  (on_cache cache vessel_cli backoff parse (cache.store id data_of) w1).1 in
                elim (Result-cases (cache.store id data_of w1.cache).0) [
                  | inl (a, s) ↦
                      rw (p, q, c, s)
                        (
                          (λ response h.
                              let e = sym (ok_eq h) in
                              (
                                vessel,
                                refl,
                                ap (λ z. z.id) e,
                                ap (λ z. z.reserved) e,
                                q ∙ ap (λ z. ok z.vessel_id) (sym e),
                                refl,
                                cache.store_lem id data_of w1.cache s,
                                refl,
                              )),
                          λ x h. cc,
                        )
                  | inr (e, s) ↦
                      rw (p, q, c, s)
                        (
                          (λ response h. cc),
                          λ x h. inr (
                            vessel,
                            (backoff.retry retries (release_once id vessel.id req) w2).0,
                            w2,
                            refl,
                            backoff.attempts retries (release_once id vessel.id req) w2,
                            refl,
                            release_call-GivenBack id vessel.id req w2,
                          ),
                        )
                ]
          ]
        ]
      ]

  delete_call-gone :
      (r : ReservationInfo) (w : World) (b : Bool)
      → (delete_call cache vessel_cli backoff parse r w).0 ≡ ok b
      → cache.has_data (delete_call cache vessel_cli backoff parse r w).1.cache r.id ≡ false
  delete_call-gone r w b h =
      let op : Exec World Bool = on_cache cache vessel_cli backoff parse (cache.delete_data r.id) in
      let (u, _, e) =
        Attempts-ok {0} op (λ s. Unit) (λ s p. p) (backoff.attempts retries op w) h tt in
      subst (λ x. cache.has_data x.1.cache r.id ≡ false) e
        (cache.delete_data_lem r.id u.cache b (ap (λ x. x.0) e)).1

  -- A confirmation of a cached reservation that the vessel service accepts is a success, whatever the
  -- cache then does. If one of the retried deletions succeeds, the data of the reservation is gone,
  -- so that the cleanup does not release what is confirmed.
  pub confirmed_data_is_deleted :
      (id : String) (w : World) (r : ReservationInfo) (b : Bool)
      → (cache.get_data id w.cache).0 ≡ ok r
      → (vessel_cli.confirm_capacity (request_of r) w.vessel).0 ≡ ok tt
      → let w1 : World = record {
        cache = (cache.get_data id w.cache).1;
        vessel = (vessel_cli.confirm_capacity (request_of r) w.vessel).1;
      } in
        let c = confirm_capacity cache vessel_cli backoff parse id w in
        (c.0 ≡ ok tt)
        × ((delete_call cache vessel_cli backoff parse r w1).0 ≡ ok b
            → cache.has_data c.1.cache r.id ≡ false)
  unfolding confirm_capacity
  confirmed_data_is_deleted id w r b there accepted =
      rw (there, accepted)
        (refl, λ h. cache.has_data-delete_id r.id r.id _ ∙ delete_call-gone r _ b h)

  -- A reservation that is not in the cache is neither confirmed nor released: the vessel service is
  -- not called, and the code tells a missing one from a failure of the cache.
  pub unknown_makes_no_call :
      (id : String) (w : World) (x : Error)
      → (cache.get_data id w.cache).0 ≡ err x
      → let w1 : World = record w { cache = (cache.get_data id w.cache).1 } in
        (confirm_capacity cache vessel_cli backoff parse id w ≡ (err (get_code x), w1))
        × (release_capacity cache vessel_cli backoff parse id w ≡ (err (get_code x), w1))
  unfolding confirm_capacity release_capacity
  unknown_makes_no_call id w x missing = rw missing (refl, refl)
