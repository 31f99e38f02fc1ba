-- ===== src/Reservation/Postgres/Instance.antt =====
-- The outbox on PostgreSQL keeps what the manager of the reservation service relies on
-- (cmd/reservation-service/storage/postgres/outbox.go as the interface of
-- cmd/reservation-service/storage/interfaces.go).
use shippy.Prelude.{
  Error, ok, err, true, false, is_ok, Bool-cases, none, ◌≡◌, refl, ap, ◌∙◌, inl, inr, List, [], ◌∷◌,
  ◌++◌, is_duplicate_key, Result-cases, Option-cases,
}
use shippy.Outbox.{OutboxEvent, OutboxRepository, Created, IsPending}
use shippy.Reservation.Postgres.{Row, Pool, Added, pending_rows, create_event}

module _ {Bytes : Type 0} where
  pending_rows-append :
      (rs : List (Row Bytes)) (r : Row Bytes)
      → r.published_at ≡ none
      → pending_rows (rs ++ r ∷ []) ≡ pending_rows rs ++ r.event ∷ []
  unfolding pending_rows
  pending_rows-append [] r h = rw h refl
  pending_rows-append (x ∷ rs) r h = elim (Option-cases x.published_at) [
    | inl p ↦ rw p (ap (λ l. x.event ∷ l) (pending_rows-append rs r h))
    | inr (t, p) ↦ rw p (pending_rows-append rs r h)
  ]

  Added-pending :
      (e : OutboxEvent Bytes) (before after : List (Row Bytes))
      → Added e before after
      → pending_rows after ≡ pending_rows before ++ e ∷ []
  Added-pending e before after (r, same, new, _, h) =
      ap pending_rows h
      ∙ pending_rows-append before r new
      ∙ ap (λ x. pending_rows before ++ x ∷ []) same

module _ {Bytes : Type 0} (pool : Pool Bytes) where
  pub create_event-Created :
      (e : OutboxEvent Bytes) (s : pool.State)
      → let r = create_event pool e s in
        Created e (pending_rows (pool.rows s)) (pending_rows (pool.rows r.1)) r.0
  unfolding create_event
  create_event-Created e s =
      let s1 : pool.State = (pool.insert_row e s).1 in
      elim (Result-cases (pool.insert_row e s).0) [
        | inl (a, p) ↦
            rw p (inl (Added-pending e (pool.rows s) (pool.rows s1) (pool.insert_row_ok e s p)))
        | inr (x, p) ↦ elim (pool.insert_row_err e s x p) [
          | inr (other, added) ↦
              rw (p, other) (inr (Added-pending e (pool.rows s) (pool.rows s1) added))
          | inl (same, pending) ↦ elim (Bool-cases (is_duplicate_key x)) [
            | inl q ↦ rw (p, q) (inr (ap pending_rows same, pending q))
            | inr q ↦ rw (p, q) (inl (ap pending_rows same))
          ]
        ]
      ]

  -- After an event is created, it is at the end of the pending ones, or the unique index has kept it
  -- out beside a pending one of its topic and key; after an error it may be there. The insert that the
  -- index refuses is no error and leaves the pending events as they were, and any other failure of the
  -- insert is an error.
  pub create_event-IsPending :
      (e : OutboxEvent Bytes) (s : pool.State)
      → let r = create_event pool e s in
        let before = pending_rows (pool.rows s) in
        let after = pending_rows (pool.rows r.1) in
        Created e before after r.0
        × ((x : Error)
            → (pool.insert_row e s).0 ≡ err x
            → (is_duplicate_key x ≡ true
                → (r.0 ≡ ok tt) × (after ≡ before) × IsPending e.topic e.key before)
              × (is_duplicate_key x ≡ false → is_ok r.0 ≡ false))
  unfolding create_event
  create_event-IsPending e s = (
    create_event-Created e s,
    λ x p. (
      (λ q. elim (pool.insert_row_err e s x p) [
        | inl (same, pending) ↦ rw (p, q) (refl, ap pending_rows same, pending q)
        | inr (other, _) ↦ cc
      ]),
      λ q. rw (p, q) refl,
    ),
  )

  abbrev pub postgres_outbox : OutboxRepository Bytes
  postgres_outbox = record {
    State = pool.State;
    rows = λ s. pending_rows (pool.rows s);
    create_event = create_event pool;
    create_event_lem = create_event-Created;
  }
