-- ===== src/Reservation/Postgres/Publishing.antt =====
-- The publisher of the reservation service on its outbox in PostgreSQL (publishOutbox of
-- cmd/reservation-service/manager/outbox.go on cmd/reservation-service/storage/postgres/outbox.go).
use shippy.Prelude.{
  ℤ, String, Result, ok, err, inl, inr, Result-cases, ◌≡◌, ◌≢◌, refl, ◌⊎◌, ⊤, Exec, List, [], ◌∷◌,
  ◌++◌, map, subst, sym, ◌∙◌, ap,
}
use shippy.Prelude.Collection.{All, Any, Sublist}
use shippy.Outbox.{PendingEvent}
use shippy.Outbox.Publisher.{PublisherOutbox, Producer, World, publish_outbox}
use shippy.Outbox.Publisher.Runs.{sent_before_marked}
use shippy.Outbox.Publisher.Keeps.{publish_outbox-keeps}
use shippy.Reservation.Postgres.{Pool, mark_published, get_pending_events}
use shippy.Reservation.Postgres.Rows.{IsPublished}
use shippy.Reservation.Postgres.Published.{
  Later, mark_is_Published, poll-IsPublished, mark-IsPublished, later_poll_lem,
}

-- The database with the ids whose marks have succeeded, which only the proofs read.
pub record Logged (S : Type 0) : Type 0 where
  pub database : S
  pub log : List String

module _ {Bytes : Type 0} (pool : Pool Bytes) where
  -- The clocks of a run: those of its poll and of each mark.
  module _ (db_now now lease : ℤ) (mark_now : String → ℤ) where
    abbrev with_log : Result ⊤ → String → List String → List String
    with_log (ok _) id log = log ++ id ∷ []
    with_log (err _) id log = log

    abbrev mark : String → Exec (Logged pool.State) ⊤
    mark id s =
        let r = mark_published pool (mark_now id) id s.database in
        (r.0, record { database = r.1; log = with_log r.0 id s.log })

    abbrev poll : Exec (Logged pool.State) (List (PendingEvent Bytes))
    poll s =
        let r = get_pending_events pool db_now now lease s.database in
        (r.0, record { database = r.1; log = s.log })

    pub with_log-cases :
        (r : Result ⊤) (id : String) (log : List String)
        → (with_log r id log ≡ log) ⊎ (with_log r id log ≡ log ++ id ∷ [])
    with_log-cases (ok _) id log = inr refl
    with_log-cases (err _) id log = inl refl

    abbrev pub postgres_publisher : PublisherOutbox Bytes
    postgres_publisher = record {
      State = Logged pool.State;
      marked = λ s. s.log;
      get_pending_events = poll;
      mark_published = mark;
      get_pending_events-marked = λ s. refl;
      mark_published-marked =
          λ id s. with_log-cases (mark_published pool (mark_now id) id s.database).0 id s.log;
    }

    abbrev IsLogged : Logged pool.State → Type 0
    IsLogged s = All (λ id. IsPublished id (pool.rows s.database)) s.log

    All-map :
        (P Q : String → Type 0)
        → ((id : String) → P id → Q id)
        → (ids : List String) → All P ids
        → All Q ids
    All-map P Q f [] h = tt
    All-map P Q f (id ∷ ids) (h, hs) = (f id h, All-map P Q f ids hs)

    All-last :
        (P : String → Type 0) (ids : List String) (id : String)
        → All P ids
        → P id
        → All P (ids ++ id ∷ [])
    All-last P [] id h p = (p, tt)
    All-last P (i ∷ ids) id (h, hs) p = (h, All-last P ids id hs p)

    All-Any :
        (P : String → Type 0) (ids : List String) (id : String)
        → All P ids
        → Any (λ x. x ≡ id) ids
        → P id
    All-Any P [] id h m = elim m [ ]
    All-Any P (i ∷ ids) id (h, hs) (inl e) = subst P e h
    All-Any P (i ∷ ids) id (h, hs) (inr m) = All-Any P ids id hs m

    mark-IsLogged : (id : String) (s : Logged pool.State) → IsLogged s → IsLogged (mark id s).1
    mark-IsLogged id s h =
        let t : pool.State = (mark_published pool (mark_now id) id s.database).1 in
        let before : All (λ i. IsPublished i (pool.rows t)) s.log =
          All-map (λ i. IsPublished i (pool.rows s.database)) (λ i. IsPublished i (pool.rows t))
            (λ i p. mark-IsPublished pool i (mark_now id) id s.database p) s.log h in
        elim (Result-cases (mark_published pool (mark_now id) id s.database).0) [
          | inr (e, p) ↦ rw p before
          | inl (a, p) ↦ rw p (
              All-last (λ i. IsPublished i (pool.rows t)) s.log id before
                (mark_is_Published pool (mark_now id) id s.database p).1)
        ]

    poll-IsLogged : (s : Logged pool.State) → IsLogged s → IsLogged (poll s).1
    poll-IsLogged s h =
        let t : pool.State = (get_pending_events pool db_now now lease s.database).1 in
        All-map (λ i. IsPublished i (pool.rows s.database)) (λ i. IsPublished i (pool.rows t))
          (λ i p. poll-IsPublished pool i db_now now lease s.database p) s.log h

    -- A run of the publisher on the database, which polls the events `es`: it sends some of them, each
    -- once and in their order, and of those it marks some as published. Whatever then happens to the
    -- table, failed calls and other publishers included, no later poll gets an event that it has marked.
    pub run_is_final :
        (producer : Producer Bytes) (w : World postgres_publisher producer)
        (es later : List (PendingEvent Bytes)) (t : pool.State) (db_now' now' lease' : ℤ)
        → w.outbox.log ≡ []
        → (get_pending_events pool db_now now lease w.outbox.database).0 ≡ ok es
        → let w' = (publish_outbox postgres_publisher producer w).1 in
          Later pool w'.outbox.database t
          → (get_pending_events pool db_now' now' lease' t).0 ≡ ok later
          → (ms ns : List (PendingEvent Bytes)) × (w'.outbox.log ≡ map (λ e. e.id) ms)
            × (producer.sent w'.broker ≡ producer.sent w.broker ++ map (λ e. e.event) ns)
            × Sublist ms ns
            × Sublist ns es
            × ((id : String)
                → Any (λ x. x ≡ id) (map (λ e. e.id) ms)
                → (e : PendingEvent Bytes) → Any (λ x. x ≡ e) later
                → e.id ≢ id)
    run_is_final producer w es later t db_now' now' lease' new polled after poll' =
        let w' : World postgres_publisher producer =
          (publish_outbox postgres_publisher producer w).1 in
        let (ms, ns, marked, sent, sub, all, _) =
          sent_before_marked postgres_publisher producer w es polled in
        let log : w'.outbox.log ≡ map (λ e. e.id) ms =
          marked ∙ ap (λ l. l ++ map (λ e. e.id) ms) new in
        let start : IsLogged w.outbox =
          subst (All (λ i. IsPublished i (pool.rows w.outbox.database))) (sym new) tt in
        let logged : IsLogged w'.outbox =
          publish_outbox-keeps postgres_publisher producer IsLogged mark-IsLogged poll-IsLogged w
            start in
        (
          ms,
          ns,
          log,
          sent,
          sub,
          all,
          λ id m.
              let p =
                All-Any (λ i. IsPublished i (pool.rows w'.outbox.database)) w'.outbox.log id logged
                  (subst (Any (λ x. x ≡ id)) (sym log) m) in
              later_poll_lem pool id w'.outbox.database t db_now' now' lease' later p after poll',
        )
