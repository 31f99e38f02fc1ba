-- ===== src/Reservation/Postgres/Tests.antt =====
-- The outbox at a table in memory.
use shippy.Prelude.{
  Error, err, ok, is_ok, true, false, is_duplicate_key, pos, ◌+ℤ◌, String, true, ◌≡◌, ◌≢◌, refl,
  inr, List, map, [], ◌∷◌, ◌++◌, ok, err, errorf,
}
use shippy.Prelude.Collection.{Any}
use shippy.Outbox.{OutboxEvent, PendingEvent, Created, IsPending}
use shippy.Reservation.Postgres.{
  Row, is_free, is_any, set_until, pending_rows, lease_rows, get_pending_events, create_event,
  ids_of, count_id, set_published, mark_published,
}
use shippy.Reservation.Postgres.Published.{marked_is_never_polled, after_poll, at_once}
use shippy.Reservation.Postgres.Leases.{leases_are_disjoint}
use shippy.Reservation.Postgres.Instance.{create_event-IsPending}
use shippy.Prelude.Collection.{Sublist}
use shippy.Outbox.Publisher.{Producer, Publisher, publish_events, publish_outbox}
use shippy.Reservation.Postgres.Memory.{Table, filter, pool, event, start, pending}
use shippy.Reservation.Postgres.Publishing.{Logged, postgres_publisher, run_is_final}

-- The second poll gets the event whose lease was over, and not the one that the first has leased.
polls :
    let r = get_pending_events pool (pos 50) (pos 50) (pos 30) start in
    (r.0 ≡ ok (pending "e1" ∷ []))
    × ((get_pending_events pool (pos 61) (pos 61) (pos 30) r.1).0 ≡ ok (pending "e2" ∷ []))
unfolding get_pending_events lease_rows is_free is_any set_until filter ◌+ℤ◌
polls = (refl, refl)

leases_are_disjoint_example :
    ((e : PendingEvent String)
      → Any (λ x. x ≡ e) (pending "e1" ∷ [])
      → (x : Row String) × Any (λ y. y ≡ x) start.rows
        × (is_free (pos 50) x ≡ true)
        × (x.id ≡ e.id))
    × ((e e' : PendingEvent String)
        → Any (λ x. x ≡ e) (pending "e1" ∷ [])
        → Any (λ x. x ≡ e') (pending "e2" ∷ [])
        → e.id ≢ e'.id)
unfolding ◌+ℤ◌
leases_are_disjoint_example =
    leases_are_disjoint pool (pos 50) (pos 50) (pos 30) (pos 61) (pos 61) (pos 30) start
      (pending "e1" ∷ []) (pending "e2" ∷ []) polls.0 polls.1 refl

create_event-IsPending_example :
    let r = create_event pool (event "e1") start in
    Created (event "e1") (pending_rows start.rows) (pending_rows r.1.rows) r.0
    × ((x : Error)
        → (pool.insert_row (event "e1") start).0 ≡ err x
        → (is_duplicate_key x ≡ true
            → (r.0 ≡ ok tt)
              × (pending_rows r.1.rows ≡ pending_rows start.rows)
              × IsPending "t" "e1" (pending_rows start.rows))
          × (is_duplicate_key x ≡ false → is_ok r.0 ≡ false))
create_event-IsPending_example = create_event-IsPending pool (event "e1") start

-- The first event is marked, and the second poll has only the other one.
abbrev marked : Table
marked = (mark_published pool (pos 55) "e1" start).1

marks :
    ((mark_published pool (pos 55) "e1" start).0 ≡ ok tt)
    × ((mark_published pool (pos 55) "e3" start).0 ≡ err (errorf "outbox event not found"))
    × ((get_pending_events pool
          (pos 99)
          (pos 99)
          (pos 30)
          (get_pending_events pool (pos 50) (pos 50) (pos 30) marked).1).0
        ≡ ok (pending "e2" ∷ []))
unfolding mark_published set_published count_id get_pending_events lease_rows is_free is_any
    set_until filter ◌+ℤ◌
marks = (refl, refl, refl)

marked_is_never_polled_example :
    (is_any "e1" (ids_of start.rows) ≡ true)
    × ((e : PendingEvent String) → Any (λ x. x ≡ e) (pending "e2" ∷ []) → e.id ≢ "e1")
marked_is_never_polled_example =
    marked_is_never_polled pool (pos 55) "e1" start
      (get_pending_events pool (pos 50) (pos 50) (pos 30) marked).1 (pos 99) (pos 99) (pos 30)
      (pending "e2" ∷ []) marks.0 (after_poll (pos 50) (pos 50) (pos 30) at_once) marks.2

-- A broker that takes everything.
abbrev open_broker : Producer String
open_broker = record {
  State = List (OutboxEvent String);
  sent = λ s. s;
  deadline = λ s. (ok tt, s);
  produce = λ e s. (ok tt, s ++ e ∷ []);
  deadline-sent = λ s. refl;
  produce-sent = λ e s. inr refl;
}

abbrev run : Publisher (Logged Table) (List (OutboxEvent String))
run =
    (publish_outbox (postgres_publisher pool (pos 50) (pos 50) (pos 30) (λ id. pos 51)) open_broker
      (record { outbox = record { database = start; log = [] }; broker = [] })).1

-- The run sends and marks the event that is free.
runs :
    (run.outbox.log ≡ "e1" ∷ [])
    × (run.broker ≡ event "e1" ∷ [])
    × ((get_pending_events pool (pos 99) (pos 99) (pos 30) run.outbox.database).0
        ≡ ok (pending "e2" ∷ []))
unfolding publish_outbox publish_events mark_published set_published count_id get_pending_events
    lease_rows is_free is_any set_until filter ◌+ℤ◌
runs = (refl, refl, refl)

run_is_final_example :
    (ms ns : List (PendingEvent String)) × (run.outbox.log ≡ map (λ e. e.id) ms)
    × (run.broker ≡ map (λ e. e.event) ns)
    × Sublist ms ns
    × Sublist ns (pending "e1" ∷ [])
    × ((id : String)
        → Any (λ x. x ≡ id) (map (λ e. e.id) ms)
        → (e : PendingEvent String) → Any (λ x. x ≡ e) (pending "e2" ∷ [])
        → e.id ≢ id)
run_is_final_example =
    run_is_final pool (pos 50) (pos 50) (pos 30) (λ id. pos 51) open_broker
      (record { outbox = record { database = start; log = [] }; broker = [] }) (pending "e1" ∷ [])
      (pending "e2" ∷ []) run.outbox.database (pos 99) (pos 99) (pos 30) refl polls.0 at_once runs.2
