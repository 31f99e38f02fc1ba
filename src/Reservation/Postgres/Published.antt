-- ===== src/Reservation/Postgres/Published.antt =====
use Prim.Native.String.{String}
-- What is marked as published is not polled again (MarkPublished and GetPendingEvents of
-- cmd/reservation-service/storage/postgres/outbox.go).
use shippy.Prelude.{
  ℕ, zero, suc, Result-cases, ok, inl, inr, ◌∙◌, is_duplicate_key, ℤ, ◌+ℤ◌, String, Bool-cases,
  true, ◌≡◌, ◌≢◌, refl, sym, ap, subst, List, [], ◌∷◌, inr, inl, inl, inr, inl, inr, inl, inr, inl,
  inr, inl, inr, inl, inr, inl, inr, inl, inr,
}
use shippy.Prelude.Collection.{Any}
use shippy.Outbox.{OutboxEvent, PendingEvent}
use shippy.Reservation.Postgres.{
  Row, Pool, Added, is_any, ids_of, lease_rows, get_pending_events, mark_published, create_event,
  affected,
}
use shippy.Reservation.Postgres.Rows.{
  IsPublished, marked-IsPublished, mark_again-IsPublished, set_until-IsPublished, Added-IsPublished,
  found, not_free,
}
use shippy.Reservation.Postgres.Leases.{row_of, polled}

module _ {Bytes : Type 0} (pool : Pool Bytes) where
  -- What publishers and clients, of any instance, do to the table.
  pub data Later : pool.State → pool.State → Type 0 where
    at_once : {s : pool.State} → Later s s
    after_poll :
        {s t : pool.State} (db_now now lease : ℤ)
        → Later s t
        → Later s (get_pending_events pool db_now now lease t).1
    after_mark :
        {s t : pool.State} (now : ℤ) (id : String)
        → Later s t
        → Later s (mark_published pool now id t).1
    after_create :
        {s t : pool.State} (e : OutboxEvent Bytes) → Later s t → Later s (create_event pool e t).1

  lease_rows-IsPublished :
      (id : String) (until : ℤ) (rs : List (Row Bytes)) (s : pool.State)
      → IsPublished id (pool.rows s)
      → IsPublished id (pool.written s)
      → IsPublished id (pool.rows (lease_rows pool until rs s).1)
  unfolding lease_rows
  lease_rows-IsPublished id until [] s h k = h
  lease_rows-IsPublished id until (r ∷ rs) s h k =
      let ids = ids_of (r ∷ rs) in
      let s1 : pool.State = (pool.update_until until ids s).1 in
      let (kept, set) = pool.update_until_lem until ids s in
      let h1 : IsPublished id (pool.rows s1) = subst (IsPublished id) (sym kept) h in
      elim (Result-cases (pool.update_until until ids s).0) [
        | inr (e, p) ↦ rw p h1
        | inl (a, p) ↦
            let k1 : IsPublished id (pool.written s1) =
              subst (IsPublished id) (sym (set p))
                (set_until-IsPublished until ids id (pool.written s) k) in
            elim (Result-cases (pool.commit s1).0) [
              | inl (b, q) ↦ rw (p, q) (subst (IsPublished id) (sym (pool.commit_lem s1 q)) k1)
              | inr (e, q) ↦ elim (pool.commit_err s1 e q) [
                | inl same ↦ rw (p, q) (subst (IsPublished id) (sym same) h1)
                | inr set ↦ rw (p, q) (subst (IsPublished id) (sym set) k1)
              ]
            ]
      ]

  pub poll-IsPublished :
      (id : String) (db_now now lease : ℤ) (s : pool.State)
      → IsPublished id (pool.rows s)
      → IsPublished id (pool.rows (get_pending_events pool db_now now lease s).1)
  unfolding get_pending_events
  poll-IsPublished id db_now now lease s h =
      let s1 : pool.State = (pool.begin s).1 in
      let s2 : pool.State = (pool.select_free db_now s1).1 in
      let (begun, start) = pool.begin_lem s in
      let (kept, still, _) = pool.select_free_lem db_now s1 in
      let h1 : IsPublished id (pool.rows s1) = subst (IsPublished id) (sym begun) h in
      let h2 : IsPublished id (pool.rows s2) = subst (IsPublished id) (sym kept) h1 in
      elim (Result-cases (pool.begin s).0) [
        | inr (e, p) ↦ rw p h1
        | inl (a, p) ↦ elim (Result-cases (pool.select_free db_now s1).0) [
          | inr (e, q) ↦ rw (p, q) (subst (IsPublished id) (sym (pool.rollback_lem s2)) h2)
          | inl (rs, q) ↦
              let k2 : IsPublished id (pool.written s2) =
                subst (IsPublished id) (sym (still ∙ start p)) h in
              let s3 : pool.State = (lease_rows pool (now +ℤ lease) rs s2).1 in
              rw (p, q)
                (subst (IsPublished id) (sym (pool.rollback_lem s3))
                  (lease_rows-IsPublished id (now +ℤ lease) rs s2 h2 k2))
        ]
      ]

  -- The state after a mark is that after its statement.
  affected-state : (n : ℕ) (s : pool.State) → (affected pool n s).1 ≡ s
  affected-state zero s = refl
  affected-state (suc n) s = refl

  mark-state :
      (now : ℤ) (id : String) (s : pool.State)
      → (mark_published pool now id s).1 ≡ (pool.update_published now id s).1
  unfolding mark_published
  mark-state now id s = elim (Result-cases (pool.update_published now id s).0) [
    | inr (e, p) ↦ rw p refl
    | inl (n, p) ↦ rw p (affected-state n (pool.update_published now id s).1)
  ]

  mark-ok :
      (now : ℤ) (id : String) (s : pool.State)
      → (mark_published pool now id s).0 ≡ ok tt
      → (n : ℕ) × ((pool.update_published now id s).0 ≡ ok (suc n))
  unfolding mark_published
  mark-ok now id s h = elim (Result-cases (pool.update_published now id s).0) [
    | inr (e, p) ↦ let h' = rw p at h in cc
    | inl (zero, p) ↦ let h' = rw p at h in cc
    | inl (suc n, p) ↦ (n, p)
  ]

  pub mark-IsPublished :
      (id : String) (now : ℤ) (other : String) (s : pool.State)
      → IsPublished id (pool.rows s)
      → IsPublished id (pool.rows (mark_published pool now other s).1)
  mark-IsPublished id now other s h =
      let set = mark_again-IsPublished now other id (pool.rows s) h in
      let rows = ap pool.rows (mark-state now other s) in
      elim (Result-cases (pool.update_published now other s).0) [
        | inl (n, p) ↦
            subst (IsPublished id) (sym (rows ∙ (pool.update_published_ok now other s n p).0)) set
        | inr (e, p) ↦ elim (pool.update_published_err now other s e p) [
          | inl same ↦ subst (IsPublished id) (sym (rows ∙ same)) h
          | inr changed ↦ subst (IsPublished id) (sym (rows ∙ changed)) set
        ]
      ]

  create-state :
      (e : OutboxEvent Bytes) (s : pool.State) → (create_event pool e s).1 ≡ (pool.insert_row e s).1
  unfolding create_event
  create-state e s = elim (Result-cases (pool.insert_row e s).0) [
    | inl (a, p) ↦ rw p refl
    | inr (x, p) ↦ elim (Bool-cases (is_duplicate_key x)) [
      | inl q ↦ rw (p, q) refl
      | inr q ↦ rw (p, q) refl
    ]
  ]

  create-IsPublished :
      (id : String) (e : OutboxEvent Bytes) (s : pool.State)
      → IsPublished id (pool.rows s)
      → IsPublished id (pool.rows (create_event pool e s).1)
  create-IsPublished id e s h =
      let s1 : pool.State = (pool.insert_row e s).1 in
      let grown : Added e (pool.rows s) (pool.rows s1) → IsPublished id (pool.rows s1) =
        λ a. Added-IsPublished e id (pool.rows s) (pool.rows s1) a h in
      let after : IsPublished id (pool.rows s1) = elim (Result-cases (pool.insert_row e s).0) [
        | inl (a, p) ↦ grown (pool.insert_row_ok e s p)
        | inr (x, p) ↦ elim (pool.insert_row_err e s x p) [
          | inl (same, _) ↦ subst (IsPublished id) (sym same) h
          | inr (_, a) ↦ grown a
        ]
      ] in
      subst (λ t. IsPublished id (pool.rows t)) (sym (create-state e s)) after

  Later-IsPublished :
      (id : String) {s t : pool.State}
      → Later s t
      → IsPublished id (pool.rows s)
      → IsPublished id (pool.rows t)
  Later-IsPublished id at_once h = h
  Later-IsPublished id (after_poll {t = t} db_now now lease l) h =
      poll-IsPublished id db_now now lease t (Later-IsPublished id l h)
  Later-IsPublished id (after_mark {t = t} now other l) h =
      mark-IsPublished id now other t (Later-IsPublished id l h)
  Later-IsPublished id (after_create {t = t} e l) h =
      create-IsPublished id e t (Later-IsPublished id l h)

  pub mark_is_Published :
      (now : ℤ) (id : String) (s : pool.State)
      → (mark_published pool now id s).0 ≡ ok tt
      → (is_any id (ids_of (pool.rows s)) ≡ true)
        × IsPublished id (pool.rows (mark_published pool now id s).1)
  mark_is_Published now id s marked =
      let (n, p) = mark-ok now id s marked in
      let (rows, count) = pool.update_published_ok now id s (suc n) p in
      let there = found id (pool.rows s) n count in
      (
        there,
        subst (IsPublished id) (sym (ap pool.rows (mark-state now id s) ∙ rows))
            (marked-IsPublished now id (pool.rows s) there),
      )

  pub later_poll_lem :
      (id : String) (s t : pool.State) (db_now now lease : ℤ) (es : List (PendingEvent Bytes))
      → IsPublished id (pool.rows s)
      → Later s t
      → (get_pending_events pool db_now now lease t).0 ≡ ok es
      → (e : PendingEvent Bytes) → Any (λ x. x ≡ e) es
      → e.id ≢ id
  later_poll_lem id s t db_now now lease es first later poll e m same =
      let (_, all) = Later-IsPublished id later first in
      let (rs, events, _, chosen) = polled pool db_now now lease t es poll in
      let (x, member, same_id) = row_of rs e (subst (Any (λ x. x ≡ e)) events m) in
      let (in_table, free) = chosen x member in
      not_free db_now id (pool.rows t) x all in_table free (same_id ∙ same)

  -- Once an event is marked as published, it was in the table, and no later poll gets it, whatever
  -- polls, marks and new events there are in between, failed ones included.
  pub marked_is_never_polled :
      (now : ℤ) (id : String) (s t : pool.State) (db_now now' lease : ℤ)
      (es : List (PendingEvent Bytes))
      → (mark_published pool now id s).0 ≡ ok tt
      → Later (mark_published pool now id s).1 t
      → (get_pending_events pool db_now now' lease t).0 ≡ ok es
      → (is_any id (ids_of (pool.rows s)) ≡ true)
        × ((e : PendingEvent Bytes) → Any (λ x. x ≡ e) es → e.id ≢ id)
  marked_is_never_polled now id s t db_now now' lease es marked later poll =
      let (there, first) = mark_is_Published now id s marked in
      (
        there,
        later_poll_lem id (mark_published pool now id s).1 t db_now now' lease es first later poll,
      )
