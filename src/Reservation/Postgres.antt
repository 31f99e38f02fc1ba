-- ===== src/Reservation/Postgres.antt =====
-- The outbox of the reservation service on PostgreSQL
-- (cmd/reservation-service/storage/postgres/outbox.go). The trace context of an event is left out.
pub mod Rows
pub mod Leases
pub mod Instance
pub mod Published
pub mod Publishing
pub mod Memory
mod Tests
use shippy.Prelude.{
  ℕ, zero, suc, ℤ, ◌+ℤ◌, String, Bool, true, false, Option, none, some, ◌&&◌, ◌||◌, ◌==◌,
  if◌then◌else◌, ◌≡◌, ◌⊎◌, List, [], ◌∷◌, ◌++◌, map, Error, errorf, wrap, is_duplicate_key, Result,
  ok, err, ⊤, Exec, pure, raise, on_error, with_text, ◌>>=◌, ◌>>◌,
}
use shippy.Prelude.Collection.{Any}
use shippy.Outbox.{OutboxEvent, PendingEvent, IsPending, is_unset, is_over}

-- A row of the table `outbox` (database/sql/init.sql). Times are numbers.
pub record Row (Bytes : Type 0) : Type 0 where
  pub id : String
  pub event : OutboxEvent Bytes
  pub created_at : ℤ
  pub published_at : Option ℤ
  pub processing_until : Option ℤ

-- `id = ANY($2)`
unfoldable pub is_any : String → List String → Bool
is_any id [] = false
is_any id (i ∷ is) = id == i || is_any id is

module _ {Bytes : Type 0} where
  unfoldable pub is_free : ℤ → Row Bytes → Bool
  is_free now r = is_unset r.published_at && is_over now r.processing_until

  -- The events of the rows that are not published.
  unfoldable pub pending_rows : List (Row Bytes) → List (OutboxEvent Bytes)
  pending_rows [] = []
  pending_rows (r ∷ rs) =
      let rest = pending_rows rs in elim r.published_at [ none ↦ r.event ∷ rest | some t ↦ rest ]

  unfoldable pub set_until : ℤ → List String → List (Row Bytes) → List (Row Bytes)
  set_until until ids [] = []
  set_until until ids (r ∷ rs) =
      (if is_any r.id ids then record r { processing_until = some until } else r)
      ∷ set_until until ids rs

  abbrev pub to_pending : Row Bytes → PendingEvent Bytes
  to_pending r = record { id = r.id; event = r.event }

  abbrev pub ids_of : List (Row Bytes) → List String
  ids_of rs = map (λ r. r.id) rs

  -- `UPDATE outbox SET published_at = $1 WHERE id = $2`: the table after it, and how many rows it sets.
  unfoldable pub set_published : ℤ → String → List (Row Bytes) → List (Row Bytes)
  set_published now id [] = []
  set_published now id (r ∷ rs) =
      (if r.id == id then record r { published_at = some now } else r) ∷ set_published now id rs

  unfoldable pub count_id : String → List (Row Bytes) → ℕ
  count_id id [] = 0
  count_id id (r ∷ rs) = let rest = count_id id rs in if r.id == id then suc rest else rest

  -- The new row of an insert, not published and with an id of its own (the primary key).
  abbrev pub Added : OutboxEvent Bytes → List (Row Bytes) → List (Row Bytes) → Type 0
  Added e before after =
      (r : Row Bytes) × (r.event ≡ e)
      × (r.published_at ≡ none)
      × (is_any r.id (ids_of before) ≡ false)
      × (after ≡ before ++ r ∷ [])

-- The pool of connections with one transaction at most: `rows` are those that are committed, and
-- `written` those that a commit leaves. The rows that a transaction has selected stay locked until its
-- end, and `SKIP LOCKED` leaves out those that others hold.
pub record Pool (Bytes : Type 0) : Type 1 where
  pub State : Type 0
  pub rows : State → List (Row Bytes)
  pub written : State → List (Row Bytes)
  pub insert_row : OutboxEvent Bytes → Exec State ⊤
  pub update_published : ℤ → String → Exec State ℕ
  pub begin : Exec State ⊤
  -- With `NOW()` of the database.
  pub select_free : ℤ → Exec State (List (Row Bytes))
  pub update_until : ℤ → List String → Exec State ⊤
  pub commit : Exec State ⊤
  pub rollback : Exec State ⊤
  pub insert_row_ok :
      (e : OutboxEvent Bytes) (s : State)
      → (insert_row e s).0 ≡ ok tt
      → Added e (rows s) (rows (insert_row e s).1)
  pub insert_row_err :
      (e : OutboxEvent Bytes) (s : State) (x : Error)
      → (insert_row e s).0 ≡ err x
      → ((rows (insert_row e s).1 ≡ rows s)
          × (is_duplicate_key x ≡ true → IsPending e.topic e.key (pending_rows (rows s))))
        ⊎ ((is_duplicate_key x ≡ false) × Added e (rows s) (rows (insert_row e s).1))
  pub update_published_ok :
      (now : ℤ) (id : String) (s : State) (n : ℕ)
      → (update_published now id s).0 ≡ ok n
      → (rows (update_published now id s).1 ≡ set_published now id (rows s))
        × (n ≡ count_id id (rows s))
  pub update_published_err :
      (now : ℤ) (id : String) (s : State) (x : Error)
      → (update_published now id s).0 ≡ err x
      → (rows (update_published now id s).1 ≡ rows s)
        ⊎ (rows (update_published now id s).1 ≡ set_published now id (rows s))
  pub begin_lem :
      (s : State)
      → (rows (begin s).1 ≡ rows s) × ((begin s).0 ≡ ok tt → written (begin s).1 ≡ rows s)
  pub select_free_lem :
      (now : ℤ) (s : State)
      → (rows (select_free now s).1 ≡ rows s)
        × (written (select_free now s).1 ≡ written s)
        × ((rs : List (Row Bytes)) (r : Row Bytes)
            → (select_free now s).0 ≡ ok rs
            → Any (λ x. x ≡ r) rs
            → Any (λ x. x ≡ r) (rows s) × (is_free now r ≡ true))
  pub update_until_lem :
      (until : ℤ) (ids : List String) (s : State)
      → (rows (update_until until ids s).1 ≡ rows s)
        × ((update_until until ids s).0 ≡ ok tt
            → written (update_until until ids s).1 ≡ set_until until ids (written s))
  pub commit_lem : (s : State) → (commit s).0 ≡ ok tt → rows (commit s).1 ≡ written s
  pub commit_err :
      (s : State) (x : Error)
      → (commit s).0 ≡ err x
      → (rows (commit s).1 ≡ rows s) ⊎ (rows (commit s).1 ≡ written s)
  pub rollback_lem : (s : State) → rows (rollback s).1 ≡ rows s

module _ {Bytes : Type 0} (pool : Pool Bytes) where
  unfoldable pub create_event : OutboxEvent Bytes → Exec pool.State ⊤
  create_event e =
      on_error (pool.insert_row e)
        (λ x.
          if is_duplicate_key x then pure tt else raise (wrap "failed to create outbox event" x))
        pure

  -- `RowsAffected() == 0` is an error.
  abbrev pub affected : ℕ → Exec pool.State ⊤
  affected zero = raise (errorf "outbox event not found")
  affected (suc n) = pure tt

  -- `now` is what `time.Now()` returns.
  unfoldable pub mark_published : ℤ → String → Exec pool.State ⊤
  mark_published now id =
      with_text "failed to mark outbox event as published" (pool.update_published now id)
      >>= affected

  -- After the query: no rows end the call, others are leased.
  unfoldable pub lease_rows : ℤ → List (Row Bytes) → Exec pool.State (List (PendingEvent Bytes))
  lease_rows until [] = pure []
  lease_rows until (r ∷ rs) =
      with_text "failed to claim outbox lease" (pool.update_until until (ids_of (r ∷ rs)))
      >> with_text "failed to commit outbox lease" pool.commit
      >> pure (map to_pending (r ∷ rs))

  -- `defer tx.Rollback(ctx)`
  abbrev pub then_rollback : {A : Type 0} → Exec pool.State A → Exec pool.State A
  then_rollback m s = ((m s).0, (pool.rollback (m s).1).1)

  -- `db_now` is `NOW()`, and `now` what `time.Now()` returns.
  unfoldable pub get_pending_events : ℤ → ℤ → ℤ → Exec pool.State (List (PendingEvent Bytes))
  get_pending_events db_now now lease =
      with_text "failed to begin transaction" pool.begin
      >> then_rollback (
          with_text "failed to get pending outbox events" (pool.select_free db_now)
          >>= lease_rows (now +ℤ lease))
