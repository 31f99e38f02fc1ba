-- ===== src/Reservation/Postgres/Memory.antt =====
-- A table in memory, as the pool of connections of the outbox.
use shippy.Prelude.{
  ℤ, pos, String, Bool, Bool-cases, true, false, Option, none, some, ◌&&◌, ◌||◌, ◌==◌, eq_iff,
  arith, if◌then◌else◌, ◌≡◌, refl, sym, ap, ◌∙◌, subst, ◌⊎◌, inl, inr, List, [], ◌∷◌, ◌++◌, Error,
  duplicate_key, is_duplicate_key, ok, err, ok_eq, ⊤, Exec, errorf, Result,
}
use shippy.Prelude.Collection.{Any}
use shippy.Outbox.{OutboxEvent, PendingEvent, IsPending}
use shippy.Reservation.Postgres.{
  Row, Pool, Added, is_free, is_any, set_until, pending_rows, ids_of, count_id, set_published,
}

pub record Table : Type 0 where
  pub rows : List (Row String)
  pub written : List (Row String)

abbrev pub is_pending : String → String → List (OutboxEvent String) → Bool
is_pending topic key [] = false
is_pending topic key (e ∷ es) = e.topic == topic && e.key == key || is_pending topic key es

pub is_pending_lem :
    (topic key : String) (es : List (OutboxEvent String))
    → is_pending topic key es ≡ true
    → IsPending topic key es
is_pending_lem topic key [] h = cc
is_pending_lem topic key (e ∷ es) h = elim (Bool-cases (e.topic == topic && e.key == key)) [
  | inl p ↦
      let a : e.topic ≡ topic = ground (arith, eq_iff e.topic topic) in
      let b : e.key ≡ key = ground (arith, eq_iff e.key key) in inl (a, b)
  | inr p ↦ inr (is_pending_lem topic key es (ground arith))
]

abbrev pub new_row : OutboxEvent String → Row String
new_row e = record {
  id = "new";
  event = e;
  created_at = pos 0;
  published_at = none;
  processing_until = none;
}

-- The row's id has to be new too.
abbrev pub insert_new : Bool → OutboxEvent String → Exec Table ⊤
insert_new true e s = (err (errorf "no id"), s)
insert_new false e s = (ok tt, record s { rows = s.rows ++ new_row e ∷ [] })

abbrev pub insert_by : Bool → OutboxEvent String → Exec Table ⊤
insert_by true e s = (err duplicate_key, s)
insert_by false e s = insert_new (is_any "new" (ids_of s.rows)) e s

pub insert_new_ok :
    (b : Bool) (e : OutboxEvent String) (s : Table)
    → is_any "new" (ids_of s.rows) ≡ b
    → (insert_new b e s).0 ≡ ok tt
    → Added e s.rows (insert_new b e s).1.rows
insert_new_ok true e s p h = cc
insert_new_ok false e s p h = (new_row e, refl, refl, p, refl)

pub insert_by_ok :
    (b : Bool) (e : OutboxEvent String) (s : Table)
    → (insert_by b e s).0 ≡ ok tt
    → Added e s.rows (insert_by b e s).1.rows
insert_by_ok true e s h = cc
insert_by_ok false e s h = insert_new_ok (is_any "new" (ids_of s.rows)) e s refl h

pub insert_new_err :
    (b : Bool) (e : OutboxEvent String) (s : Table) (x : Error)
    → (insert_new b e s).0 ≡ err x
    → ((insert_new b e s).1.rows ≡ s.rows) × (is_duplicate_key x ≡ false)
insert_new_err true e s x h = (refl, subst fails h refl)
  where
    fails : Result ⊤ → Type 0
    fails (err y) = is_duplicate_key y ≡ false
    fails (ok _) = ⊥
insert_new_err false e s x h = cc

pub insert_by_err :
    (b : Bool) (e : OutboxEvent String) (s : Table) (x : Error)
    → is_pending e.topic e.key (pending_rows s.rows) ≡ b
    → (insert_by b e s).0 ≡ err x
    → (((insert_by b e s).1.rows ≡ s.rows)
        × (is_duplicate_key x ≡ true → IsPending e.topic e.key (pending_rows s.rows)))
      ⊎ ((is_duplicate_key x ≡ false) × Added e s.rows (insert_by b e s).1.rows)
insert_by_err true e s x p h = inl (refl, λ _. is_pending_lem e.topic e.key (pending_rows s.rows) p)
insert_by_err false e s x p h =
    let (same, other) = insert_new_err (is_any "new" (ids_of s.rows)) e s x h in inl (same, λ q. cc)

unfoldable pub filter : ℤ → List (Row String) → List (Row String)
filter now [] = []
filter now (r ∷ rs) = if is_free now r then r ∷ filter now rs else filter now rs

pub filter_lem :
    (now : ℤ) (rs : List (Row String)) (r : Row String)
    → Any (λ x. x ≡ r) (filter now rs)
    → Any (λ x. x ≡ r) rs × (is_free now r ≡ true)
unfolding filter
filter_lem now [] r h = elim h [ ]
filter_lem now (o ∷ rs) r h = elim (Bool-cases (is_free now o)) [
  | inr p ↦ let (m, f) = filter_lem now rs r (rw p at h) in (inr m, f)
  | inl p ↦ by_place p (filter_lem now rs r) (rw p at h)
]
  where
    by_place :
        is_free now o ≡ true
        → (Any (λ x. x ≡ r) (filter now rs) → Any (λ x. x ≡ r) rs × (is_free now r ≡ true))
        → (o ≡ r) ⊎ Any (λ x. x ≡ r) (filter now rs)
        → Any (λ x. x ≡ r) (o ∷ rs) × (is_free now r ≡ true)
    by_place p rest (inl same) = (inl same, ap (is_free now) (sym same) ∙ p)
    by_place p rest (inr m) = let (there, f) = rest m in (inr there, f)

pub ok-err : {A : Type 0} {a : A} {x : Error} → ok a ≡ err x → ⊥
ok-err h = cc

abbrev pub pool : Pool String
pool = record {
  State = Table;
  rows = λ s. s.rows;
  written = λ s. s.written;
  insert_row = λ e s. insert_by (is_pending e.topic e.key (pending_rows s.rows)) e s;
  update_published =
      λ now id s. (ok (count_id id s.rows), record s { rows = set_published now id s.rows });
  begin = λ s. (ok tt, record s { written = s.rows });
  select_free = λ now s. (ok (filter now s.rows), s);
  update_until = λ until ids s. (ok tt, record s { written = set_until until ids s.written });
  commit = λ s. (ok tt, record s { rows = s.written });
  rollback = λ s. (ok tt, s);
  insert_row_ok = λ e s h. insert_by_ok (is_pending e.topic e.key (pending_rows s.rows)) e s h;
  insert_row_err =
      λ e s x h. insert_by_err (is_pending e.topic e.key (pending_rows s.rows)) e s x refl h;
  update_published_ok = λ now id s n h. (refl, sym (ok_eq h));
  update_published_err = λ now id s x h. absurd (ok-err h);
  begin_lem = λ s. (refl, λ h. refl);
  select_free_lem = λ now s. (
    refl,
    refl,
    λ rs r h m. filter_lem now s.rows r (subst (Any (λ x. x ≡ r)) (sym (ok_eq h)) m),
  );
  update_until_lem = λ until ids s. (refl, λ h. refl);
  commit_lem = λ s h. refl;
  commit_err = λ s x h. absurd (ok-err h);
  rollback_lem = λ s. refl;
}

abbrev pub event : String → OutboxEvent String
event key = record { topic = "t"; key = key; payload = key }

abbrev pub row : String → Option ℤ → Row String
row id until = record {
  id = id;
  event = event id;
  created_at = pos 0;
  published_at = none;
  processing_until = until;
}

abbrev pub start : Table
start = record { rows = row "e1" none ∷ row "e2" (some (pos 60)) ∷ []; written = [] }

abbrev pub pending : String → PendingEvent String
pending id = record { id = id; event = event id }
