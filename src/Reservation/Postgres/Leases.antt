-- ===== src/Reservation/Postgres/Leases.antt =====
-- The leases of pending events by the publishers of several instances (GetPendingEvents of
-- cmd/reservation-service/storage/postgres/outbox.go).
use shippy.Prelude.{
  ℤ, ◌+ℤ◌, ltb_ℤ, String, Bool-cases, true, false, some, ◌&&◌, eq_iff, arith, ◌≡◌, ◌≢◌, refl, sym,
  ap, ◌∙◌, subst, inl, inr, List, [], ◌∷◌, map, ok, Result-cases, ok_eq,
}
use shippy.Prelude.Collection.{Any}
use shippy.Outbox.{PendingEvent, is_unset, is_over}
use shippy.Reservation.Postgres.{
  Row, Pool, is_free, is_any, set_until, to_pending, ids_of, lease_rows, get_pending_events,
}

module _ {Bytes : Type 0} where
  abbrev Member : Row Bytes → List (Row Bytes) → Type 0
  Member r rs = Any (λ x. x ≡ r) rs

  set_until-none : (until : ℤ) (rs : List (Row Bytes)) → set_until until [] rs ≡ rs
  unfolding set_until is_any
  set_until-none until [] = refl
  set_until-none until (r ∷ rs) = ap (λ l. r ∷ l) (set_until-none until rs)

  -- The rows with one of the ids are leased afterwards.
  leased_row :
      (until : ℤ) (ids : List String) (rs : List (Row Bytes)) (r : Row Bytes)
      → Member r (set_until until ids rs)
      → is_any r.id ids ≡ true
      → r.processing_until ≡ some until
  unfolding set_until
  leased_row until ids [] r h p = elim h [ ]
  leased_row until ids (x ∷ rs) r (inr h) p = leased_row until ids rs r h p
  leased_row until ids (x ∷ rs) r (inl h) p = elim (Bool-cases (is_any x.id ids)) [
    | inl q ↦ let e = rw q at h in sym (ap (λ y. y.processing_until) e)
    | inr q ↦
        let e : x ≡ r = rw q at h in
        let q' : is_any r.id ids ≡ false = subst (λ y. is_any y.id ids ≡ false) e q in cc
  ]

  -- The events of rows are those of one of them, whose id is among theirs.
  pub row_of :
      (rs : List (Row Bytes)) (e : PendingEvent Bytes)
      → Any (λ x. x ≡ e) (map to_pending rs)
      → (r : Row Bytes) × Member r rs × (r.id ≡ e.id)
  row_of [] e h = elim h [ ]
  row_of (r ∷ rs) e (inl h) = (r, inl refl, ap (λ x. x.id) h)
  row_of (r ∷ rs) e (inr h) = let (r', m, p) = row_of rs e h in (r', inr m, p)

  id_is_any :
      (rs : List (Row Bytes)) (e : PendingEvent Bytes)
      → Any (λ x. x ≡ e) (map to_pending rs)
      → is_any e.id (map (λ r. r.id) rs) ≡ true
  unfolding is_any
  id_is_any [] e h = elim h [ ]
  id_is_any (r ∷ rs) e (inl h) = let p = ap (λ x. x.id) h in ground (arith, eq_iff e.id r.id)
  id_is_any (r ∷ rs) e (inr h) = let p = id_is_any rs e h in ground arith

module _ {Bytes : Type 0} (pool : Pool Bytes) where
  lease_rows_lem :
      (until : ℤ) (rs : List (Row Bytes)) (s : pool.State) (es : List (PendingEvent Bytes))
      → pool.rows s ≡ pool.written s
      → (lease_rows pool until rs s).0 ≡ ok es
      → (es ≡ map to_pending rs)
        × (pool.rows (lease_rows pool until rs s).1 ≡ set_until until (ids_of rs) (pool.written s))
  unfolding lease_rows
  lease_rows_lem until [] s es same h =
      (sym (ok_eq h), same ∙ sym (set_until-none until (pool.written s)))
  lease_rows_lem until (r ∷ rs) s es same h =
      let ids = ids_of (r ∷ rs) in
      let s1 : pool.State = (pool.update_until until ids s).1 in
      elim (Result-cases (pool.update_until until ids s).0) [
        | inr (e, p) ↦ let h' = rw p at h in cc
        | inl (a, p) ↦ elim (Result-cases (pool.commit s1).0) [
          | inr (e, q) ↦ let h' = rw (p, q) at h in cc
          | inl (b, q) ↦ (
            sym (ok_eq (rw (p, q) at h)),
            rw (p, q) (pool.commit_lem s1 q ∙ (pool.update_until_lem until ids s).1 p),
          )
        ]
      ]

  -- The rows of a poll that succeeds, and the table after it.
  pub polled :
      (db_now now lease : ℤ) (s : pool.State) (es : List (PendingEvent Bytes))
      → let r = get_pending_events pool db_now now lease s in
        r.0 ≡ ok es
        → (rs : List (Row Bytes)) × (es ≡ map to_pending rs)
          × (pool.rows r.1 ≡ set_until (now +ℤ lease) (ids_of rs) (pool.rows s))
          × ((x : Row Bytes) → Member x rs → Member x (pool.rows s) × (is_free db_now x ≡ true))
  unfolding get_pending_events
  polled db_now now lease s es h =
      let s1 : pool.State = (pool.begin s).1 in
      let s2 : pool.State = (pool.select_free db_now s1).1 in
      let (begun, start) = pool.begin_lem s in
      let (kept, still, chosen) = pool.select_free_lem db_now s1 in
      elim (Result-cases (pool.begin s).0) [
        | inr (e, p) ↦ let h' = rw p at h in cc
        | inl (a, p) ↦ elim (Result-cases (pool.select_free db_now s1).0) [
          | inr (e, q) ↦ let h' = rw (p, q) at h in cc
          | inl (rs, q) ↦
              let opened : pool.written s1 ≡ pool.rows s = start p in
              let same : pool.rows s2 ≡ pool.written s2 = kept ∙ begun ∙ sym opened ∙ sym still in
              let (events, after) = lease_rows_lem (now +ℤ lease) rs s2 es same (rw (p, q) at h) in
              (
                rs,
                events,
                rw (p, q)
                    (pool.rollback_lem (lease_rows pool (now +ℤ lease) rs s2).1
                      ∙ after
                      ∙ ap (set_until (now +ℤ lease) (ids_of rs)) (still ∙ opened)),
                λ x m. let (there, free) = chosen rs x q m in (subst (Member x) begun there, free),
              )
        ]
      ]

  -- Two publishers do not get the same event: where a poll succeeds and another follows it before the
  -- clock of the database has passed the end of the leases, no event of the second has the id of one
  -- of the first; and each event of the first comes from a row that was free.
  pub leases_are_disjoint :
      (db_now now lease db_now' now' lease' : ℤ) (s : pool.State)
      (es es' : List (PendingEvent Bytes))
      → let r = get_pending_events pool db_now now lease s in
        r.0 ≡ ok es
        → (get_pending_events pool db_now' now' lease' r.1).0 ≡ ok es'
        → ltb_ℤ (now +ℤ lease) db_now' ≡ false
        → ((e : PendingEvent Bytes)
            → Any (λ x. x ≡ e) es
            → (x : Row Bytes) × Member x (pool.rows s) × (is_free db_now x ≡ true) × (x.id ≡ e.id))
          × ((e e' : PendingEvent Bytes)
              → Any (λ x. x ≡ e) es
              → Any (λ x. x ≡ e') es'
              → e.id ≢ e'.id)
  unfolding is_free
  leases_are_disjoint db_now now lease db_now' now' lease' s es es' h h' leased =
      let (rs, events, after, chosen) = polled db_now now lease s es h in
      let (rs', events', _, chosen') =
        polled db_now' now' lease' (get_pending_events pool db_now now lease s).1 es' h' in
      (
        λ e m.
            let (x, there, same) = row_of rs e (subst (Any (λ x. x ≡ e)) events m) in
            let (in_table, free) = chosen x there in (x, in_table, free, same),
        λ e e' m m' equal.
            let (x, there, same) = row_of rs' e' (subst (Any (λ x. x ≡ e')) events' m') in
            let (in_table, free) = chosen' x there in
            let named : is_any e.id (ids_of rs) ≡ true =
              id_is_any rs e (subst (Any (λ x. x ≡ e)) events m) in
            let named' : is_any x.id (ids_of rs) ≡ true =
              subst (λ i. is_any i (ids_of rs) ≡ true) (equal ∙ sym same) named in
            let until =
              leased_row (now +ℤ lease) (ids_of rs) (pool.rows s) x
                (subst (Member x) after in_table) named' in
            let taken : is_over db_now' x.processing_until ≡ false =
              ap (is_over db_now') until ∙ leased in
            let free' : is_unset x.published_at && is_over db_now' x.processing_until ≡ true =
              free in
            ground arith,
      )
