-- ===== src/Reservation/Postgres/Rows.antt =====
-- The rows of the table that are published (the statements of
-- cmd/reservation-service/storage/postgres/outbox.go).
use shippy.Prelude.{
  inl, inr, ℕ, suc, ℤ, String, Bool-cases, true, false, ◌&&◌, ◌==◌, eq_iff, arith, ◌≡◌, ◌≢◌, refl,
  sym, ap, subst, List, [], ◌∷◌, ◌++◌, inl, inr,
}
use shippy.Prelude.Collection.{All, Any}
use shippy.Outbox.{OutboxEvent, is_unset}
use shippy.Reservation.Postgres.{
  Row, Added, is_free, is_any, set_until, set_published, count_id, ids_of,
}

module _ {Bytes : Type 0} where
  -- No row with the id is pending.
  abbrev pub AllPublished : String → List (Row Bytes) → Type 0
  AllPublished id rs = All (λ r. r.id == id && is_unset r.published_at ≡ false) rs

  -- Rows with the id, each of them published.
  abbrev pub IsPublished : String → List (Row Bytes) → Type 0
  IsPublished id rs = (is_any id (ids_of rs) ≡ true) × AllPublished id rs

  set_published-IsPublished :
      (now : ℤ) (id : String) (rs : List (Row Bytes)) → AllPublished id (set_published now id rs)
  unfolding set_published
  set_published-IsPublished now id [] = tt
  set_published-IsPublished now id (r ∷ rs) = elim (Bool-cases (r.id == id)) [
    | inl p ↦ rw p ((ground arith), set_published-IsPublished now id rs)
    | inr p ↦ rw p ((ground arith), set_published-IsPublished now id rs)
  ]

  set_published-ids :
      (now : ℤ) (id : String) (rs : List (Row Bytes)) → ids_of (set_published now id rs) ≡ ids_of rs
  unfolding set_published
  set_published-ids now id [] = refl
  set_published-ids now id (r ∷ rs) = elim (Bool-cases (r.id == id)) [
    | inl p ↦ rw p (ap (λ l. r.id ∷ l) (set_published-ids now id rs))
    | inr p ↦ rw p (ap (λ l. r.id ∷ l) (set_published-ids now id rs))
  ]

  set_until-ids :
      (until : ℤ) (ids : List String) (rs : List (Row Bytes))
      → ids_of (set_until until ids rs) ≡ ids_of rs
  unfolding set_until
  set_until-ids until ids [] = refl
  set_until-ids until ids (r ∷ rs) = elim (Bool-cases (is_any r.id ids)) [
    | inl p ↦ rw p (ap (λ l. r.id ∷ l) (set_until-ids until ids rs))
    | inr p ↦ rw p (ap (λ l. r.id ∷ l) (set_until-ids until ids rs))
  ]

  -- A later mark, a lease and a new row keep what is published.
  marked_again :
      (now : ℤ) (other id : String) (rs : List (Row Bytes))
      → AllPublished id rs
      → AllPublished id (set_published now other rs)
  unfolding set_published
  marked_again now other id [] h = tt
  marked_again now other id (r ∷ rs) (h, hs) = elim (Bool-cases (r.id == other)) [
    | inl p ↦ rw p ((ground arith), marked_again now other id rs hs)
    | inr p ↦ rw p (h, marked_again now other id rs hs)
  ]

  leased :
      (until : ℤ) (ids : List String) (id : String) (rs : List (Row Bytes))
      → AllPublished id rs
      → AllPublished id (set_until until ids rs)
  unfolding set_until
  leased until ids id [] h = tt
  leased until ids id (r ∷ rs) (h, hs) = elim (Bool-cases (is_any r.id ids)) [
    | inl p ↦ rw p (h, leased until ids id rs hs)
    | inr p ↦ rw p (h, leased until ids id rs hs)
  ]

  is_any-append :
      (id : String) (rs : List (Row Bytes)) (r : Row Bytes)
      → is_any id (ids_of rs) ≡ true
      → is_any id (ids_of (rs ++ r ∷ [])) ≡ true
  unfolding is_any
  is_any-append id [] r h = cc
  is_any-append id (x ∷ rs) r h = elim (Bool-cases (id == x.id)) [
    | inl p ↦ rw p refl
    | inr p ↦ let rest = is_any-append id rs r (rw p at h) in rw p rest
  ]

  added :
      (id : String) (rs : List (Row Bytes)) (r : Row Bytes)
      → r.id == id ≡ false
      → AllPublished id rs
      → AllPublished id (rs ++ r ∷ [])
  added id [] r other h = ((ground arith), tt)
  added id (x ∷ rs) r other (h, hs) = (h, added id rs r other hs)

  pub Added-IsPublished :
      (e : OutboxEvent Bytes) (id : String) (before after : List (Row Bytes))
      → Added e before after
      → IsPublished id before
      → IsPublished id after
  Added-IsPublished e id before after (r, _, _, fresh, h) (there, all) =
      let other : r.id == id ≡ false = elim (Bool-cases (r.id == id)) [
        | inr p ↦ p
        | inl p ↦
            let same : r.id ≡ id = ground (arith, eq_iff r.id id) in
            let clash = subst (λ i. is_any i (ids_of before) ≡ false) same fresh in cc
      ] in
      subst (IsPublished id) (sym h) (is_any-append id before r there, added id before r other all)

  pub found :
      (id : String) (rs : List (Row Bytes)) (n : ℕ)
      → suc n ≡ count_id id rs
      → is_any id (ids_of rs) ≡ true
  unfolding count_id is_any
  found id [] n h = absurd (omega (arith, h))
  found id (r ∷ rs) n h = elim (Bool-cases (r.id == id)) [
    | inl p ↦
        let q : id == r.id ≡ true = ground (arith, eq_iff r.id id, eq_iff id r.id) in rw q refl
    | inr p ↦ let rest : is_any id (ids_of rs) ≡ true = found id rs n (rw p at h) in ground arith
  ]

  pub not_free :
      (now : ℤ) (id : String) (rs : List (Row Bytes)) (r : Row Bytes)
      → AllPublished id rs
      → Any (λ x. x ≡ r) rs
      → is_free now r ≡ true
      → r.id ≢ id
  unfolding is_free
  not_free now id [] r h m f same = m
  not_free now id (x ∷ rs) r (h, hs) (inr m) f same = not_free now id rs r hs m f same
  not_free now id (x ∷ rs) r (h, hs) (inl e) f same =
      let h' = subst (λ y. y.id == id && is_unset y.published_at ≡ false) e h in
      ground (arith, eq_iff r.id id)

  pub marked-IsPublished :
      (now : ℤ) (id : String) (rs : List (Row Bytes))
      → is_any id (ids_of rs) ≡ true
      → IsPublished id (set_published now id rs)
  marked-IsPublished now id rs h = (
    subst (λ ids. is_any id ids ≡ true) (sym (set_published-ids now id rs)) h,
    set_published-IsPublished now id rs,
  )

  pub mark_again-IsPublished :
      (now : ℤ) (other id : String) (rs : List (Row Bytes))
      → IsPublished id rs
      → IsPublished id (set_published now other rs)
  mark_again-IsPublished now other id rs (h, all) = (
    subst (λ ids. is_any id ids ≡ true) (sym (set_published-ids now other rs)) h,
    marked_again now other id rs all,
  )

  pub set_until-IsPublished :
      (until : ℤ) (ids : List String) (id : String) (rs : List (Row Bytes))
      → IsPublished id rs
      → IsPublished id (set_until until ids rs)
  set_until-IsPublished until ids id rs (h, all) = (
    subst (λ is. is_any id is ≡ true) (sym (set_until-ids until ids rs)) h,
    leased until ids id rs all,
  )
