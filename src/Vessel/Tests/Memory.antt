-- ===== src/Vessel/Tests/Memory.antt =====
-- A database without faults, in memory: it shows that what is assumed of the driver can hold, and
-- lets the repository of cmd/vessel-service run.
use shippy.Prelude.{
  ℤ, ap, ◌∙◌, ℕ, zero, suc, Bool, true, false, Bool-cases, Option-cases, List, [], ◌∷◌, ◌≡◌, refl,
  sym, inl, inr, Result, ok, err, ⊤, Exec, no_documents, duplicate_key, if◌then◌else◌, Option, none,
  some, arith, ok_eq,
}
use shippy.Prelude.Collection.{All, Any, Updates, here, later, Any-map, Sublist, empty, keep, skip}
use shippy.Vessel.{Vessel, CapacityOperation}
use shippy.Vessel.Database.{
  Contents, is_operation, is_expired, has_id, FoundAndUpdated, Updated, Inserted, Database,
}

pub record Store : Type 0 where
  pub committed : Contents
  pub working : Contents

module _ {D : Type 0} where
  -- the first document that fits, changed, and the documents after that
  unfoldable pub update_first : (D → Bool) → (D → D) → List D → Option (D × List D)
  update_first fits change [] = none
  update_first fits change (x ∷ xs) =
      if fits x
      then some (change x, change x ∷ xs)
      else elim (update_first fits change xs) [ none ↦ none | some (v, ys) ↦ some (v, x ∷ ys) ]

  update_first-some :
      (fits : D → Bool) (change : D → D) (xs : List D) (v : D) (ys : List D)
      → update_first fits change xs ≡ some (v, ys)
      → Updates fits change xs v ys
  unfolding update_first
  update_first-some fits change [] v ys h = cc
  update_first-some fits change (x ∷ xs) v ys h = elim (Bool-cases (fits x)) [
    | inl t ↦
        let e : v ≡ change x = ground arith in
        let e' : ys ≡ v ∷ xs = ground arith in rw e' (here t e)
    | inr t ↦ elim (Option-cases (update_first fits change xs)) [
      | inl p ↦ ground arith
      | inr ((w, zs), p) ↦
          let e : ys ≡ x ∷ zs = ground arith in
          rw e (later (update_first-some fits change xs v zs (ground arith)))
    ]
  ]

  update_first-none :
      (fits : D → Bool) (change : D → D) (xs : List D)
      → update_first fits change xs ≡ none
      → All (λ x. fits x ≡ false) xs
  unfolding update_first
  update_first-none fits change [] h = tt
  update_first-none fits change (x ∷ xs) h =
      (ground arith, update_first-none fits change xs (ground arith))

  unfoldable pub find_first : (D → Bool) → List D → Option D
  find_first fits [] = none
  find_first fits (x ∷ xs) = if fits x then some x else find_first fits xs

  pub find_first-some :
      (fits : D → Bool) (xs : List D) (v : D)
      → find_first fits xs ≡ some v
      → Any (λ x. (x ≡ v) × (fits x ≡ true)) xs
  unfolding find_first
  find_first-some fits [] v h = cc
  find_first-some fits (x ∷ xs) v h = elim (Bool-cases (fits x)) [
    | inl t ↦ inl (ground arith, t)
    | inr t ↦ inr (find_first-some fits xs v (rw t at h))
  ]

  find_first-none :
      (fits : D → Bool) (xs : List D) → find_first fits xs ≡ none → Any (λ x. fits x ≡ true) xs → ⊥
  unfolding find_first
  find_first-none fits [] h a = a
  find_first-none fits (x ∷ xs) h (inl t) = ground arith
  find_first-none fits (x ∷ xs) h (inr t) = find_first-none fits xs (ground arith) t

-- The transaction works on `working`; a commit makes it the committed contents.
abbrev pub begin : Exec Store ⊤
begin s = (ok tt, record s { working = s.committed })

abbrev pub memory_update : (Vessel → Bool) → (Vessel → Vessel) → Exec Store Vessel
memory_update fits change s = elim (update_first fits change s.working.vessels) [
  | none ↦ (err no_documents, s)
  | some (v, vs) ↦ (ok v, record s { working = record s.working { vessels = vs } })
]

abbrev pub memory_update_one : (Vessel → Bool) → (Vessel → Vessel) → Exec Store ℕ
memory_update_one fits change s = elim (update_first fits change s.working.vessels) [
  | none ↦ (ok 0, s)
  | some (v, vs) ↦ (ok (suc zero), record s { working = record s.working { vessels = vs } })
]

abbrev pub same_operation : CapacityOperation → CapacityOperation → Bool
same_operation o = is_operation o.reservation_id o.operation

abbrev pub memory_insert : CapacityOperation → Exec Store ⊤
memory_insert o s = elim (find_first (same_operation o) s.working.capacity_ops) [
  | some _ ↦ (err duplicate_key, s)
  | none ↦
      (ok tt, record s { working = record s.working { capacity_ops = o ∷ s.working.capacity_ops } })
]

abbrev pub or_no_documents : {D : Type 0} → Option D → Result D
or_no_documents none = err no_documents
or_no_documents (some x) = ok x

pub or_no_documents-ok : {D : Type 0} (o : Option D) (x : D) → or_no_documents o ≡ ok x → o ≡ some x
or_no_documents-ok none x h = cc
or_no_documents-ok (some y) x h = cc

pub memory_update_lem :
    (fits : Vessel → Bool) (change : Vessel → Vessel) (s : Store)
    → ((memory_update fits change s).1.committed ≡ s.committed)
      × FoundAndUpdated s.working
          (memory_update fits change s).1.working
          fits
          change
          (memory_update fits change s).0
memory_update_lem fits change s = elim (Option-cases (update_first fits change s.working.vessels)) [
  | inl p ↦ rw (p, memory_update) (refl, λ _. update_first-none fits change s.working.vessels p)
  | inr ((v, vs), p) ↦
      rw (p, memory_update) (refl, (update_first-some fits change s.working.vessels v vs p, refl))
]

pub memory_update_one_lem :
    (fits : Vessel → Bool) (change : Vessel → Vessel) (s : Store)
    → ((memory_update_one fits change s).1.committed ≡ s.committed)
      × Updated s.working
          (memory_update_one fits change s).1.working
          fits
          change
          (memory_update_one fits change s).0
memory_update_one_lem fits change s =
    elim (Option-cases (update_first fits change s.working.vessels)) [
      | inl p ↦ rw (p, memory_update_one) (refl, update_first-none fits change s.working.vessels p)
      | inr ((v, vs), p) ↦
          rw (p, memory_update_one)
            (refl, (v, update_first-some fits change s.working.vessels v vs p, refl))
    ]

pub memory_insert_lem :
    (o : CapacityOperation) (s : Store)
    → ((memory_insert o s).1.committed ≡ s.committed)
      × Inserted s.working (memory_insert o s).1.working o (memory_insert o s).0
memory_insert_lem o s = elim (Option-cases (find_first (same_operation o) s.working.capacity_ops)) [
  | inl p ↦
      rw (p, memory_insert)
        (refl, (find_first-none (same_operation o) s.working.capacity_ops p, refl))
  | inr (x, p) ↦
      rw (p, memory_insert)
        (
          refl,
          λ _.
              Any-map (λ y. (y ≡ x) × (same_operation o y ≡ true)) _ (λ y q. q.1)
                s.working.capacity_ops
                (find_first-some (same_operation o) s.working.capacity_ops x p),
        )
]

-- What is not expired.
unfoldable pub not_expired : ℤ → List CapacityOperation → List CapacityOperation
not_expired t [] = []
not_expired t (o ∷ os) = if is_expired t o then not_expired t os else o ∷ not_expired t os

pub not_expired-Sublist : (t : ℤ) (os : List CapacityOperation) → Sublist (not_expired t os) os
unfolding not_expired
not_expired-Sublist t [] = empty
not_expired-Sublist t (o ∷ os) = elim (Bool-cases (is_expired t o)) [
  | inl p ↦ rw p (skip (not_expired-Sublist t os))
  | inr p ↦ rw p (keep (not_expired-Sublist t os))
]

pub not_expired-Any :
    (t : ℤ) (os : List CapacityOperation) (o : CapacityOperation)
    → Any (λ x. x ≡ o) os
    → is_expired t o ≡ false
    → Any (λ x. x ≡ o) (not_expired t os)
unfolding not_expired
not_expired-Any t [] o h fresh = elim h [ ]
not_expired-Any t (x ∷ os) o (inl h) fresh =
    let p : is_expired t x ≡ false = ap (is_expired t) h ∙ fresh in rw p (inl h)
not_expired-Any t (x ∷ os) o (inr h) fresh = elim (Bool-cases (is_expired t x)) [
  | inl p ↦ rw p (not_expired-Any t os o h fresh)
  | inr p ↦ rw p (inr (not_expired-Any t os o h fresh))
]

abbrev pub memory : Database
memory = record {
  Db = Store;
  committed = λ s. s.committed;
  working = λ s. s.working;
  start_session = λ s. (ok tt, s);
  start_transaction = begin;
  abort_transaction = λ s. (ok tt, s);
  commit_transaction = λ s. (ok tt, record s { committed = s.working });
  find_one_and_update = memory_update;
  update_one = memory_update_one;
  insert_operation = memory_insert;
  find_operation =
      λ r o s. (or_no_documents (find_first (is_operation r o) s.committed.capacity_ops), s);
  find_vessel = λ id s. (or_no_documents (find_first (has_id id) s.committed.vessels), s);
  insert_vessel = λ v s.
      (ok tt, record s { committed = record s.committed { vessels = v ∷ s.committed.vessels } });
  expire = λ t s. record s {
    committed = record s.committed { capacity_ops = not_expired t s.committed.capacity_ops };
  };
  expire_lem = λ t s. (
    refl,
    not_expired-Sublist t s.committed.capacity_ops,
    λ o h fresh. not_expired-Any t s.committed.capacity_ops o h fresh,
  );
  decode = λ x. ok x;
  committed-start_session = λ d. refl;
  committed-start_transaction = λ d. refl;
  committed-abort_transaction = λ d. refl;
  committed-find_one_and_update = λ fits change d. (memory_update_lem fits change d).0;
  committed-update_one = λ fits change d. (memory_update_one_lem fits change d).0;
  committed-insert_operation = λ o d. (memory_insert_lem o d).0;
  committed-find_operation = λ r o d. refl;
  committed-find_vessel = λ id d. refl;
  start_transaction_lem = λ d h. refl;
  find_one_and_update_lem = λ fits change d. (memory_update_lem fits change d).1;
  update_one_lem = λ fits change d. (memory_update_one_lem fits change d).1;
  insert_operation_lem = λ o d. (memory_insert_lem o d).1;
  commit_transaction_ok = λ d h. refl;
  commit_transaction_err = λ d. inr refl;
  find_operation_lem = λ r o d x h.
      find_first-some (is_operation r o) d.committed.capacity_ops x (or_no_documents-ok _ x h);
  find_vessel_lem =
      λ id d v h. find_first-some (has_id id) d.committed.vessels v (or_no_documents-ok _ v h);
  insert_vessel_lem = λ v d. inr refl;
  decode_lem = λ x v h. ok_eq (sym h);
}
