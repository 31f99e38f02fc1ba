-- ===== src/Prelude/Collection.antt =====
-- The documents of a database collection as a list, and the effect of an update of one of them.
use mathlib.Core.Path.{◌≡◌, subst, sym}
use mathlib.Core.Logic.{◌⊎◌, inl, inr}
use mathlib.Core.Bool.{Bool, true, false}
use mathlib.Core.List.{List, [], ◌∷◌}
use native.Mathlib.Omega.{arith}
use shippy.Prelude.Int.{ℤ, pos, ◌+ℤ◌, int_laws}

module _ {D : Type 0} where
  abbrev pub All : (D → Type 0) → List D → Type 0
  All P [] = Unit
  All P (x ∷ xs) = P x × All P xs

  abbrev pub Any : (D → Type 0) → List D → Type 0
  Any P [] = ⊥
  Any P (x ∷ xs) = P x ⊎ Any P xs

  -- One document that fits the filter is replaced: it was at some place, and reads `v` now.
  pub data Updates (fits : D → Bool) (change : D → D) : List D → D → List D → Type 0 where
    here :
        {x v : D} {xs : List D}
        → fits x ≡ true
        → v ≡ change x
        → Updates fits change (x ∷ xs) v (v ∷ xs)
    later :
        {x v : D} {xs ys : List D}
        → Updates fits change xs v ys
        → Updates fits change (x ∷ xs) v (x ∷ ys)

  module _ {fits : D → Bool} {change : D → D} where
    -- A property of every document is kept, and the changed one has it.
    pub Updates-All :
        (P : D → Type 0)
        → ((x : D) → fits x ≡ true → P x → P (change x))
        → {xs ys : List D} {v : D} → Updates fits change xs v ys
        → All P xs
        → All P ys × P v
    Updates-All P keep (here {x = x} h e) (p, ps) =
        let q = keep x h p in ((subst P (sym e) q, ps), subst P (sym e) q)
    Updates-All P keep (later u) (p, ps) = let (qs, q) = Updates-All P keep u ps in ((p, qs), q)

    -- The documents that fit the filter are among those there.
    pub Updates-Any :
        {xs ys : List D} {v : D} → Updates fits change xs v ys → Any (λ x. fits x ≡ true) xs
    Updates-Any (here h e) = inl h
    Updates-Any (later u) = inr (Updates-Any u)

  pub Any-map : (P Q : D → Type 0) → ((x : D) → P x → Q x) → (xs : List D) → Any P xs → Any Q xs
  Any-map P Q f [] h = h
  Any-map P Q f (x ∷ xs) (inl p) = inl (f x p)
  Any-map P Q f (x ∷ xs) (inr t) = inr (Any-map P Q f xs t)

  pub All-not-Any :
      (fits : D → Bool) (xs : List D)
      → All (λ x. fits x ≡ false) xs
      → Any (λ x. fits x ≡ true) xs
      → ⊥
  All-not-Any fits (x ∷ xs) (h, hs) (inl t) = ground arith
  All-not-Any fits (x ∷ xs) (h, hs) (inr t) = All-not-Any fits xs hs t
  All-not-Any fits [] h t = t

-- The sum of a number over the documents.
abbrev pub total : {D : Type 0} → (D → ℤ) → List D → ℤ
total f [] = pos 0
total f (x ∷ xs) = f x +ℤ total f xs

-- Where the change adds the same amount to whatever document fits, an update adds it to the sum.
pub Updates-total :
    {D : Type 0} {fits : D → Bool} {change : D → D} (f : D → ℤ) (k : ℤ)
    → ((x : D) → f (change x) ≡ f x +ℤ k)
    → {xs ys : List D} {v : D} → Updates fits change xs v ys
    → total f ys ≡ total f xs +ℤ k
Updates-total f k by (here {x = x} {xs = xs} h e) = rw (e, by x) (omega int_laws)
Updates-total f k by (later {x = x} u) = rw (Updates-total f k by u) (omega int_laws)

-- Some of the elements, in their order.
pub data Sublist {ℓ} {A : Type ℓ} : List A → List A → Type ℓ where
  empty : Sublist [] []
  keep : {x : A} {xs ys : List A} → Sublist xs ys → Sublist (x ∷ xs) (x ∷ ys)
  skip : {x : A} {xs ys : List A} → Sublist xs ys → Sublist xs (x ∷ ys)

pub Sublist-none {ℓ} : {A : Type ℓ} (xs : List A) → Sublist [] xs
Sublist-none [] = empty
Sublist-none (x ∷ xs) = skip (Sublist-none xs)
