-- ===== src/Prelude/Dict.antt =====
-- A Go map with string keys, as an association list.
use Prim.Native.String.{String}
use mathlib.Core.Path.{◌≡◌, refl}
use mathlib.Core.Logic.{◌≢◌, ◌⊎◌}
use mathlib.Core.Option.{Option, none, some}
use mathlib.Core.List.{List, [], ◌∷◌}
use native.Mathlib.Omega.{arith}
use text.Mathlib.Text.{◌==◌}
use text.Mathlib.TextEquality.{eq_iff}
use shippy.Prelude.Tests.{if◌then◌else◌}

abbrev pub Dict {ℓ} : Type ℓ → Type ℓ
Dict V = List (String × V)

module _ {ℓ} {V : Type ℓ} where
  unfoldable pub lookup : String → Dict V → Option V
  lookup key [] = none
  lookup key ((name, value) ∷ rest) = if name == key then some value else lookup key rest

  -- An assignment keeps the place of a key that is there.
  unfoldable pub insert : String → V → Dict V → Dict V
  insert key new [] = (key, new) ∷ []
  insert key new ((name, old) ∷ rest) =
      if name == key then (key, new) ∷ rest else (name, old) ∷ insert key new rest

  pub lookup-insert :
      (key other : String) (new : V) (entries : Dict V)
      → lookup other (insert key new entries)
        ≡ (if key == other then some new else lookup other entries)
  unfolding insert lookup
  lookup-insert key other new [] = refl
  lookup-insert key other new ((name, old) ∷ rest) =
      let ih = lookup-insert key other new rest in
      ground (ih, eq_iff name other, eq_iff name key, eq_iff key other, arith)

  pub lookup-insert_self :
      (key : String) (new : V) (entries : Dict V) → lookup key (insert key new entries) ≡ some new
  lookup-insert_self key new entries =
      ground (lookup-insert key key new entries, eq_iff key key, arith)

  pub lookup-insert_ne :
      (key other : String) (new : V) (entries : Dict V)
      → key ≢ other
      → lookup other (insert key new entries) ≡ lookup other entries
  lookup-insert_ne key other new entries differ =
      ground (lookup-insert key other new entries, eq_iff key other, arith)

-- The keys in the order of the entries.
unfoldable pub keys {ℓ} : {V : Type ℓ} → Dict V → List String
keys [] = []
keys ((k, v) ∷ m) = k ∷ keys m

-- `k` is one of the list.
abbrev pub Has : String → List String → Type 0
Has k [] = ⊥
Has k (j ∷ ks) = (j ≡ k) ⊎ Has k ks
