-- ===== src/Prelude/Keeps.antt =====
-- A property of the state that an action keeps, whether it ends in a value or in an error.
use Prim.Native.Nat.{ℕ}
use Prim.Native.String.{String}
use shippy.Prelude.Results.{Error, Result, ok, err, Exec, branch, on_error, with_text, raise, pure}
use shippy.Prelude.Backoff.{Backoff, Attempts-keeps}

module _ {S : Type 0} (P : S → Type 0) where
  abbrev pub Keeps : {A : Type 0} → Exec S A → Type 0
  Keeps m = (s : S) → P s → P (m s).1

  Keeps-branch :
      {A B : Type 0} (r : Result A) (h : Error → Exec S B) (k : A → Exec S B)
      → ((e : Error) → Keeps (h e))
      → ((a : A) → Keeps (k a))
      → Keeps (branch r h k)
  Keeps-branch (ok a) h k kh kk = kk a
  Keeps-branch (err e) h k kh kk = kh e

  pub Keeps-on_error :
      {A B : Type 0} (m : Exec S A) (h : Error → Exec S B) (k : A → Exec S B)
      → Keeps m
      → ((e : Error) → Keeps (h e))
      → ((a : A) → Keeps (k a))
      → Keeps (on_error m h k)
  Keeps-on_error m h k km kh kk s p = Keeps-branch (m s).0 h k kh kk (m s).1 (km s p)

  -- A step after which an error ends the action.
  pub Keeps-bind :
      {A B : Type 0} (m : Exec S A) (k : A → Exec S B)
      → Keeps m
      → ((a : A) → Keeps (k a))
      → Keeps (on_error m raise k)
  Keeps-bind m k km kk = Keeps-on_error m raise k km (λ e s p. p) kk

  pub Keeps-with_text :
      {A : Type 0} (text : String) (m : Exec S A) → Keeps m → Keeps (with_text text m)
  Keeps-with_text text m km = Keeps-on_error m _ pure km (λ e s p. p) (λ a s p. p)

  pub Keeps-retry :
      (backoff : Backoff) {A : Type 0} (n : ℕ) (m : Exec S A) → Keeps m → Keeps (backoff.retry n m)
  Keeps-retry backoff n m km s p = Attempts-keeps m P km (backoff.attempts n m s) p
