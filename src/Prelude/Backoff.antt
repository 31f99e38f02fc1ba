-- ===== src/Prelude/Backoff.antt =====
-- `backoff.Retry` of github.com/cenkalti/backoff, which the services call and do not implement.
use Prim.Native.Nat.{ℕ, suc}
use mathlib.Core.Path.{◌≡◌, subst}
use shippy.Prelude.Results.{Error, Result, ok, err, Exec}

-- What a retried call may have done with `n` runs of the operation at most. It ends with the first
-- success; it may stop after any error, since a permanent error and a closed context end it.
pub data Attempts {S A : Type 0} (op : Exec S A) : ℕ → S → Result A → S → Type 0 where
  success : {n : ℕ} {s t : S} {a : A} → op s ≡ (ok a, t) → Attempts op (suc n) s (ok a) t
  give_up : {n : ℕ} {s t : S} {e : Error} → op s ≡ (err e, t) → Attempts op (suc n) s (err e) t
  again :
      {n : ℕ} {s t u : S} {e : Error} {r : Result A}
      → op s ≡ (err e, t)
      → Attempts op n t r u
      → Attempts op (suc n) s r u

pub record Backoff : Type 1 where
  -- `retry n op` stands for `backoff.Retry(op, backoff.WithMaxRetries(…, n))`.
  pub retry : {S A : Type 0} → ℕ → Exec S A → Exec S A
  pub attempts :
      {S A : Type 0} (n : ℕ) (op : Exec S A) (s : S)
      → Attempts op (suc n) s (retry n op s).0 (retry n op s).1

-- A property that every run keeps is kept.
pub Attempts-keeps {ℓ} :
    {S A : Type 0} (op : Exec S A) (P : S → Type ℓ)
    → ((s : S) → P s → P (op s).1)
    → {n : ℕ} {s t : S} {r : Result A} → Attempts op n s r t
    → P s
    → P t
Attempts-keeps op P keep (success {s = s} e) h = subst (λ q. P q.1) e (keep s h)
Attempts-keeps op P keep (give_up {s = s} e) h = subst (λ q. P q.1) e (keep s h)
Attempts-keeps op P keep (again {s = s} e rest) h =
    Attempts-keeps op P keep rest (subst (λ q. P q.1) e (keep s h))

-- A success is the success of one of the runs, from a state that failed runs led to.
pub Attempts-ok {ℓ} :
    {S A : Type 0} (op : Exec S A) (P : S → Type ℓ)
    → ((s : S) → P s → P (op s).1)
    → {n : ℕ} {s t : S} {r : Result A} {a : A} → Attempts op n s r t
    → r ≡ ok a
    → P s
    → (u : S) × P u × (op u ≡ (ok a, t))
Attempts-ok op P keep (success {s = s} {t = t} e) q h = (s, h, subst (λ x. op s ≡ (x, t)) q e)
Attempts-ok op P keep (give_up e) q h = cc
Attempts-ok op P keep (again {s = s} e rest) q h =
    Attempts-ok op P keep rest q (subst (λ x. P x.1) e (keep s h))
