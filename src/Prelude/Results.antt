-- ===== src/Prelude/Results.antt =====
-- Go's `(value, error)` results, and handlers as state passing: what was written before an error
-- stays written, so the state comes back beside the error too.
use Prim.Native.String.{String}
use mathlib.Core.Path.{◌≡◌, refl}
use mathlib.Core.Logic.{◌⊎◌, inl, inr}
use mathlib.Core.Bool.{Bool, true, false}

-- The gRPC status codes that the services return.
pub data Code : Type 0 where
  not_found internal failed_precondition unauthenticated : Code

-- The errors that callers tell apart, any other error by its text, and `%w` wrapping.
pub data Error : Type 0 where
  status : Code → Error
  redis_nil no_documents duplicate_key no_vessel_available : Error
  broker_unreachable context_canceled deadline_exceeded : Error
  errorf : String → Error
  wrap : String → Error → Error

-- `errors.Is(err, …)`, which looks through the wrapping.
abbrev pub is_redis_nil : Error → Bool
is_redis_nil redis_nil = true
is_redis_nil (wrap _ e) = is_redis_nil e
is_redis_nil _ = false

abbrev pub is_no_documents : Error → Bool
is_no_documents no_documents = true
is_no_documents (wrap _ e) = is_no_documents e
is_no_documents _ = false

abbrev pub is_no_vessel_available : Error → Bool
is_no_vessel_available no_vessel_available = true
is_no_vessel_available (wrap _ e) = is_no_vessel_available e
is_no_vessel_available _ = false

-- `mongo.IsDuplicateKeyError(err)`
abbrev pub is_duplicate_key : Error → Bool
is_duplicate_key duplicate_key = true
is_duplicate_key (wrap _ e) = is_duplicate_key e
is_duplicate_key _ = false

-- `status.FromError(err)` with the code `NotFound`.
abbrev pub is_not_found : Error → Bool
is_not_found (status not_found) = true
is_not_found (wrap _ e) = is_not_found e
is_not_found _ = false

-- `errors.Is(err, kafka.ErrBrokerUnreachable)`
abbrev pub is_broker_unreachable : Error → Bool
is_broker_unreachable broker_unreachable = true
is_broker_unreachable (wrap _ e) = is_broker_unreachable e
is_broker_unreachable _ = false

-- `errors.Is(err, context.Canceled) || errors.Is(err, context.DeadlineExceeded)`
abbrev pub is_context_ended : Error → Bool
is_context_ended context_canceled = true
is_context_ended deadline_exceeded = true
is_context_ended (wrap _ e) = is_context_ended e
is_context_ended _ = false

pub data Result {ℓ} (A : Type ℓ) : Type ℓ where
  ok : A → Result A
  err : Error → Result A

abbrev pub ⊤ : Type 0
⊤ = Unit

abbrev pub Exec : Type 0 → Type 0 → Type 0
Exec S A = S → Result A × S

module _ {S A : Type 0} where
  abbrev pub pure : A → Exec S A
  pure a s = (ok a, s)

  abbrev pub raise : Error → Exec S A
  raise e s = (err e, s)

  abbrev pub lift : Result A → Exec S A
  lift r s = (r, s)

module _ {S A B : Type 0} where
  -- `if err != nil { … }`: goes on from the result by one of two continuations.
  abbrev pub branch : Result A → (Error → Exec S B) → (A → Exec S B) → Exec S B
  branch (ok a) h k = k a
  branch (err e) h k = h e

  abbrev pub on_error : Exec S A → (Error → Exec S B) → (A → Exec S B) → Exec S B
  on_error m h k s = branch (m s).0 h k (m s).1

  infixl 5 ◌>>=◌ ◌>>◌
  abbrev pub ◌>>=◌ : Exec S A → (A → Exec S B) → Exec S B
  m >>= k = on_error m raise k

  abbrev pub ◌>>◌ : Exec S A → Exec S B → Exec S B
  m >> k = m >>= λ _. k

-- The error is only logged, or its text is only added to.
module _ {S A : Type 0} where
  abbrev pub ignore : Exec S A → Exec S ⊤
  ignore m s = (ok tt, (m s).1)

  abbrev pub with_text : String → Exec S A → Exec S A
  with_text text m = on_error m (λ e. raise (wrap text e)) pure

abbrev pub is_ok {ℓ} : {A : Type ℓ} → Result A → Bool
is_ok (ok _) = true
is_ok (err _) = false

pub Result-cases {ℓ} :
    {A : Type ℓ} (r : Result A) → ((a : A) × (r ≡ ok a)) ⊎ ((e : Error) × (r ≡ err e))
Result-cases (ok a) = inl (a, refl)
Result-cases (err e) = inr (e, refl)

pub ok_eq {ℓ} : {A : Type ℓ} {a b : A} → ok a ≡ ok b → a ≡ b
ok_eq h = cc

-- The text changes neither a success nor the state.
module _ {S A : Type 0} (text : String) where
  with_text-branch :
      (r : Result A) (s : S)
      → let b = branch r (λ e. raise (wrap text e)) pure s in
        (b.1 ≡ s) × ((a : A) → b.0 ≡ ok a → r ≡ ok a)
  with_text-branch (ok a) s = (refl, λ b h. h)
  with_text-branch (err e) s = (refl, λ b h. cc)

  pub with_text-state : (m : Exec S A) (s : S) → (with_text text m s).1 ≡ (m s).1
  with_text-state m s = (with_text-branch (m s).0 (m s).1).0

  pub with_text-ok : (m : Exec S A) (s : S) (a : A) → (with_text text m s).0 ≡ ok a → (m s).0 ≡ ok a
  with_text-ok m s a h = (with_text-branch (m s).0 (m s).1).1 a h
