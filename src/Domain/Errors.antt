-- ===== src/Domain/Errors.antt =====
-- The errors that internal/domain, internal/store and internal/correlate return and tell apart
-- with `errors.Is` and `errors.As`. `failure` is any other error, such as a broken connection.
use recon_sync.Common.{Text, String, ◌≡◌, ◌⊎◌, inl, inr, refl}
use recon_sync.Domain.Status.{InvalidTransitionError}

pub record ValidationError : Type 0 where
  pub field : String
  pub reason : String

pub record SensitiveDataError : Type 0 where
  pub path : Text
  pub reason : String

pub data Error : Type 0 where
  validation : ValidationError → Error
  sensitive : SensitiveDataError → Error
  unknown_credit_status : Text → Error
  empty_event not_found tenant_mismatch : Error
  illegal : InvalidTransitionError → Error
  failure : Text → Error

-- `(value, error)`.
pub data Result {ℓ} (A : Type ℓ) : Type ℓ where
  ok : A → Result A
  err : Error → Result A

-- A split on a computed result that keeps the equation.
pub Result-cases {ℓ} :
    {A : Type ℓ} (r : Result A) → ((a : A) × (r ≡ ok a)) ⊎ ((e : Error) × (r ≡ err e))
Result-cases (ok a) = inl (a, refl)
Result-cases (err e) = inr (e, refl)
