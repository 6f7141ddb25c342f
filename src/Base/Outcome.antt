-- ===== src/Base/Outcome.antt =====
-- The errors that handlers raise (apps/api/src/lib.ts `ApiError`), results, and their `do` blocks.
use Prim.Native.Nat.{ℕ}
use mathlib.Core.Path.{◌≡◌, refl, ap}
use mathlib.Core.Logic.{◌⊎◌, inl, inr}
use mathlib.Core.Bool.{Bool, true, false}
use mathlib.Core.Option.{Option, none, some}

-- The codes of `ApiError`; `request_failed` is the default of its constructor. The message, which
-- no code reads, is left out.
pub data Code : Type 0 where
  request_failed : Code
  part_integrity incomplete_upload object_integrity fingerprint_mismatch : Code
  low_disk upload_concurrency reservation_limit file_quota storage_quota upload_quota : Code
  upload_cooldown read_only rate_limited : Code
  download_concurrency bandwidth_quota : Code
  share_quota share_expired share_session share_password private_share : Code
  version_conflict versions_disabled cloud_cursor : Code
  auth_required account_pending plan_api conflict : Code

-- What a handler may throw: an `ApiError`, a plain `Error` or a rejection by a service.
pub data Failure : Type 0 where
  api_error : ℕ → Code → Failure
  plain_error : Failure
  not_found : Failure
  no_such_upload : Failure
  service_error : Failure

pub data Result {ℓ} (A : Type ℓ) : Type ℓ where
  ok : A → Result A
  err : Failure → Result A

-- `if (c) throw e;`
abbrev pub throw_if : Bool → Failure → Result (Unit {0})
throw_if true e = err e
throw_if false e = ok tt

module _ {ℓ κ} {A : Type ℓ} {B : Type κ} where
  infixl 5 ◌>>=◌
  -- `await` of a call that may throw, and the rest of the handler.
  abbrev pub ◌>>=◌ : Result A → (A → Result B) → Result B
  ok value >>= next = next value
  err e >>= next = err e

  -- What a successful sequence says of its two calls.
  pub >>=-eq-ok :
      (r : Result A) (next : A → Result B) {answer : B}
      → (r >>= next) ≡ ok answer
      → (value : A) × (r ≡ ok value) × (next value ≡ ok answer)
  >>=-eq-ok (ok value) next h = (value, refl, h)
  >>=-eq-ok (err e) next h = cc

-- `requireValue(v)`
abbrev pub require_value {ℓ} : {A : Type ℓ} → Option A → Result A
require_value none = err (api_error 404 request_failed)
require_value (some a) = ok a

infixl 5 ◌>>◌
-- A call of which only the success is of interest.
abbrev pub ◌>>◌ {ℓ} : {B : Type ℓ} → Result (Unit {0}) → Result B → Result B
check >> rest = check >>= λ done. rest

pub Result-cases {ℓ} :
    {A : Type ℓ} (r : Result A) → ((a : A) × (r ≡ ok a)) ⊎ ((e : Failure) × (r ≡ err e))
Result-cases (ok a) = inl (a, refl)
Result-cases (err e) = inr (e, refl)

pub ok-injective {ℓ} : {A : Type ℓ} {a b : A} → ok a ≡ ok b → a ≡ b
ok-injective h = cc

-- A check that was passed, and what follows it.
pub throw_if-eq-ok {ℓ} :
    {A : Type ℓ} (c : Bool) (e : Failure) (rest : Result A) {answer : A}
    → (throw_if c e >> rest) ≡ ok answer
    → (c ≡ false) × (rest ≡ ok answer)
throw_if-eq-ok true e rest h = cc
throw_if-eq-ok false e rest h = (refl, h)

pub require_value-eq-ok {ℓ} :
    {A : Type ℓ} (o : Option A) (a : A) → require_value o ≡ ok a → o ≡ some a
require_value-eq-ok none a h = cc
require_value-eq-ok (some x) a h = ap some (ok-injective h)
