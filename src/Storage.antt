-- ===== src/Storage.antt =====
-- The interface of packages/storage/index.ts to the object storage (S3). The storage itself is a
-- service outside of the repository: its state and what each call answers are parameters.
use astra_file_host.Base.{ℕ, Result, Option, List}
use astra_file_host.Validation.{StoragePart}

-- The answer of `HeadObject`.
pub record Head : Type 0 where
  pub size : ℕ
  pub etag : ℕ
  pub checksum : Option ℕ

-- `interface ObjectStore`; the calls that change the storage return it. `prefix` reads the first
-- bytes of an object, of which the handlers keep the detected type.
pub record ObjectStore : Type 1 where
  pub Store : Type 0
  pub create : Store → ℕ → Result ℕ × Store
  pub sign_part : Store → ℕ → ℕ → ℕ → ℕ → ℕ → Result ℕ
  pub list_parts : Store → ℕ → Option ℕ → Result (List StoragePart)
  pub complete : Store → ℕ → Option ℕ → List StoragePart → Result (Unit {0}) × Store
  pub abort : Store → ℕ → ℕ → Result (Unit {0}) × Store
  pub remove : Store → ℕ → Result (Unit {0}) × Store
  pub head : Store → ℕ → Result Head
  pub prefix_mime : Store → ℕ → Result ℕ
