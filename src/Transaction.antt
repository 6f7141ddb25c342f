-- ===== src/Transaction.antt =====
-- packages/database/index.ts `tx`: handlers over the database and the object storage. A handler
-- returns a result and the new world; a transaction that throws is rolled back in the database, and
-- what it did to the object storage stays.
pub mod Laws
use astra_file_host.Base.{
  ℕ, ◌≡◌, refl, Bool, true, false, Option, none, some, Result, ok, err, Failure, if◌then◌else◌,
}
use astra_file_host.Database.{Db}

pub record World (S : Type 0) : Type 0 where
  pub db : Db
  pub store : S

abbrev pub Action : Type 0 → Type 0 → Type 0
Action S A = World S → Result A × World S

module _ {S : Type 0} where
  abbrev pub pure : {A : Type 0} → A → Action S A
  pure a w = (ok a, w)

  abbrev pub raise : {A : Type 0} → Failure → Action S A
  raise e w = (err e, w)

  abbrev pub then_run : {A B : Type 0} → Result A × World S → (A → Action S B) → Result B × World S
  then_run (ok a, w) f = f a w
  then_run (err e, w) f = (err e, w)

  infixl 5 ◌>>=◌ ◌>>◌
  abbrev pub ◌>>=◌ : {A B : Type 0} → Action S A → (A → Action S B) → Action S B
  ◌>>=◌ m f w = then_run (m w) f

  abbrev pub ◌>>◌ : {B : Type 0} → Action S (Unit {0}) → Action S B → Action S B
  m >> k = m >>= λ _. k

  abbrev pub raise_if : Bool → Failure → Action S (Unit {0})
  raise_if c e w = (if c then err e else ok tt, w)

  -- A value computed elsewhere, thrown on if it is an error.
  abbrev pub lift : {A : Type 0} → Result A → Action S A
  lift r w = (r, w)

  -- A query.
  abbrev pub gets : {A : Type 0} → (Db → Result A) → Action S A
  gets f w = (f w.db, w)

  -- An update.
  abbrev pub modify : (Db → Db) → Action S (Unit {0})
  modify f w = (ok tt, record w { db = f w.db })

  -- A call of the object storage that only reads.
  abbrev pub asks : {A : Type 0} → (S → Result A) → Action S A
  asks f w = (f w.store, w)

  -- A call of the object storage that changes it.
  abbrev pub calls : {A : Type 0} → (S → Result A × S) → Action S A
  calls f w = let (r, s) = f w.store in (r, record w { store = s })

  -- `BEGIN`, the body, then `COMMIT`, or `ROLLBACK` and the same error.
  abbrev pub settle : {A : Type 0} → Db → Result A × World S → Result A × World S
  settle before (ok a, w) = (ok a, w)
  settle before (err e, w) = (err e, record w { db = before })

  unfoldable pub tx : {A : Type 0} → Action S A → Action S A
  tx m w = settle w.db (m w)
