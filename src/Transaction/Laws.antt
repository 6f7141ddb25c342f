-- ===== src/Transaction/Laws.antt =====
-- Reading a successful run of a transaction backwards, and what a failed one leaves behind.
use astra_file_host.Base.{◌≡◌, refl, Result, ok, err}
use astra_file_host.Transaction.{World, Action, then_run, settle, tx}

module _ {S : Type 0} {A B : Type 0} where
  pub then_run-eq-ok :
      (r : Result A × World S) (f : A → Action S B) (b : B) (w' : World S)
      → then_run r f ≡ (ok b, w')
      → (a : A) × (w : World S) × (r ≡ (ok a, w)) × (f a w ≡ (ok b, w'))
  then_run-eq-ok (ok a, w) f b w' h = (a, w, refl, h)
  then_run-eq-ok (err e, w) f b w' h = cc

module _ {S : Type 0} {A : Type 0} where
  -- A transaction succeeds exactly as its body does.
  pub tx-eq-ok :
      (m : Action S A) (w : World S) (a : A) (w' : World S) → tx m w ≡ (ok a, w') → m w ≡ (ok a, w')
  unfolding tx
  tx-eq-ok m w a w' h = settle-eq-ok (m w) h
    where
      settle-eq-ok : (r : Result A × World S) → settle w.db r ≡ (ok a, w') → r ≡ (ok a, w')
      settle-eq-ok (ok b, v) e = e
      settle-eq-ok (err f, v) e = cc

  pub tx-of-ok :
      (m : Action S A) (w : World S) (a : A) (w' : World S) → m w ≡ (ok a, w') → tx m w ≡ (ok a, w')
  unfolding tx
  tx-of-ok m w a w' h = rw h
