-- ===== src/Engine/Transfers/Single.antt =====
-- The transfers of apps/web/src/upload/engine.ts, one file at a time and the account's own: what the
-- changes of a transfer, a pause and the start of a loop keep.
use astra_file_host.Base.{
  ℕ, ◌≤◌, ◌≡◌, refl, ap, sym, subst, ◌∙◌, inl, inr, Bool, true, false, not, Option, none, some,
  List, [], ◌∷◌, ◌==◌, select, update_where, count_where, sum_where-update_where, arith, Bool-cases,
  if◌then◌else◌,
}
use astra_file_host.Engine.Transfers.{
  Transfer, Runtime, UploadEngine, transfer_of, runtime_of, update_transfer, update_runtime,
  persist_found, pause, pause_found, pause_runtime, pause_all, same_owner, is_there,
}
use astra_file_host.Engine.Transfers.Running.{other_running, start_found, start_run}

-- How many runtimes run, and how many transfers are of another account.
abbrev pub running_runtimes : UploadEngine → ℕ
running_runtimes e = count_where (λ (r : Runtime). r.running) e.runtimes

abbrev pub foreign_transfers : UploadEngine → ℕ
foreign_transfers e =
    count_where (λ (t : Transfer). not (same_owner t.owner_id e.owner_id)) e.transfers

pub record IsSound (e : UploadEngine) : Type 0 where
  pub single : running_runtimes e ≤ 1
  pub own : foreign_transfers e ≡ 0

pub count-select {ℓ} :
    {A : Type ℓ} (p q : A → Bool) (xs : List A) → count_where p (select q xs) ≤ count_where p xs
count-select p q [] = omega arith
count-select p q (x ∷ xs) = ground (arith, count-select p q xs)

pub update_runtime-IsSound :
    (id : ℕ) (f : Runtime → Runtime) (e : UploadEngine)
    → ((r : Runtime) → (if (f r).running then 1 else 0) ≤ (if r.running then 1 else 0))
    → IsSound e
    → IsSound (update_runtime id f e)
update_runtime-IsSound id f e keep h = record {
  single = omega (arith, h.single, fewer e.runtimes);
  own = h.own;
}
  where
    fewer :
        (rs : List Runtime)
        → count_where (λ (r : Runtime). r.running) (update_where (λ r. r.id == id) f rs)
          ≤ count_where (λ (r : Runtime). r.running) rs
    fewer [] = omega arith
    fewer (r ∷ rs) = ground (arith, keep r, fewer rs)

pub update_transfer-IsSound :
    (id : ℕ) (f : Transfer → Transfer) (e : UploadEngine)
    → ((t : Transfer) → (f t).owner_id ≡ t.owner_id)
    → IsSound e
    → IsSound (update_transfer id f e)
update_transfer-IsSound id f e keep h = record {
  single = h.single;
  own =
      sum_where-update_where (λ (t : Transfer). not (same_owner t.owner_id e.owner_id))
        (λ t. t.object == id) (λ t. 1) f e.transfers
        (λ t. ap (λ o. if not (same_owner o e.owner_id) then 1 else 0) (keep t))
      ∙ h.own;
}

pub persist_found-IsSound :
    (o : Option Transfer) (e : UploadEngine) → IsSound e → IsSound (persist_found o e)
persist_found-IsSound none e h = h
persist_found-IsSound (some t) e h = record { single = h.single; own = h.own }

pub if-IsSound :
    (b : Bool) (e f : UploadEngine) → IsSound e → IsSound f → IsSound (if b then e else f)
if-IsSound true e f h k = h
if-IsSound false e f h k = k

pause_found-IsSound :
    (o : Option Transfer) (id : ℕ) (e : UploadEngine) → IsSound e → IsSound (pause_found o id e)
pause_found-IsSound none id e h = h
pause_found-IsSound (some t) id e h =
    if-IsSound (is_there (runtime_of id e)) _ e
      (persist_found-IsSound _ _ (
        update_transfer-IsSound t.object _ _ (λ t. refl)
          (update_runtime-IsSound id pause_runtime e (λ r. omega arith) h)))
      h

pub pause-IsSound : (id : ℕ) (e : UploadEngine) → IsSound e → IsSound (pause id e)
unfolding pause
pause-IsSound id e h = pause_found-IsSound (transfer_of id e) id e h

pub pause_all-IsSound :
    (ts : List Transfer) (e : UploadEngine) → IsSound e → IsSound (pause_all ts e)
pause_all-IsSound [] e h = h
pause_all-IsSound (t ∷ ts) e h = pause_all-IsSound ts (pause t.id e) (pause-IsSound t.id e h)

none_running :
    (id : ℕ) (rs : List Runtime)
    → other_running id rs ≡ false
    → count_where (λ (r : Runtime). r.running) (select (λ x. not (x.id == id)) rs) ≡ 0
none_running id [] h = refl
none_running id (r ∷ rs) h = ground (arith, h, none_running id rs)

pub if_true {ℓ} : {A : Type ℓ} (b : Bool) (x y : A) → b ≡ true → (if b then x else y) ≡ x
if_true true x y h = refl
if_true false x y h = cc

pub if_false {ℓ} : {A : Type ℓ} (b : Bool) (x y : A) → b ≡ false → (if b then x else y) ≡ y
if_false true x y h = cc
if_false false x y h = refl

start_found-IsSound :
    (o : Option Runtime) (t : Transfer) (e : UploadEngine) → IsSound e → IsSound (start_found o t e)
start_found-IsSound none t e h = h
start_found-IsSound (some r) t e h =
    if-IsSound r.running e _ h (elim (Bool-cases (other_running t.id e.runtimes)) [
      | inl busy ↦
          subst IsSound (sym (if_true _ _ _ busy))
            (update_transfer-IsSound t.object _ e (λ t. refl) h)
      | inr idle ↦ subst IsSound (sym (if_false _ _ _ idle)) (
          update_transfer-IsSound t.object _ _ (λ t. refl)
            (record { single = omega (arith, none_running t.id e.runtimes idle); own = h.own }))
    ])

pub start_run-IsSound : (t : Transfer) (e : UploadEngine) → IsSound e → IsSound (start_run t e)
unfolding start_run
start_run-IsSound t e h = start_found-IsSound (runtime_of t.id e) t e h
