-- ===== src/Uploads/Signing.antt =====
-- What `POST /api/uploads/:id/sign` does: apps/api/src/uploads.ts.
use astra_file_host.Base.{
  ℕ, ◌≡◌, refl, true, false, List, arith, All, length, ltb, subst, ap, Result, ok, err, inl, inr,
  ok-injective, api_error, low_disk, Result-cases, Option-cases, if◌then◌else◌,
}
use astra_file_host.Database.{Upload, uploading}
use astra_file_host.Storage.{ObjectStore}
use astra_file_host.Transaction.{World, Action, settle, tx, then_run, modify, pure, ◌>>=◌, ◌>>◌}
use astra_file_host.Transaction.Laws.{then_run-eq-ok}
use astra_file_host.Limits.{Surroundings, writable, free_floor}
use astra_file_host.Uploads.{owned_upload, update_upload, set_state}
use astra_file_host.Uploads.Sign.{
  PartRequest, is_active, active, sign_parts, sign_locked, sign_upload,
}
use astra_file_host.Uploads.Signed.{IsPlanned, Grows, IsSigned, sign_parts-Grows}

module _ (os : ObjectStore) where
  open os use {Store}

  -- A granted request of an upload.
  pub record Signing (now : ℕ) (u : Upload) (ps : List PartRequest) (w w' : World Store)
      (urls : List ℕ) : Type 0 where
    pub active : is_active u.state ≡ true
    pub unexpired : ltb u.expires_at now ≡ false
    pub rows : Grows u (w.db.parts u.id) (w'.db.parts u.id)
    pub signed : All (IsSigned (w'.db.parts u.id)) ps
    pub count : length urls ≡ length ps

  abbrev pub SignOutcome :
      ℕ → ℕ → ℕ → List PartRequest → World Store → Result (List ℕ) × World Store → Type 0
  SignOutcome now id owner ps w (err e, w') = w'.db ≡ w.db
  SignOutcome now id owner ps w (ok urls, w') =
      (u : Upload) × (owned_upload id owner w.db ≡ ok u) × Signing now u ps w w' urls

  abbrev pub ArePlanned : ℕ → ℕ → World Store → Type 0
  ArePlanned id owner w =
      (u : Upload) → owned_upload id owner w.db ≡ ok u → IsPlanned u (w.db.parts u.id)

  -- What the tests of the session say when they pass.
  active-eq-ok :
      (now session : ℕ) (u : Upload)
      → active now u u.storage_upload_id ≡ ok session
      → (is_active u.state ≡ true) × (ltb u.expires_at now ≡ false)
  active-eq-ok now session u e = elim (Option-cases u.storage_upload_id) [
    | inl absent ↦ absurd (ground arith)
    | inr (s, there) ↦ (ground arith, ground arith)
  ]

  granted :
      (now session id : ℕ) (u : Upload) (ps : List PartRequest) (w w' : World Store) (urls : List ℕ)
      → active now u u.storage_upload_id ≡ ok session
      → IsPlanned u (w.db.parts u.id)
      → (do
        links ← sign_parts os u session ps
        modify (update_upload id (set_state now uploading))
        pure links)
          w
        ≡ (ok urls, w')
      → Signing now u ps w w' urls
  granted now session id u ps w w' urls a planned e =
      let (links, v, run, rest) = then_run-eq-ok (sign_parts os u session ps w) _ urls w' e in
      let (g, signed, count, ups) = sign_parts-Grows os u session ps w v links planned run in
      let rows : v.db.parts u.id ≡ w'.db.parts u.id = ap (λ x. x.1.db.parts u.id) rest in
      let answer : links ≡ urls = ok-injective (ap (λ x. x.0) rest) in
      let (live, soon) = active-eq-ok now session u a in
      record {
        active = live;
        unexpired = soon;
        rows = subst (λ l. Grows u (w.db.parts u.id) l) rows g;
        signed = subst (λ l. All (IsSigned l) ps) rows signed;
        count = subst (λ l. length l ≡ length ps) answer count;
      }

  body_outcome :
      (now id owner : ℕ) (ps : List PartRequest) (w w' : World Store) (urls : List ℕ)
      → ArePlanned id owner w
      → sign_locked os now id owner ps w ≡ (ok urls, w')
      → SignOutcome now id owner ps w (ok urls, w')
  unfolding sign_locked
  body_outcome now id owner ps w w' urls planned e =
      elim (Result-cases (owned_upload id owner w.db)) [
        | inr (f, q) ↦ absurd (ground arith)
        | inl (u, q) ↦ elim (Result-cases (active now u u.storage_upload_id)) [
          | inr (f, k) ↦ absurd (ground arith)
          | inl (session, k) ↦
              (u, q, granted now session id u ps w w' urls k (planned u q) (ground arith))
        ]
      ]

  settle_outcome :
      (now id owner : ℕ) (ps : List PartRequest) (w : World Store)
      (p : Result (List ℕ) × World Store)
      → ((urls : List ℕ) (w' : World Store)
          → p ≡ (ok urls, w')
          → SignOutcome now id owner ps w (ok urls, w'))
      → SignOutcome now id owner ps w (settle w.db p)
  settle_outcome now id owner ps w (ok r, w') h = h r w' refl
  settle_outcome now id owner ps w (err e, w') h = refl

  after_check :
      {A : Type 0} (now id owner : ℕ) (ps : List PartRequest) (w : World Store) (m : Result A)
      (k : A → Action Store (List ℕ))
      → ((a : A) → SignOutcome now id owner ps w (k a w))
      → SignOutcome now id owner ps w (then_run (m, w) k)
  after_check now id owner ps w (ok a) k h = h a
  after_check now id owner ps w (err e) k h = refl

  -- Whatever the storage answers, where the stored parts of the upload have rising numbers and the
  -- planned sizes: a refused request leaves the database as it was; a granted one was for an active,
  -- unexpired upload of the owner, keeps every stored part, and leaves parts with rising numbers and
  -- the planned sizes, among them each requested part with the requested checksum; and it answers one
  -- URL for each requested part.
  pub sign_upload_outcome :
      (at : Surroundings) (rate : Result (Unit {0})) (id owner : ℕ) (ps : List PartRequest)
      (w : World Store)
      → ArePlanned id owner w
      → SignOutcome at.now id owner ps w (sign_upload os at rate id owner ps w)
  unfolding sign_upload tx
  sign_upload_outcome at rate id owner ps w planned = after_check at.now id owner ps w rate _ (λ r.
      after_check at.now id owner ps w (writable w.db) _ (λ policy.
        after_check at.now id owner ps w
          (if ltb at.free_bytes (free_floor policy) then err (api_error 507 low_disk) else ok tt) _
          (λ t.
            settle_outcome at.now id owner ps w (sign_locked os at.now id owner ps w)
              (λ urls w' e. body_outcome at.now id owner ps w w' urls planned e))))
