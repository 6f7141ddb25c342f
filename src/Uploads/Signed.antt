-- ===== src/Uploads/Signed.antt =====
-- The signed parts of an upload always belong to its plan, and a signed part is never signed anew
-- with another checksum.
use astra_file_host.Base.{
  ℕ, ◌≤◌, ◌<◌, ◌≡◌, refl, ap, subst, Option, none, some, List, [], ◌∷◌, arith, All, find, ◌==◌, ok,
  inl, inr, length, suc, ok-injective, Result-cases, Option-cases,
}
use astra_file_host.Validation.{expected_part_bytes}
use astra_file_host.Database.{Upload, PartRow}
use astra_file_host.Storage.{ObjectStore}
use astra_file_host.Transaction.{World, pure}
use astra_file_host.Transaction.Laws.{then_run-eq-ok}
use astra_file_host.Uploads.{set_parts}
use astra_file_host.Uploads.Sign.{PartRequest, insert_part, part_row, sign_row, sign_parts}

-- The numbers rise strictly, from above n.
abbrev pub Ascends : ℕ → List PartRow → Type 0
Ascends n [] = Unit
Ascends n (p ∷ ps) = (n < p.number) × Ascends p.number ps

-- The row has the size that the plan gives to its number.
abbrev pub Fits : Upload → PartRow → Type 0
Fits u p = expected_part_bytes u.size u.part_size p.number ≡ ok p.expected_bytes

abbrev pub IsPlanned : Upload → List PartRow → Type 0
IsPlanned u rows = Ascends 0 rows × All (Fits u) rows

insert_part-Ascends :
    (n : ℕ) (p : PartRow) (rows : List PartRow)
    → n < p.number
    → Ascends n rows
    → Ascends n (insert_part p rows)
unfolding insert_part
insert_part-Ascends n p [] h a = (h, tt)
insert_part-Ascends n p (q ∷ qs) h a = ground (arith, insert_part-Ascends q.number p qs)

insert_part-Fits :
    (u : Upload) (p : PartRow) (rows : List PartRow)
    → Fits u p
    → All (Fits u) rows
    → All (Fits u) (insert_part p rows)
unfolding insert_part
insert_part-Fits u p [] h a = (h, tt)
insert_part-Fits u p (q ∷ qs) h a = ground (arith, insert_part-Fits u p qs h a.1)

abbrev pub row_of : ℕ → List PartRow → Option PartRow
row_of k rows = find (λ (x : PartRow). x.number == k) rows

row_of_below : (n k : ℕ) (rows : List PartRow) → Ascends n rows → k ≤ n → row_of k rows ≡ none
row_of_below n k [] a h = refl
row_of_below n k (p ∷ ps) a h = ground (arith, row_of_below p.number k ps)

-- A row that is there stays as it is.
insert_part_keeps :
    (n k : ℕ) (p r : PartRow) (rows : List PartRow)
    → Ascends n rows
    → row_of k rows ≡ some r
    → row_of k (insert_part p rows) ≡ some r
unfolding insert_part
insert_part_keeps n k p r [] a h = cc
insert_part_keeps n k p r (q ∷ qs) a h =
    ground (arith, insert_part_keeps q.number k p r qs a.1, row_of_below q.number k qs a.1)

-- The row of the inserted number is the old one, or the new one where there was none.
row_of-insert_part :
    (n : ℕ) (p : PartRow) (rows : List PartRow)
    → Ascends n rows
    → row_of p.number rows ≡ none
    → row_of p.number (insert_part p rows) ≡ some p
unfolding insert_part
row_of-insert_part n p [] a h = ground arith
row_of-insert_part n p (q ∷ qs) a h = ground (arith, row_of-insert_part q.number p qs a.1)

-- How the rows of an upload may grow: they stay planned, and every row that was there is kept.
pub record Grows (u : Upload) (rows rows' : List PartRow) : Type 0 where
  pub planned : IsPlanned u rows'
  pub kept : (k : ℕ) (r : PartRow) → row_of k rows ≡ some r → row_of k rows' ≡ some r

Grows-trans : (u : Upload) (a b c : List PartRow) → Grows u a b → Grows u b c → Grows u a c
Grows-trans u a b c g h = record { planned = h.planned; kept = λ k r e. h.kept k r (g.kept k r e) }

planned_size-pos :
    (u : Upload) (n : ℕ) {size : ℕ} → expected_part_bytes u.size u.part_size n ≡ ok size → 0 < n
unfolding expected_part_bytes
planned_size-pos u n h = ground arith

-- A round of the loop: the size is the planned one, the rows grow, and the part's own row has the
-- checksum that was asked for.
sign_row-Grows :
    (u : Upload) (p : PartRequest) (rows rows' : List PartRow) (size : ℕ)
    → IsPlanned u rows
    → sign_row u p rows ≡ ok (size, rows')
    → Grows u rows rows'
      × (expected_part_bytes u.size u.part_size p.number ≡ ok size)
      × ((r : PartRow) × (row_of p.number rows' ≡ some r) × (r.checksum ≡ p.checksum))
unfolding sign_row
sign_row-Grows u p rows rows' size (a, f) e =
    elim (Result-cases (expected_part_bytes u.size u.part_size p.number)) [
      | inr (x, q) ↦ absurd (ground arith)
      | inl (n, q) ↦
          let same_rows : rows' ≡ insert_part (part_row p n) rows = ground arith in
          let same_size : size ≡ n = ground arith in
          let pos = planned_size-pos u p.number q in
          rw (same_rows, same_size)
            (
              record {
                planned = (
                  insert_part-Ascends 0 (part_row p n) rows pos a,
                  insert_part-Fits u (part_row p n) rows q f,
                );
                kept = λ k r h. insert_part_keeps 0 k (part_row p n) r rows a h;
              },
              q,
              elim (Option-cases (row_of p.number rows)) [
                | inl new ↦ (part_row p n, row_of-insert_part 0 (part_row p n) rows a new, refl)
                | inr (r, old) ↦ (
                  r,
                  insert_part_keeps 0 p.number (part_row p n) r rows a old,
                  ground (arith, old),
                )
              ],
            )
    ]

-- The row of a requested part has its checksum.
abbrev pub IsSigned : List PartRow → PartRequest → Type 0
IsSigned rows p = (r : PartRow) × (row_of p.number rows ≡ some r) × (r.checksum ≡ p.checksum)

module _ (os : ObjectStore) (u : Upload) (session : ℕ) where
  open os use {Store}

  -- What the loop has done from rows that it began with.
  abbrev pub LoopFrom :
      List PartRow → List PartRequest → World Store → World Store → List ℕ → Type 0
  LoopFrom rows ps w w' urls =
      Grows u rows (w'.db.parts u.id)
      × All (IsSigned (w'.db.parts u.id)) ps
      × (length urls ≡ length ps)
      × (w'.db.uploads ≡ w.db.uploads)

  abbrev pub LoopDone : List PartRequest → World Store → World Store → List ℕ → Type 0
  LoopDone ps w w' urls = LoopFrom (w.db.parts u.id) ps w w' urls

  loop_step :
      (p : PartRequest) (ps : List PartRequest) (w v' w' : World Store) (rows : List PartRow)
      (url : ℕ) (us urls : List ℕ)
      → Grows u (w.db.parts u.id) rows
      → IsSigned rows p
      → LoopFrom rows ps w v' us
      → pure (url ∷ us) v' ≡ (ok urls, w')
      → LoopDone (p ∷ ps) w w' urls
  loop_step p ps w v' w' rows url us urls g (r, there, same) (g', all, count, ups) rest =
      let world : v' ≡ w' = ap (λ x. x.1) rest in
      let answer : url ∷ us ≡ urls = ok-injective (ap (λ x. x.0) rest) in
      subst (λ x. LoopDone (p ∷ ps) w x urls) world
        (subst (λ l. LoopDone (p ∷ ps) w v' l) answer
          (
            Grows-trans u (w.db.parts u.id) rows (v'.db.parts u.id) g g',
            ((r, g'.kept p.number r there, same), all),
            ap suc count,
            ups,
          ))

  pub sign_parts-Grows :
      (ps : List PartRequest) (w w' : World Store) (urls : List ℕ)
      → IsPlanned u (w.db.parts u.id)
      → sign_parts os u session ps w ≡ (ok urls, w')
      → LoopDone ps w w' urls
  unfolding sign_parts
  sign_parts-Grows [] w w' urls h e =
      let same : w ≡ w' = ap (λ x. x.1) e in
      let none_left : [] ≡ urls = ok-injective (ap (λ x. x.0) e) in
      rw (← same, ← none_left) (record { planned = h; kept = λ k r q. q }, tt, refl, refl)
  sign_parts-Grows (p ∷ ps) w w' urls h e = elim (Result-cases (sign_row u p (w.db.parts u.id))) [
    | inr (x, q) ↦ absurd (ground arith)
    | inl ((size, rows), q) ↦
        let v : World Store = record w { db = set_parts u.id rows w.db } in
        let stored : v.db.parts u.id ≡ rows = ground arith in
        elim (Result-cases (os.sign_part w.store u.object_key session p.number size p.checksum)) [
          | inr (x, k) ↦ absurd (ground arith)
          | inl (url, k) ↦
              let (us, v', run, rest) =
                then_run-eq-ok (sign_parts os u session ps v) (λ us. pure (url ∷ us)) urls w'
                  (ground arith) in
              let (g, fits, signed) = sign_row-Grows u p (w.db.parts u.id) rows size h q in
              let later : LoopDone ps v v' us =
                sign_parts-Grows ps v v' us (rw stored g.planned) run in
              loop_step p ps w v' w' rows url us urls g signed (rw stored at later) rest
        ]
  ]
