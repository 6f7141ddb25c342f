-- ===== src/Engine/Filling.antt =====
-- Which parts the inner loop of `UploadEngine.run` starts.
use astra_file_host.Base.{
  ℕ, zero, suc, ◌+◌, ◌≤◌, ◌≡◌, refl, ap, ◌∙◌, false, ◌&&◌, ◌||◌, not, ◌==◌, ltb, leb, arith, ==_iff,
  Bool-cases, inl, inr,
}
use astra_file_host.Engine.Scheduler.{Run, has, take_next, may_start, fill}

-- What the rounds of the inner loop have started: the parts from `next` on that are not stored.
abbrev pub Started : ℕ → Run → Run → Type 0
Started count r t =
    (may_start count t ≡ false)
    × (r.next ≤ t.next)
    × (t.completed ≡ r.completed)
    × ((k : ℕ)
        → has k t.running
          ≡ has k r.running || (leb r.next k && ltb k t.next && not (has k r.completed)))

take_next-has :
    (r t : Run) (k : ℕ)
    → suc r.next ≤ t.next
    → has k t.running
      ≡ has k (take_next r).running
        || (leb (suc r.next) k && ltb k t.next && not (has k r.completed))
    → has k t.running ≡ has k r.running || (leb r.next k && ltb k t.next && not (has k r.completed))
take_next-has r t k more h = elim (Bool-cases (r.next == k)) [
  | inl same ↦
      let next : r.next ≡ k = (==_iff r.next k).0 same in
      let stored_too : has r.next r.completed ≡ has k r.completed =
        ap (λ x. has x r.completed) next in
      elim (Bool-cases (has r.next r.completed)) [
        | inl done ↦ ground (arith, h, done, stored_too)
        | inr missing ↦ ground (arith, h, missing, stored_too)
      ]
  | inr other ↦ elim (Bool-cases (has r.next r.completed)) [
    | inl done ↦ ground (arith, h, done)
    | inr missing ↦ ground (arith, h, missing)
  ]
]

take_next-completed : (r : Run) → (take_next r).completed ≡ r.completed
take_next-completed r = ground arith

take_next-next : (r : Run) → (take_next r).next ≡ suc r.next
take_next-next r = ground arith

fill-Started :
    (fuel count : ℕ) (r : Run) → suc count ≤ fuel + r.next → Started count r (fill fuel count r)
unfolding fill
fill-Started zero count r h = (ground arith, omega arith, refl, λ k. ground arith)
fill-Started (suc fuel) count r h = elim (Bool-cases (may_start count r)) [
  | inl go ↦ rw go (
      let (over, further, same, new) =
        fill-Started fuel count (take_next r) (omega (arith, h, take_next-next r)) in
      (
        over,
        omega (arith, further, take_next-next r),
        same ∙ take_next-completed r,
        λ k.
            take_next-has r (fill fuel count (take_next r)) k
              (omega (arith, further, take_next-next r))
              (new k
                ∙ (ap
                      (λ n.
                        has k (take_next r).running
                        || (leb n k
                            && ltb k (fill fuel count (take_next r)).next
                            && not (has k (take_next r).completed)))
                      (take_next-next r)
                    ∙ ap
                        (λ xs.
                          has k (take_next r).running
                          || (leb (suc r.next) k
                              && ltb k (fill fuel count (take_next r)).next
                              && not (has k xs)))
                        (take_next-completed r))),
      ))
  | inr stay ↦ rw stay (stay, omega arith, refl, λ k. ground arith)
]

-- A round of the outer loop ends: the rounds that the inner loop is given are enough for every state. It
-- stops only where no more parts may be started; no part that is stored is lost or added; and afterwards
-- exactly these parts are running: those that were, and the parts from the `next` before to the `next`
-- after that are not stored.
pub fill_outcome : (count : ℕ) (r : Run) → Started count r (fill (suc count) count r)
fill_outcome count r = fill-Started (suc count) count r (omega arith)
