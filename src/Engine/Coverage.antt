-- ===== src/Engine/Coverage.antt =====
-- The loop sends every part of the file that the server does not have, and never more than eight at
-- a time.
use astra_file_host.Base.{
  ℕ, zero, suc, ◌%◌, ◌≤◌, ◌<◌, ◌≡◌, refl, true, false, ◌&&◌, ◌||◌, List, [], ◌∷◌, ◌==◌, ltb, length,
  arith, Bool-cases, inl, inr, max, min, ◌∙◌,
}
use astra_file_host.Engine.Scheduler.{
  Run, has, without, start, take_next, may_start, fill, acknowledged, slowed, Step, filled, stored,
  counted, retried, returned, stopped, pause, Reachable, here, later, is_over,
}

-- Between the rounds: every part before `next` is stored or running, unless the transfer is paused;
-- the running parts are within the limit that it began with.
pub record IsSound (r : Run) : Type 0 where
  pub handled :
      r.paused ≡ false → (k : ℕ) → 0 < k → k < r.next → has k r.completed || has k r.running ≡ true
  pub positive : 0 < r.limit
  pub limited : r.limit ≤ r.max_limit
  pub bounded : length r.running ≤ r.max_limit
  pub capped : r.max_limit ≤ 8

take_next-IsSound :
    (count : ℕ) (r : Run) → may_start count r ≡ true → IsSound r → IsSound (take_next r)
take_next-IsSound count r h s = record {
  handled = λ live k pos below. elim (Bool-cases (k == r.next)) [
    | inl same ↦ ground arith
    | inr other ↦ ground (arith, s.handled (ground arith) k pos)
  ];
  positive = ground (arith, s.positive);
  limited = ground (arith, s.limited);
  bounded = ground (arith, s.limited, s.bounded);
  capped = ground (arith, s.capped);
}

fill-IsSound : (fuel count : ℕ) (r : Run) → IsSound r → IsSound (fill fuel count r)
unfolding fill
fill-IsSound zero count r s = s
fill-IsSound (suc fuel) count r s = elim (Bool-cases (may_start count r)) [
  | inl go ↦ rw go (fill-IsSound fuel count (take_next r) (take_next-IsSound count r go s))
  | inr stay ↦ rw stay s
]

length-without : (n : ℕ) (xs : List ℕ) → length (without n xs) ≤ length xs
length-without n [] = omega arith
length-without n (x ∷ xs) = ground (arith, length-without n xs)

has-without : (n k : ℕ) (xs : List ℕ) → (k == n) ≡ false → has k (without n xs) ≡ has k xs
has-without n k [] h = refl
has-without n k (x ∷ xs) h = ground (arith, has-without n k xs h)

acknowledged-IsSound : (r : Run) → IsSound r → IsSound (acknowledged r)
unfolding acknowledged
acknowledged-IsSound r s = elim (Bool-cases (suc r.success % 12 == 0 && ltb r.limit r.max_limit)) [
  | inl up ↦ rw up (record {
    handled = s.handled;
    positive = omega arith;
    limited = ground (arith, s.limited);
    bounded = s.bounded;
    capped = s.capped;
  })
  | inr same ↦ rw same (record {
    handled = s.handled;
    positive = s.positive;
    limited = s.limited;
    bounded = s.bounded;
    capped = s.capped;
  })
]

slowed-IsSound : (r : Run) → IsSound r → IsSound (slowed r)
unfolding slowed
slowed-IsSound r s = record {
  handled = s.handled;
  positive = omega arith;
  limited = omega (arith, s.limited, s.positive);
  bounded = s.bounded;
  capped = s.capped;
}

Step-IsSound : (count : ℕ) (r t : Run) → Step count r t → IsSound r → IsSound t
Step-IsSound count r t filled s = fill-IsSound (suc count) count r s
Step-IsSound count r t (stored n there) s = record {
  handled = λ live k pos below. ground (arith, s.handled live k pos below);
  positive = s.positive;
  limited = s.limited;
  bounded = s.bounded;
  capped = s.capped;
}
Step-IsSound count r t counted s = acknowledged-IsSound r s
Step-IsSound count r t retried s = slowed-IsSound r s
Step-IsSound count r t (returned n why) s = record {
  handled = λ live k pos below. elim (Bool-cases (k == n)) [
    | inl same ↦ ground arith
    | inr other ↦ ground (arith, s.handled live k pos below, has-without n k r.running other)
  ];
  positive = s.positive;
  limited = s.limited;
  bounded = ground (arith, s.bounded, length-without n r.running);
  capped = s.capped;
}
Step-IsSound count r t (stopped n) s = record {
  handled = λ live. ground arith;
  positive = s.positive;
  limited = s.limited;
  bounded = ground (arith, s.bounded, length-without n r.running);
  capped = s.capped;
}
Step-IsSound count r t pause s = record {
  handled = λ live. ground arith;
  positive = s.positive;
  limited = s.limited;
  bounded = s.bounded;
  capped = s.capped;
}

start-IsSound : (limit : ℕ) (completed : List ℕ) → IsSound (start limit completed)
unfolding start
start-IsSound limit completed = record {
  handled = λ live k pos below. absurd (omega (arith, pos, below));
  positive = omega arith;
  limited = omega arith;
  bounded = omega arith;
  capped = omega arith;
}

Reachable-IsSound : (count : ℕ) (r t : Run) → Reachable count r t → IsSound r → IsSound t
Reachable-IsSound count r t here s = s
Reachable-IsSound count r t (later {s = m} before last) s =
    Step-IsSound count m t last (Reachable-IsSound count r m before s)

none_running : (k : ℕ) (xs : List ℕ) → ltb 0 (length xs) ≡ false → has k xs ≡ false
none_running k [] h = refl
none_running k (x ∷ xs) h = ground arith

fill-max_limit : (fuel count : ℕ) (r : Run) → (fill fuel count r).max_limit ≡ r.max_limit
unfolding fill
fill-max_limit zero count r = refl
fill-max_limit (suc fuel) count r = elim (Bool-cases (may_start count r)) [
  | inl go ↦ rw go (ground (arith, fill-max_limit fuel count (take_next r)))
  | inr stay ↦ rw stay refl
]

Step-max_limit : (count : ℕ) (r t : Run) → Step count r t → t.max_limit ≡ r.max_limit
unfolding acknowledged slowed
Step-max_limit count r t filled = fill-max_limit (suc count) count r
Step-max_limit count r t (stored n there) = refl
Step-max_limit count r t counted = ground arith
Step-max_limit count r t retried = refl
Step-max_limit count r t (returned n why) = refl
Step-max_limit count r t (stopped n) = refl
Step-max_limit count r t pause = refl

Reachable-max_limit : (count : ℕ) (r t : Run) → Reachable count r t → t.max_limit ≡ r.max_limit
Reachable-max_limit count r t here = refl
Reachable-max_limit count r t (later {s = m} before last) =
    Step-max_limit count m t last ∙ Reachable-max_limit count r m before

-- Let the server ask for a concurrency. In every state that the upload of a file can reach, the limit is
-- at least one and never above the limit at the start, which is that concurrency brought between one and
-- eight; and the parts being sent are never more than that either.
pub running_bound :
    (count limit : ℕ) (completed : List ℕ) (r : Run)
    → Reachable count (start limit completed) r
    → (length r.running ≤ max 1 (min 8 limit)) × (0 < r.limit) × (r.limit ≤ max 1 (min 8 limit))
unfolding start
running_bound count limit completed r path =
    let s =
      Reachable-IsSound count (start limit completed) r path (start-IsSound limit completed) in
    let same = Reachable-max_limit count (start limit completed) r path in
    (omega (arith, s.bounded, same), s.positive, omega (arith, s.limited, same))

-- When the loop ends and the transfer is not paused, which is when it asks the server to complete the
-- upload, every part of the file has been stored.
pub completion_sound :
    (count limit : ℕ) (completed : List ℕ) (r : Run)
    → Reachable count (start limit completed) r
    → is_over count r ≡ true
    → r.paused ≡ false
    → (k : ℕ) → 0 < k
    → k ≤ count
    → has k r.completed ≡ true
completion_sound count limit completed r path over live k pos below =
    let s =
      Reachable-IsSound count (start limit completed) r path (start-IsSound limit completed) in
    elim (Bool-cases (ltb 0 (length r.running))) [
      | inl busy ↦ absurd (ground arith)
      | inr idle ↦ ground (arith, s.handled live k pos, none_running k r.running)
    ]
