-- ===== src/Jobs/Queue.antt =====
-- What the queue of background jobs keeps.
use astra_file_host.Base.{
  ℕ, ◌+◌, ◌≤◌, ◌≡◌, refl, Bool, true, false, ◌&&◌, Option, none, some, List, [], ◌∷◌, ◌==◌, arith,
  if◌then◌else◌, find, update_where, count_where, Bool-cases, Option-cases, inl, inr, find-holds,
  ◌⊎◌, sum_where-update_where,
}
use astra_file_host.Database.{JobKind, Job, hash, pending, completed, failed}
use astra_file_host.Jobs.{
  same_kind, is_job, is_finished, requeue, enqueue_row, is_due, is_urgent, next_job, run_job, mark,
  claim, restart, is_running, QueueStep, reset_job, is_failed, enqueued, retried, claimed,
  succeeded, broken, restarted, Evolves, unchanged, onwards,
}

same_kind_refl : (a : JobKind) → same_kind a a ≡ true
same_kind_refl a = ground arith

same_kind_eq : (a b : JobKind) → same_kind a b ≡ true → a ≡ b
same_kind_eq a b h = ground arith

-- `(kind, target)` is unique.
abbrev pub IsKeyed : List Job → Type 0
IsKeyed js = (kind : JobKind) (target : ℕ) → count_where (is_job kind target) js ≤ 1

requeue_waits : (now : ℕ) (j : Job) → is_finished (requeue now j).status ≡ false
requeue_waits now j = ground arith

requeue_keeps :
    (now : ℕ) (k : JobKind) (t : ℕ) (j : Job) → is_job k t (requeue now j) ≡ is_job k t j
requeue_keeps now k t j = ground arith

-- An enqueued job is in the queue, and neither completed nor failed.
pub enqueue_row_waits :
    (now : ℕ) (kind : JobKind) (target : ℕ) (js : List Job)
    → (j : Job) × (find (is_job kind target) (enqueue_row now kind target js) ≡ some j)
      × (is_finished j.status ≡ false)
unfolding enqueue_row
enqueue_row_waits now kind target [] = (
  record { kind = kind; target = target; status = pending; attempts = 0; updated_at = now },
  ground (arith, same_kind_refl kind),
  refl,
)
enqueue_row_waits now kind target (x ∷ xs) = elim (Bool-cases (is_job kind target x)) [
  | inl here ↦ (requeue now x, ground arith, requeue_waits now x)
  | inr other ↦
      let (j, found, waits) = enqueue_row_waits now kind target xs in (j, ground arith, waits)
]

count-enqueue_row :
    (now : ℕ) (kind k : JobKind) (target t : ℕ) (js : List Job)
    → (count_where (is_job k t) (enqueue_row now kind target js) ≡ count_where (is_job k t) js)
      ⊎ ((count_where (is_job kind target) js ≡ 0)
          × (count_where (is_job k t) (enqueue_row now kind target js)
              ≡ count_where (is_job k t) js + (if same_kind kind k && target == t then 1 else 0)))
unfolding enqueue_row
count-enqueue_row now kind k target t [] = inr (refl, ground arith)
count-enqueue_row now kind k target t (x ∷ xs) = elim (Bool-cases (is_job kind target x)) [
  | inl here ↦ inl (ground (arith, requeue_keeps now k t x))
  | inr other ↦ elim (count-enqueue_row now kind k target t xs) [
    | inl same ↦ inl (ground (arith, same))
    | inr (none_yet, more) ↦ inr (ground (arith, none_yet), ground (arith, more))
  ]
]

enqueue_row-IsKeyed :
    (now : ℕ) (kind : JobKind) (target : ℕ) (js : List Job)
    → IsKeyed js
    → IsKeyed (enqueue_row now kind target js)
enqueue_row-IsKeyed now kind target js h k t = elim (count-enqueue_row now kind k target t js) [
  | inl same ↦ rw same (h k t)
  | inr (none_yet, more) ↦ elim (Bool-cases (same_kind kind k && target == t)) [
    | inl hit ↦ ground (arith, more, none_yet, same_kind_eq kind k)
    | inr miss ↦ ground (arith, more, h k t)
  ]
]

count-update :
    (k : JobKind) (t : ℕ) (q : Job → Bool) (f : Job → Job) (js : List Job)
    → ((j : Job) → is_job k t (f j) ≡ is_job k t j)
    → count_where (is_job k t) (update_where q f js) ≡ count_where (is_job k t) js
count-update k t q f js keep =
    sum_where-update_where (is_job k t) q (λ j. 1) f js (λ j. rw (keep j) refl)

claim-IsKeyed : (now : ℕ) (js : List Job) → IsKeyed js → IsKeyed (claim now js).1
unfolding claim
claim-IsKeyed now js h k t = elim (Option-cases (next_job now js)) [
  | inl idle ↦ rw idle (h k t)
  | inr (j, found) ↦
      rw (found, count-update k t (is_job j.kind j.target) (run_job now) js (λ x. refl)) (h k t)
]

QueueStep-IsKeyed : (js ks : List Job) → QueueStep js ks → IsKeyed js → IsKeyed ks
unfolding claim restart
QueueStep-IsKeyed js ks (enqueued now kind target) h = enqueue_row-IsKeyed now kind target js h
QueueStep-IsKeyed js ks (retried now kind target) h = λ k t.
    rw
      (count-update k t (λ j. is_job kind target j && is_failed j.status) (reset_job now) js
        (λ x. refl))
      (h k t)
QueueStep-IsKeyed js ks (claimed now) h = claim-IsKeyed now js h
QueueStep-IsKeyed js ks (succeeded now j) h = λ k t.
    rw (count-update k t (is_job j.kind j.target) (mark now completed) js (λ x. refl)) (h k t)
QueueStep-IsKeyed js ks (broken now j) h =
    λ k t. rw (count-update k t (is_job j.kind j.target) (mark now failed) js (λ x. refl)) (h k t)
QueueStep-IsKeyed js ks (restarted now) h = λ k t.
    rw (count-update k t (λ j. is_running j.status) (mark now pending) js (λ x. refl)) (h k t)

-- However requests, retries and the worker, with its restarts, take turns on the queue: if each kind and target
-- has at most one job at first, so it has afterwards.
pub Evolves-IsKeyed : (js ks : List Job) → Evolves js ks → IsKeyed js → IsKeyed ks
Evolves-IsKeyed js ks unchanged h = h
Evolves-IsKeyed js ks (onwards {ks = ms} before last) h =
    QueueStep-IsKeyed ms ks last (Evolves-IsKeyed js ms before h)

abbrev pub ClaimOutcome : ℕ → List Job → Option Job × List Job → Type 0
ClaimOutcome now js (none, ks) = (ks ≡ js) × (find (is_due now) js ≡ none)
ClaimOutcome now js (some r, ks) =
    (j : Job) × (r ≡ run_job now j)
    × (is_due now j ≡ true)
    × ((same_kind j.kind hash ≡ false) ⊎ (find (is_urgent now) js ≡ none))
    × (ks ≡ update_where (is_job j.kind j.target) (run_job now) js)

-- A claim answers nothing, and changes nothing, only if no job is due. A claimed job was due, and was
-- one of hashing only if nothing else was due; it is handed out and stored as running, with one attempt
-- more, and no other job changes.
pub claim_outcome : (now : ℕ) (js : List Job) → ClaimOutcome now js (claim now js)
unfolding claim next_job
claim_outcome now js = elim (Option-cases (find (is_urgent now) js)) [
  | inr (j, found) ↦ rw found (
    j,
    refl,
    ground (arith, find-holds (is_urgent now) js j found),
    inl (ground (arith, find-holds (is_urgent now) js j found)),
    refl,
  )
  | inl calm ↦ elim (Option-cases (find (is_due now) js)) [
    | inr (j, found) ↦
        rw (calm, found) (j, refl, find-holds (is_due now) js j found, inr calm, refl)
    | inl idle ↦ rw (calm, idle) (refl, idle)
  ]
]
