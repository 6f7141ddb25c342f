-- ===== src/Engine/Effort.antt =====
-- What sending a part does to the state of the loop.
use astra_file_host.Base.{
  ℕ, zero, suc, ◌+◌, ◌≤◌, ◌<◌, ◌≡◌, refl, Bool, true, false, ◌||◌, not, ◌∷◌, ◌==◌, if◌then◌else◌,
  arith, Bool-cases, inl, inr, subst,
}
use astra_file_host.Engine.Scheduler.{
  Run, has, acknowledged, slowed, Step, stored, counted, retried, Reachable, here, later,
}
use astra_file_host.Engine.Attempts.{
  Reply, received, refused, Round, interrupted, sent, thrown, Effort, keep_part, backoff, end_with,
  send_rounds, send_part, Promise, Ended, waits, is_retried,
}

prepend : (count : ℕ) (r s t : Run) → Step count r s → Reachable count s t → Reachable count r t
prepend count r s t first here = later here first
prepend count r s t first (later {s = m} before last) =
    later (prepend count r s m first before) last

acknowledged-completed : (r : Run) → (acknowledged r).completed ≡ r.completed
unfolding acknowledged
acknowledged-completed r = ground arith

keep_part-Reachable :
    (count n : ℕ) (r : Run) → has n r.running ≡ true → Reachable count r (keep_part n r)
keep_part-Reachable count n r h = later (later here (stored n h)) counted

keep_part-has : (n : ℕ) (r : Run) → has n (keep_part n r).completed ≡ true
keep_part-has n r =
    rw (acknowledged-completed (record r { completed = n ∷ r.completed })) (ground arith)

slowed-has : (n : ℕ) (r : Run) → has n r.running ≡ true → has n (slowed r).running ≡ true
unfolding slowed
slowed-has n r h = h

waits-suc : (attempt : ℕ) → attempt < 5 → waits attempt + backoff attempt ≡ waits (suc attempt)
waits-suc zero h = refl
waits-suc (suc zero) h = refl
waits-suc (suc (suc zero)) h = refl
waits-suc (suc (suc (suc zero))) h = refl
waits-suc (suc (suc (suc (suc zero)))) h = refl
waits-suc (suc (suc (suc (suc (suc k))))) h = absurd (omega (arith, h))

-- What the later rounds keep to, after one that is retried.
retry_Promise :
    (count n : ℕ) (rounds : ℕ → Round) (r : Run) (attempt : ℕ) (e : Effort)
    → is_retried (rounds attempt) ≡ true
    → Promise count n rounds (slowed r) (suc attempt) e
    → Promise count n rounds r attempt e
retry_Promise count n rounds r attempt e here_retried
      (path, last, from, most, before, retries, waited, why) =
    (
      prepend count r (slowed r) e.run retried path,
      last,
      omega (arith, from),
      most,
      (λ k lo hi. elim (Bool-cases (k == attempt)) [
        | inl same ↦ subst (λ x. is_retried (rounds x) ≡ true) (ground arith) here_retried
        | inr other ↦ before k (ground (arith, lo)) hi
      ]),
      retries,
      waited,
      why,
    )

module _ (count n : ℕ) (rounds : ℕ → Round) (r : Run) (there : has n r.running ≡ true) (attempt : ℕ)
    (most : attempt ≤ 5) where
  -- The round in which it ends.
  last_round :
      (e : Effort)
      → Reachable count r e.run
      → e.retries ≡ attempt
      → e.waited ≡ waits attempt
      → Ended n attempt (rounds attempt) e e.ending
      → Promise count n rounds r attempt e
  last_round e path retries waited why = (
    path,
    attempt,
    omega arith,
    most,
    (λ k lo hi. absurd (omega (arith, lo, hi))),
    retries,
    waited,
    why,
  )

  -- One round, whatever happens in it, given what the later rounds do if it is retried.
  round_Promise :
      (reply : Reply) (before failed : Bool) (rest : Effort) (retries waited : ℕ)
      → (rounds attempt).reply ≡ reply
      → ((rounds attempt).stopped_before || (rounds attempt).stopped_signed) ≡ before
      → (rounds attempt).stopped_failed ≡ failed
      → retries ≡ attempt
      → waited ≡ waits attempt
      → (is_retried (rounds attempt) ≡ true → attempt < 5 → Promise count n rounds r attempt rest)
      → Promise count n rounds r attempt (
          if before then end_with interrupted r retries waited else elim reply [
            | received etag ↦ end_with (sent etag) (keep_part n r) retries waited
            | refused retryable ↦
                if failed
                then end_with interrupted r retries waited
                else if not retryable || attempt == 5
                then end_with thrown (slowed r) retries waited
                else rest
          ])
  round_Promise reply true failed rest retries waited replied stop failing tried slept
        later_rounds =
      last_round (end_with interrupted r retries waited) here tried slept (ground arith)
  round_Promise (received etag) false failed rest retries waited replied go failing tried slept
        later_rounds =
      last_round (end_with (sent etag) (keep_part n r) retries waited)
        (keep_part-Reachable count n r there) tried slept (replied, keep_part-has n r)
  round_Promise (refused retryable) false true rest retries waited replied go failing tried slept
        later_rounds =
      last_round (end_with interrupted r retries waited) here tried slept (ground arith)
  round_Promise (refused false) false false rest retries waited replied go failing tried slept
        later_rounds =
      last_round (end_with thrown (slowed r) retries waited) (later here retried) tried slept
        (false, replied, inl refl)
  round_Promise (refused true) false false rest retries waited replied go failing tried slept
        later_rounds =
      elim (Bool-cases (attempt == 5)) [
        | inl end ↦ rw end (
            last_round (end_with thrown (slowed r) retries waited) (later here retried) tried slept
              (true, replied, inr (ground arith)))
        | inr more ↦ rw more (later_rounds (rw (go, replied, failing) refl) (ground (arith, most)))
      ]

send_rounds-Promise :
    (left attempt count n : ℕ) (rounds : ℕ → Round) (r : Run) (retries waited : ℕ)
    → has n r.running ≡ true
    → attempt + left ≡ 6
    → 0 < left
    → retries ≡ attempt
    → waited ≡ waits attempt
    → Promise count n rounds r attempt (send_rounds left attempt n rounds r retries waited)
unfolding send_rounds
send_rounds-Promise zero attempt count n rounds r retries waited there total some_left tried slept =
    absurd (omega (arith, some_left))
send_rounds-Promise (suc left) attempt count n rounds r retries waited there total some_left tried
      slept =
    round_Promise count n rounds r there attempt (omega (arith, total)) (rounds attempt).reply
      ((rounds attempt).stopped_before || (rounds attempt).stopped_signed)
      (rounds attempt).stopped_failed _ retries waited refl refl refl tried slept
      (λ again below. retry_Promise count n rounds r attempt _ again (
        send_rounds-Promise left (suc attempt) count n rounds (slowed r) (suc retries)
          (waited + backoff attempt) (slowed-has n r there) (omega (arith, total))
          (omega (arith, total, below)) (omega (arith, tried))
          (rw slept (waits-suc attempt below))))

-- Whatever the server, the storage and the user do, sending a running part only takes steps of the
-- loop and ends in one of six attempts, `last`. Every attempt before it failed with an error that may be
-- retried while the transfer was not paused; there are as many retries as those, and the waits are the
-- first so many of 1, 2, 4, 8 and 15 seconds, before the variation of each. In the last attempt the
-- storage answered with the etag and the part is stored; or the transfer was found paused; or the error
-- is thrown on, which may not be retried, or is that of the sixth attempt.
pub send_part-Promise :
    (count n : ℕ) (rounds : ℕ → Round) (r : Run)
    → has n r.running ≡ true
    → Promise count n rounds r 0 (send_part n rounds r)
unfolding send_part
send_part-Promise count n rounds r there =
    send_rounds-Promise 6 0 count n rounds r 0 0 there refl (omega arith) refl refl
