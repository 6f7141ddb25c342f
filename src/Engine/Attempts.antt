-- ===== src/Engine/Attempts.antt =====
-- `UploadEngine.part`: the attempts to send one part, for any sequence of answers and of pauses.
use astra_file_host.Base.{
  ℕ, zero, suc, ◌+◌, ◌≤◌, ◌<◌, ◌⊎◌, ◌*◌, ◌^◌, ◌-◌, ◌≡◌, Bool, true, false, ◌&&◌, ◌||◌, not, ◌∷◌,
  ◌==◌, if◌then◌else◌, min,
}
use astra_file_host.Engine.Scheduler.{Run, has, acknowledged, slowed, Reachable}

-- How the sending of a part ends, once it is signed: with its etag, or with an error that may be
-- retried or not (`TransferFailure.retryable`; other errors are retried).
pub data Reply : Type 0 where
  received : ℕ → Reply
  refused : Bool → Reply

-- One round: whether the transfer is found paused before the part is signed, after it, or once the
-- round has failed; and the reply.
pub record Round : Type 0 where
  pub stopped_before : Bool
  pub stopped_signed : Bool
  pub reply : Reply
  pub stopped_failed : Bool

pub data Ending : Type 0 where
  -- the transfer is paused or cancelled
  interrupted : Ending
  sent : ℕ → Ending
  -- the error is thrown on
  thrown : Ending

-- How it ended, the state, `t.retries` and the milliseconds waited, before they are varied by 30 %.
pub record Effort : Type 0 where
  pub ending : Ending
  pub run : Run
  pub retries : ℕ
  pub waited : ℕ

-- `t.completed[n]=…`, then `r.success++` and the limit.
abbrev pub keep_part : ℕ → Run → Run
keep_part n r = acknowledged (record r { completed = n ∷ r.completed })

-- `Math.min(15000,1000*2**attempt)`
abbrev pub backoff : ℕ → ℕ
backoff attempt = min 15000 (1000 * 2 ^ attempt)

abbrev pub end_with : Ending → Run → ℕ → ℕ → Effort
end_with e r retries waited = record { ending = e; run = r; retries = retries; waited = waited }

-- The rounds that are left, from the given attempt on; of each, what happens.
unfoldable pub send_rounds : ℕ → ℕ → ℕ → (ℕ → Round) → Run → ℕ → ℕ → Effort
send_rounds zero attempt n rounds r retries waited = end_with interrupted r retries waited
send_rounds (suc left) attempt n rounds r retries waited =
    let rest =
      send_rounds left (suc attempt) n rounds (slowed r) (suc retries) (waited + backoff attempt) in
    let round = rounds attempt in
    if round.stopped_before || round.stopped_signed
    then end_with interrupted r retries waited
    else elim round.reply [
      | received etag ↦ end_with (sent etag) (keep_part n r) retries waited
      | refused retryable ↦
          if round.stopped_failed
          then end_with interrupted r retries waited
          else if not retryable || attempt == 5
          then end_with thrown (slowed r) retries waited
          else rest
    ]

-- `for(let attempt=0;attempt<6;attempt++)`
unfoldable pub send_part : ℕ → (ℕ → Round) → Run → Effort
unfolding send_rounds
send_part n rounds r = send_rounds 6 0 n rounds r 0 0

-- A round after which the next one follows: an error that may be retried, and no pause.
abbrev pub is_retried : Round → Bool
is_retried round = not (round.stopped_before || round.stopped_signed) && elim round.reply [
  | received etag ↦ false
  | refused retryable ↦ retryable && not round.stopped_failed
]

abbrev pub is_stopped : Round → Bool
is_stopped round = round.stopped_before || (round.stopped_signed || round.stopped_failed)

-- The milliseconds waited before an attempt: 1, 2, 4, 8 and 15 seconds one after the other.
abbrev pub waits : ℕ → ℕ
waits attempt = min 30000 (1000 * (2 ^ attempt - 1))

-- Why it ended in the attempt `last`, by what happened there.
abbrev pub Ended : ℕ → ℕ → Round → Effort → Ending → Type 0
Ended n last round e interrupted = is_stopped round ≡ true
Ended n last round e (sent etag) = (round.reply ≡ received etag) × (has n e.run.completed ≡ true)
Ended n last round e thrown =
    (retryable : Bool) × (round.reply ≡ refused retryable) × ((retryable ≡ false) ⊎ (last ≡ 5))

abbrev pub Promise : ℕ → ℕ → (ℕ → Round) → Run → ℕ → Effort → Type 0
Promise count n rounds r first e =
    Reachable count r e.run
    × (last : ℕ) × (first ≤ last)
    × (last ≤ 5)
    × ((k : ℕ) → first ≤ k → k < last → is_retried (rounds k) ≡ true)
    × (e.retries ≡ last)
    × (e.waited ≡ waits last)
    × Ended n last (rounds last) e e.ending
