-- ===== src/Limits/Rate.antt =====
-- apps/api/src/lib.ts `limited`: a counter of requests in a fixed window, kept in Redis by the script
-- INCR, and EXPIRE on the first request. A counter that has run out is gone.
use astra_file_host.Base.{
  ℕ, ◌+◌, ◌*◌, Option, none, some, List, [], ◌∷◌, ltb, if◌then◌else◌, Result, ok, err, api_error,
  rate_limited,
}

-- The counter of one key: the requests counted, and when it runs out.
pub record Counter : Type 0 where
  pub count : ℕ
  pub until : ℕ

-- The counter as Redis sees it at a time.
abbrev pub live : ℕ → Option Counter → Option Counter
live now none = none
live now (some c) = if ltb now c.until then some c else none

-- The script: `INCR`, and `EXPIRE` if the answer is 1.
abbrev pub incr : ℕ → ℕ → Option Counter → Counter
incr now seconds none = record { count = 1; until = now + seconds * 1000 }
incr now seconds (some c) = record c { count = c.count + 1 }

unfoldable pub limited : ℕ → ℕ → ℕ → Option Counter → Result (Unit {0}) × Option Counter
limited max seconds now counter =
    let c = incr now seconds (live now counter) in
    (if ltb max c.count then err (api_error 429 rate_limited) else ok tt, some c)

-- The number of the requests, at the given times, that are let through, and the counter after them.
abbrev pub bump : Result (Unit {0}) → ℕ → ℕ
bump (ok _) n = n + 1
bump (err _) n = n

unfoldable pub admitted : ℕ → ℕ → List ℕ → Option Counter → ℕ
admitted max seconds [] counter = 0
admitted max seconds (t ∷ ts) counter =
    bump (limited max seconds t counter).0
      (admitted max seconds ts (limited max seconds t counter).1)
