-- ===== src/Engine/Scheduler.antt =====
-- `UploadEngine.runtime` and the loop of `UploadEngine.run`, with the events of its running parts
-- (`UploadEngine.part`, `UploadEngine.pause`) as steps.
use astra_file_host.Base.{
  ℕ, zero, suc, ◌-◌, ◌%◌, ◌≡◌, Bool, true, false, ◌&&◌, ◌||◌, not, List, [], ◌∷◌, ◌==◌, ltb, leb,
  min, max, if◌then◌else◌, length,
}

-- The part of the state of a transfer and of its `Runtime` that the loop reads: `next`, the parts in
-- `running`, the keys of `completed`, and the limit.
pub record Run : Type 0 where
  pub next : ℕ
  pub running : List ℕ
  pub completed : List ℕ
  pub limit : ℕ
  pub max_limit : ℕ
  pub success : ℕ
  pub paused : Bool

abbrev pub has : ℕ → List ℕ → Bool
has n [] = false
has n (x ∷ xs) = x == n || has n xs

abbrev pub without : ℕ → List ℕ → List ℕ
without n [] = []
without n (x ∷ xs) = let rest = without n xs in if x == n then rest else x ∷ rest

-- `Math.max(1,Math.min(8,limit))`
abbrev pub clamp : ℕ → ℕ
clamp limit = max 1 (min 8 limit)

-- `runtime(file,limit)`, at the start of the loop, with the parts that the server has.
unfoldable pub start : ℕ → List ℕ → Run
start limit completed = record {
  next = 1;
  running = [];
  completed = completed;
  limit = clamp limit;
  max_limit = clamp limit;
  success = 0;
  paused = false;
}

-- One round of the inner loop: the part `next++`, skipped if it is completed.
abbrev pub take_next : Run → Run
take_next r =
    if has r.next r.completed
    then record r { next = suc r.next }
    else record r { next = suc r.next; running = r.next ∷ r.running }

-- `next<=count&&running.size<r.limit&&!r.paused`
abbrev pub may_start : ℕ → Run → Bool
may_start count r = leb r.next count && (ltb (length r.running) r.limit && not r.paused)

-- The inner loop, which starts parts up to the limit.
unfoldable pub fill : ℕ → ℕ → Run → Run
fill zero count r = r
fill (suc fuel) count r =
    let rest = fill fuel count (take_next r) in if may_start count r then rest else r

-- `r.success++;if(r.success%12===0&&r.limit<r.maxLimit)r.limit++`
unfoldable pub acknowledged : Run → Run
acknowledged r =
    let n = suc r.success in
    if n % 12 == 0 && ltb r.limit r.max_limit
    then record r { success = n; limit = suc r.limit }
    else record r { success = n }

-- `r.limit=Math.max(1,r.limit-1)`
unfoldable pub slowed : Run → Run
slowed r = record r { limit = max 1 (r.limit - 1) }

-- What may happen between two rounds of the outer loop.
pub data Step (count : ℕ) : Run → Run → Type 0 where
  -- a round of the outer loop
  filled : {r : Run} → Step count r (fill (suc count) count r)
  -- `t.completed[n]={etag,size:blob.size}` of a running part
  stored :
      {r : Run} (n : ℕ)
      → has n r.running ≡ true
      → Step count r (record r { completed = n ∷ r.completed })
  counted : {r : Run} → Step count r (acknowledged r)
  retried : {r : Run} → Step count r (slowed r)
  -- `part` returns: its part is stored, or the transfer is paused
  returned :
      {r : Run} (n : ℕ)
      → has n r.completed || r.paused ≡ true
      → Step count r (record r { running = without n r.running })
  -- `part` throws, and the transfer is paused; or the user pauses it
  stopped :
      {r : Run} (n : ℕ) → Step count r (record r { paused = true; running = without n r.running })
  pause : {r : Run} → Step count r (record r { paused = true })

pub data Reachable (count : ℕ) : Run → Run → Type 0 where
  here : {r : Run} → Reachable count r r
  later : {r s t : Run} → Reachable count r s → Step count s t → Reachable count r t

-- The outer loop ends: `!((next<=count||running.size)&&!r.paused)`
abbrev pub is_over : ℕ → Run → Bool
is_over count r = not ((leb r.next count || ltb 0 (length r.running)) && not r.paused)
