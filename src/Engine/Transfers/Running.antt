-- ===== src/Engine/Transfers/Running.antt =====
-- apps/web/src/upload/engine.ts: how a transfer is added, resumed and run, and how its run ends.
use astra_file_host.Base.{
  ℕ, suc, update_where, Bool, true, false, ◌&&◌, ◌||◌, not, Option, none, some, List, [], ◌∷◌, ◌==◌,
  find, if◌then◌else◌,
}
use astra_file_host.Engine.Transfers.{
  Transfer, Runtime, UploadEngine, TransferState, uploading, paused, failed, finalizing, complete,
  waiting, set_runtime, or_else, transfer_of, runtime_of, put_runtime, put_session, set_state,
  update_transfer, persist, is_there, load,
}

-- `[...this.runtimes.values()].some(other=>other!==r&&other.running)`
abbrev pub other_running : ℕ → List Runtime → Bool
other_running id [] = false
other_running id (r ∷ rs) = (not (r.id == id) && r.running) || other_running id rs

abbrev pub start_found : Option Runtime → Transfer → UploadEngine → UploadEngine
start_found none t e = e
start_found (some r) t e =
    if r.running
    then e
    else if other_running t.id e.runtimes
    then update_transfer t.object (set_state waiting) e
    else update_transfer t.object (set_state uploading) (record e {
      runtimes =
          put_runtime (record r { id = t.id; transfer = t.object; running = true }) e.runtimes;
    })

-- `run`, up to its loop.
unfoldable pub start_run : Transfer → UploadEngine → UploadEngine
start_run t e = start_found (runtime_of t.id e) t e

-- `runtime(file,…)`
abbrev pub new_runtime : ℕ → Transfer → Runtime
new_runtime object t = record {
  object = object;
  id = t.id;
  transfer = t.object;
  paused = false;
  cancelled = false;
  running = false;
}

abbrev pub run_anew : Transfer → UploadEngine → UploadEngine
run_anew t e =
    start_run t (set_runtime (new_runtime e.created t) (record e { created = suc e.created }))

abbrev pub set_bytes : ℕ → Transfer → Transfer
set_bytes bytes t = record t { bytes = bytes }

abbrev pub complete_transfer : Transfer → Transfer
complete_transfer t = record t { state = complete; bytes = t.size }

-- What `GET /uploads/:id` says in a `resume`: the upload is complete, or its parts are known, or it is
-- no longer open.
pub data ServerState : Type 0 where
  is_complete : ServerState
  is_open : ℕ → ServerState
  is_gone : ServerState

abbrev pub resume_with : ServerState → Transfer → UploadEngine → UploadEngine
resume_with is_complete t e = persist t.object (update_transfer t.object complete_transfer e)
resume_with (is_open bytes) t e = run_anew t (update_transfer t.object (set_bytes bytes) e)
resume_with is_gone t e = e

abbrev pub is_running : Option Runtime → Bool
is_running none = false
is_running (some r) = r.running

-- `resume`, of a file with the given fingerprint, from the check of a running transfer to the answer of
-- the server.
abbrev pub resume_found : Option Transfer → ℕ → ServerState → UploadEngine → UploadEngine
resume_found none fingerprint answer e = e
resume_found (some t) fingerprint answer e =
    if fingerprint == t.fingerprint then resume_with answer t e else e

unfoldable pub resume : ℕ → ℕ → ServerState → UploadEngine → UploadEngine
unfolding start_run
resume id fingerprint answer e =
    if is_running (runtime_of id e) then e else resume_found (transfer_of id e) fingerprint answer e

abbrev pub is_done : TransferState → Bool
is_done complete = true
is_done _ = false

-- The session that `POST /uploads` opens.
pub record Opened : Type 0 where
  pub id : ℕ
  pub size : ℕ

abbrev pub new_transfer : ℕ → Option ℕ → ℕ → Opened → Transfer
new_transfer object owner fingerprint s = record {
  object = object;
  id = s.id;
  owner_id = owner;
  fingerprint = fingerprint;
  size = s.size;
  state = waiting;
  bytes = 0;
}

abbrev pub add_found : Option Transfer → ℕ → ServerState → Opened → UploadEngine → UploadEngine
add_found (some t) fingerprint answer s e = resume t.id fingerprint answer e
add_found none fingerprint answer s e =
    let t = new_transfer e.created e.owner_id fingerprint s in
    run_anew t (record e {
      transfers = t ∷ e.transfers;
      sessions = put_session t e.sessions;
      created = suc e.created;
    })

-- `add`, by the account that is signed in.
unfoldable pub add : (ℕ → Bool) → ℕ → ℕ → ServerState → Opened → UploadEngine → UploadEngine
unfolding load resume start_run
add owns owner fingerprint answer s e =
    let loaded = load owns (some owner) e in
    add_found
      (find (λ (t : Transfer). t.fingerprint == fingerprint && not (is_done t.state))
        loaded.transfers)
      fingerprint answer s loaded

abbrev pub runtime_object : ℕ → UploadEngine → Option Runtime
runtime_object object e =
    or_else (find (λ (r : Runtime). r.object == object) e.runtimes)
      (find (λ (r : Runtime). r.object == object) e.detached)

abbrev pub finalize_found : Option Runtime → UploadEngine → UploadEngine
finalize_found none e = e
finalize_found (some r) e = update_transfer r.transfer (set_state finalizing) e

-- The loop of a runtime is done, and its transfer is `finalizing`.
unfoldable pub finalize_run : ℕ → UploadEngine → UploadEngine
finalize_run object e = finalize_found (runtime_object object e) e

-- How a `run` ends: left alone since it was cancelled, completed by the server, stopped by the user, or
-- failed.
pub data RunEnd : Type 0 where
  left_alone completed stopped broken : RunEnd

abbrev pub end_state : RunEnd → Transfer → Transfer
end_state left_alone t = t
end_state completed t = complete_transfer t
end_state stopped t = set_state paused t
end_state broken t = set_state failed t

abbrev pub is_waiting : TransferState → Bool
is_waiting waiting = true
is_waiting _ = false

abbrev pub start_next : Option Transfer → UploadEngine → UploadEngine
start_next none e = e
start_next (some t) e = start_run t e

abbrev pub next_waiting : UploadEngine → Option Transfer
next_waiting e =
    find (λ (t : Transfer). is_waiting t.state && is_there (runtime_of t.id e)) e.transfers

abbrev pub idle_runtime : Runtime → Runtime
idle_runtime r = record r { running = false }

-- `r.running=false`, of the runtime that the loop holds, wherever it is.
abbrev pub idle : ℕ → UploadEngine → UploadEngine
idle object e = record e {
  runtimes = update_where (λ (r : Runtime). r.object == object) idle_runtime e.runtimes;
  detached = update_where (λ (r : Runtime). r.object == object) idle_runtime e.detached;
}

abbrev pub end_found : Option Runtime → RunEnd → UploadEngine → UploadEngine
end_found none outcome e = e
end_found (some r) outcome e =
    let ended = update_transfer r.transfer (end_state outcome) (idle r.object e) in
    let kept = if r.cancelled then ended else persist r.transfer ended in
    start_next (next_waiting kept) kept

-- The end of the `run` of a runtime and its `finally`: the checkpoint of a cancelled transfer is not
-- written again, and the next transfer that waits is run.
unfoldable pub end_run : ℕ → RunEnd → UploadEngine → UploadEngine
unfolding start_run
end_run object outcome e = end_found (runtime_object object e) outcome e
