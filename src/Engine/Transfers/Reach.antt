-- ===== src/Engine/Transfers/Reach.antt =====
-- What the transfers of apps/web/src/upload/engine.ts keep to, whatever the user, the server and the
-- running loops do.
use astra_file_host.Base.{ℕ, Bool, Option, none, []}
use astra_file_host.Engine.Transfers.{Transfer, UploadEngine, pause, cancel, dismiss, load, offline}
use astra_file_host.Engine.Transfers.Running.{
  ServerState, RunEnd, Opened, finalize_run, resume, resume_with, add, end_run,
}

-- What the user, the browser and the ends of running loops call, in any order.
pub data EngineStep (e : UploadEngine) : UploadEngine → Type 0 where
  loads : (owns : ℕ → Bool) (owner : Option ℕ) → EngineStep e (load owns owner e)
  adds :
      (owns : ℕ → Bool) (owner fingerprint : ℕ) (answer : ServerState) (s : Opened)
      → EngineStep e (add owns owner fingerprint answer s e)
  resumes :
      (id fingerprint : ℕ) (answer : ServerState) → EngineStep e (resume id fingerprint answer e)
  -- a resume that began earlier, of a transfer that it has found then
  answers : (answer : ServerState) (t : Transfer) → EngineStep e (resume_with answer t e)
  pauses : (id : ℕ) → EngineStep e (pause id e)
  cancels : (id : ℕ) (aborted : Bool) → EngineStep e (cancel id aborted e)
  dismisses : (id : ℕ) → EngineStep e (dismiss id e)
  finalizes : (object : ℕ) → EngineStep e (finalize_run object e)
  ends : (object : ℕ) (outcome : RunEnd) → EngineStep e (end_run object outcome e)
  goes_offline : EngineStep e (offline e)

pub data EngineReach (start : UploadEngine) : UploadEngine → Type 0 where
  still : EngineReach start start
  onwards : {e f : UploadEngine} → EngineReach start e → EngineStep e f → EngineReach start f

abbrev pub new_engine : UploadEngine
new_engine = record {
  transfers = [];
  runtimes = [];
  dropped = [];
  detached = [];
  created = 0;
  owner_id = none;
  sessions = [];
}
