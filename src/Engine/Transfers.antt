-- ===== src/Engine/Transfers.antt =====
-- apps/web/src/upload/engine.ts: the transfers of the browser, of which one at a time is run. What the
-- server answers is an argument; rates, names and times, and the parts that are done, are left out.
-- A transfer or a runtime that is no longer listed or in the map lives on while a loop holds it: objects
-- have keys, and those taken out are kept aside. A call is one step, but for a resume, which may end
-- later, and a run, whose end is a step of its own.
pub mod Running
pub mod Single
pub mod Reach
use astra_file_host.Base.{
  ℕ, suc, ◌+◌, ◌++◌, length, ◌≡◌, Bool, true, false, ◌&&◌, ◌||◌, not, Option, none, some, List, [],
  ◌∷◌, map, ◌==◌, find, select, update_where, if◌then◌else◌,
}

pub data TransferState : Type 0 where
  preparing uploading paused failed finalizing complete waiting : TransferState

pub record Transfer : Type 0 where
  pub object : ℕ
  pub id : ℕ
  pub owner_id : Option ℕ
  pub fingerprint : ℕ
  pub size : ℕ
  pub state : TransferState
  pub bytes : ℕ

-- With the transfer that its loop runs.
pub record Runtime : Type 0 where
  pub object : ℕ
  pub id : ℕ
  pub transfer : ℕ
  pub paused : Bool
  pub cancelled : Bool
  pub running : Bool

-- `transfers`, `runtimes`, `ownerId`, and the store `sessions` of the browser's database; the objects
-- that have been taken out of the first two, and the next key.
pub record UploadEngine : Type 0 where
  pub transfers : List Transfer
  pub runtimes : List Runtime
  pub dropped : List Transfer
  pub detached : List Runtime
  pub created : ℕ
  pub owner_id : Option ℕ
  pub sessions : List Transfer

abbrev pub transfer_of : ℕ → UploadEngine → Option Transfer
transfer_of id e = find (λ (t : Transfer). t.id == id) e.transfers

abbrev pub runtime_of : ℕ → UploadEngine → Option Runtime
runtime_of id e = find (λ (r : Runtime). r.id == id) e.runtimes

-- The entry of `this.runtimes` for an id.
abbrev pub put_runtime : Runtime → List Runtime → List Runtime
put_runtime r rs = r ∷ select (λ (x : Runtime). not (x.id == r.id)) rs

-- `this.runtimes.set(id,r)`
abbrev pub set_runtime : Runtime → UploadEngine → UploadEngine
set_runtime r e = record e {
  runtimes = put_runtime r e.runtimes;
  detached = select (λ (x : Runtime). x.id == r.id) e.runtimes ++ e.detached;
}

-- `put('sessions',t)`
abbrev pub put_session : Transfer → List Transfer → List Transfer
put_session t ts = t ∷ select (λ (x : Transfer). not (x.id == t.id)) ts

abbrev pub set_state : TransferState → Transfer → Transfer
set_state s t = record t { state = s }

abbrev pub update_transfer : ℕ → (Transfer → Transfer) → UploadEngine → UploadEngine
update_transfer object f e = record e {
  transfers = update_where (λ t. t.object == object) f e.transfers;
  dropped = update_where (λ t. t.object == object) f e.dropped;
}

abbrev pub update_runtime : ℕ → (Runtime → Runtime) → UploadEngine → UploadEngine
update_runtime id f e = record e { runtimes = update_where (λ r. r.id == id) f e.runtimes }

abbrev pub persist_found : Option Transfer → UploadEngine → UploadEngine
persist_found none e = e
persist_found (some t) e = record e { sessions = put_session t e.sessions }

abbrev pub or_else {ℓ} : {A : Type ℓ} → Option A → Option A → Option A
or_else none other = other
or_else (some a) other = some a

-- `persist`, of the transfer as it is now.
abbrev pub persist : ℕ → UploadEngine → UploadEngine
persist object e =
    persist_found
      (or_else (find (λ (t : Transfer). t.object == object) e.transfers)
        (find (λ (t : Transfer). t.object == object) e.dropped))
      e

abbrev pub is_there {ℓ} : {A : Type ℓ} → Option A → Bool
is_there none = false
is_there (some a) = true

abbrev pub pause_runtime : Runtime → Runtime
pause_runtime r = record r { paused = true }

abbrev pub pause_found : Option Transfer → ℕ → UploadEngine → UploadEngine
pause_found none id e = e
pause_found (some t) id e =
    if is_there (runtime_of id e)
    then persist t.object
        (update_transfer t.object (set_state paused) (update_runtime id pause_runtime e))
    else e

-- `pause`
unfoldable pub pause : ℕ → UploadEngine → UploadEngine
pause id e = pause_found (transfer_of id e) id e

abbrev pub cancel_runtime : Runtime → Runtime
cancel_runtime r = record r { cancelled = true; paused = true }

abbrev pub remove_session : ℕ → List Transfer → List Transfer
remove_session id ts = select (λ (t : Transfer). not (t.id == id)) ts

-- `this.transfers=this.transfers.filter(t=>t.id!==id)`
abbrev pub drop_transfer : ℕ → UploadEngine → UploadEngine
drop_transfer id e = record e {
  transfers = remove_session id e.transfers;
  dropped = select (λ (t : Transfer). t.id == id) e.transfers ++ e.dropped;
  sessions = remove_session id e.sessions;
}

-- `cancel`; `aborted` says whether the server has answered the abort. If not, the call throws.
unfoldable pub cancel : ℕ → Bool → UploadEngine → UploadEngine
cancel id aborted e =
    let stopped = update_runtime id cancel_runtime e in
    if aborted
    then record (drop_transfer id stopped) {
      runtimes = select (λ (r : Runtime). not (r.id == id)) stopped.runtimes;
      detached = select (λ (r : Runtime). r.id == id) stopped.runtimes ++ stopped.detached;
    }
    else stopped

-- `dismiss`
unfoldable pub dismiss : ℕ → UploadEngine → UploadEngine
dismiss id e = drop_transfer id e

abbrev pub same_owner : Option ℕ → Option ℕ → Bool
same_owner none none = true
same_owner (some a) (some b) = a == b
same_owner _ _ = false

-- `for(const t of this.transfers)await this.pause(t.id)`
abbrev pub pause_all : List Transfer → UploadEngine → UploadEngine
pause_all [] e = e
pause_all (t ∷ ts) e = pause_all ts (pause t.id e)

-- An old checkpoint is adopted after the server has shown that it is the account's.
abbrev pub adopt : (ℕ → Bool) → Option ℕ → Transfer → Transfer
adopt owns owner t =
    if is_there t.owner_id then t else (if owns t.id then record t { owner_id = owner } else t)

abbrev pub resting : TransferState → TransferState
resting complete = complete
resting _ = paused

-- The copies `{...t,state:…}`.
abbrev pub rest : ℕ → List Transfer → List Transfer
rest object [] = []
rest object (t ∷ ts) = record t { object = object; state = resting t.state } ∷ rest (suc object) ts

abbrev pub load_saved : (ℕ → Bool) → Option ℕ → UploadEngine → UploadEngine
load_saved owns none e = e
load_saved owns (some owner) e =
    let saved = map (adopt owns (some owner)) e.sessions in
    let mine = select (λ (t : Transfer). same_owner t.owner_id (some owner)) saved in
    record e {
      sessions = saved;
      transfers = rest e.created mine;
      created = e.created + length mine;
    }

-- `this.runtimes.clear();this.transfers=[]`
abbrev pub clear : UploadEngine → UploadEngine
clear e = record e {
  runtimes = [];
  transfers = [];
  detached = e.runtimes ++ e.detached;
  dropped = e.transfers ++ e.dropped;
}

-- `load`, for the account that is signed in, or none.
unfoldable pub load : (ℕ → Bool) → Option ℕ → UploadEngine → UploadEngine
unfolding pause
load owns owner e =
    if same_owner e.owner_id owner
    then e
    else load_saved owns owner (clear (pause_all e.transfers (record e { owner_id = owner })))

-- `offline`: `for(const t of uploads.transfers)if(t.state==='uploading')void uploads.pause(t.id)`
abbrev pub is_uploading : TransferState → Bool
is_uploading uploading = true
is_uploading _ = false

unfoldable pub offline : UploadEngine → UploadEngine
unfolding pause
offline e = pause_all (select (λ (t : Transfer). is_uploading t.state) e.transfers) e
