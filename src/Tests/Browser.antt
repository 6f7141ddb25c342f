-- ===== src/Tests/Browser.antt =====
-- The browser's upload of a file in two parts, and a small backup.
use astra_file_host.Base.{
  ℕ, zero, ◌≡◌, ◌*◌, ◌<◌, ◌≤◌, refl, suc, true, false, some, List, [], ◌∷◌, ◌++◌, ok, arith, min,
  max, length, map, count_where,
}
use astra_file_host.Validation.{mib, expected_part_bytes}
use astra_file_host.Engine.Slices.{slice_start, slice_end, slice_bytes, slice_bytes-expected}
use astra_file_host.Engine.Scheduler.{
  Run, has, start, fill, Reachable, here, later, filled, stored, returned,
}
use astra_file_host.Engine.Coverage.{running_bound, completion_sound}
use astra_file_host.Engine.Filling.{fill_outcome, Started}
use astra_file_host.Engine.Attempts.{Round, received, refused, send_part, Promise}
use astra_file_host.Engine.Transfers.{
  UploadEngine, Transfer, Runtime, load, pause, waiting, uploading, paused,
}
use astra_file_host.Engine.Transfers.Running.{
  add, start_run, resume, is_gone, is_open, resume_with, end_run, stopped,
}
use astra_file_host.Engine.Transfers.Single.{running_runtimes}
use astra_file_host.Engine.Transfers.Reach.{new_engine}
use astra_file_host.Engine.Effort.{send_part-Promise}
use astra_file_host.Backup.{
  Bytes, Cipher, IsCipher, KeyRing, encrypt_backup, decrypt_backup, frames, frame, all_chunks,
  chunks, u32, header_of,
}
use astra_file_host.Backup.RoundTrip.{concat, decrypt_backup-encrypt_backup}

slice_bytes-expected_example :
    (expected_part_bytes (12 * mib) (8 * mib) 2 ≡ ok (slice_bytes (12 * mib) (8 * mib) 2))
    × (slice_end (12 * mib) (8 * mib) 2 ≡ min (12 * mib) (slice_start (8 * mib) 3))
slice_bytes-expected_example =
    slice_bytes-expected (12 * mib) (8 * mib) 2 (omega arith) (omega arith) (omega arith)

-- Part 1 is at the server; part 2 is started, stored and returns.
abbrev ended : Run
ended = record {
  next = 3;
  running = [];
  completed = 2 ∷ 1 ∷ [];
  limit = 4;
  max_limit = 4;
  success = 0;
  paused = false;
}

path : Reachable 2 (start 4 (1 ∷ [])) ended
unfolding start fill
path = later (later (later here filled) (stored 2 refl)) (returned 2 refl)

running_bound_example :
    (length ended.running ≤ max 1 (min 8 4)) × (0 < ended.limit) × (ended.limit ≤ max 1 (min 8 4))
running_bound_example = running_bound 2 4 (1 ∷ []) ended path

completion_sound_example : has 2 ended.completed ≡ true
completion_sound_example =
    completion_sound 2 4 (1 ∷ []) ended path refl refl 2 (omega arith) (omega arith)

abbrev begun : Run
begun = record {
  next = 1;
  running = [];
  completed = [];
  limit = 4;
  max_limit = 4;
  success = 0;
  paused = false;
}

fill_outcome_example : Started 2 begun (fill 3 2 begun)
fill_outcome_example = fill_outcome 2 begun

abbrev rounds : ℕ → Round
rounds attempt = record {
  stopped_before = false;
  stopped_signed = false;
  stopped_failed = false;
  reply = elim attempt [ zero ↦ refused true | suc k ↦ received 9 ];
}

abbrev sending : Run
sending = record begun { next = 2; running = 1 ∷ [] }

send_part-Promise_example : Promise 2 1 rounds sending 0 (send_part 1 rounds sending)
send_part-Promise_example = send_part-Promise 2 1 rounds sending refl

-- A cipher that leaves the text as it is, with a tag of zeros.
abbrev zeros : Bytes
zeros = 0 ∷ 0 ∷ 0 ∷ 0 ∷ 0 ∷ 0 ∷ 0 ∷ 0 ∷ 0 ∷ 0 ∷ 0 ∷ 0 ∷ 0 ∷ 0 ∷ 0 ∷ 0 ∷ []

abbrev clear : Cipher
clear = record { encrypt = λ k n a t. t; tag = λ k n a t. zeros; decrypt = λ k n a t g. some t }

clear-IsCipher : IsCipher clear
clear-IsCipher = record {
  decrypts = λ k n a t. refl;
  same_length = λ k n a t. refl;
  tag_length = λ k n a t. refl;
}

abbrev ring : KeyRing
ring = record { active = 107 ∷ []; keys = λ v. some 1 }

abbrev seed : Bytes
seed = 1 ∷ 2 ∷ 3 ∷ 4 ∷ 5 ∷ 6 ∷ 7 ∷ 8 ∷ []

abbrev source : List Bytes
source = (10 ∷ 11 ∷ []) ∷ (12 ∷ []) ∷ []

abbrev backup : Bytes
backup =
    header_of clear ring.active seed
    ++ ((0 ∷ 0 ∷ 0 ∷ 2 ∷ 10 ∷ 11 ∷ zeros)
        ++ ((0 ∷ 0 ∷ 0 ∷ 1 ∷ 12 ∷ zeros) ++ (0 ∷ 0 ∷ 0 ∷ 0 ∷ zeros)))

backup_written : encrypt_backup clear ring seed source ≡ ok backup
unfolding encrypt_backup frames frame all_chunks chunks u32
backup_written = refl

decrypt_backup-encrypt_backup_example :
    (pieces : List Bytes) × (decrypt_backup clear ring backup ≡ ok pieces)
    × (concat pieces ≡ concat source)
decrypt_backup-encrypt_backup_example =
    decrypt_backup-encrypt_backup clear ring seed backup source clear-IsCipher (omega arith)
      (omega arith) refl backup_written

-- An account signs in, and adds two files; the second one waits.
abbrev two_added : UploadEngine
two_added =
    add (λ id. false) 10 91 is_gone (record { id = 2; size = 200 })
      (add (λ id. false) 10 90 is_gone (record { id = 1; size = 100 }) new_engine)

two_added_states : map (λ (t : Transfer). t.state) two_added.transfers ≡ waiting ∷ uploading ∷ []
unfolding add load start_run pause resume
two_added_states = refl

-- The transfer of the first file.
abbrev first_file : Transfer
first_file = record {
  object = 0;
  id = 1;
  owner_id = some 10;
  fingerprint = 90;
  size = 100;
  state = paused;
  bytes = 0;
}

-- It is paused, and two resumes that began meanwhile get their answers one after the other.
abbrev resumed_twice : UploadEngine
resumed_twice = resume_with (is_open 0) first_file (
    resume_with (is_open 0) first_file (
      end_run 1 stopped
        (pause 1 (add (λ id. false) 10 90 is_gone (record { id = 1; size = 100 }) new_engine))))

two_loops :
    (running_runtimes resumed_twice ≡ 1)
    × (count_where (λ (r : Runtime). r.running) resumed_twice.detached ≡ 1)
unfolding add load start_run pause resume end_run
two_loops = (refl, refl)
