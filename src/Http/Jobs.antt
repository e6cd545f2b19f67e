-- ===== src/Http/Jobs.antt =====
-- internal/httpapi/server.go: jobs, their logs, and the transitions of a job's goroutine. Each
-- function is what happens while `mu` is held. Texts are lists of bytes here.
pub mod Lines
pub mod Queue
use winforge.Prelude.{
  ◌≡◌, ℕ, zero, suc, ◌+◌, ◌-◌, Bool, true, false, ◌||◌, Option, none, some, List, [], ◌∷◌, ◌++◌,
  map, if◌then◌else◌, length, take, ltb, leb, ◌==◌,
}
use winforge.Text.{Text}

abbrev pub max_jobs : ℕ
max_jobs = 100

abbrev pub max_active_jobs : ℕ
max_active_jobs = 16

abbrev pub max_job_lines : ℕ
max_job_lines = 1000

abbrev pub max_job_line_bytes : ℕ
max_job_line_bytes = 4096

abbrev pub max_job_log_bytes : ℕ
max_job_log_bytes = 262144

abbrev pub max_job_error_bytes : ℕ
max_job_error_bytes = 16384

pub data JobStatus : Type 0 where
  queued running done error : JobStatus

-- The id is "job-" and `seq`. `finished` is the field Done, `message` the field Error.
pub record Job : Type 0 where
  pub seq : ℕ
  pub kind : Text
  pub status : JobStatus
  pub lines : List Text
  pub lines_dropped : ℕ
  pub finished : Bool
  pub message : Text
  pub lines_bytes : ℕ

-- The map of jobs, in the order in which they were started.
pub record Server : Type 0 where
  pub jobs : List Job
  pub seq : ℕ

-- the bytes of "…"
abbrev pub ellipsis : Text
ellipsis = 226 ∷ 128 ∷ 166 ∷ []

-- `valid` is utf8.ValidString. The loop of truncateUTF8 takes bytes off the end; `n` are left.
unfoldable pub shrink : (valid : Text → Bool) → ℕ → Text → Text
shrink valid zero text = []
shrink valid (suc n) text = elim (valid (take (suc n) text)) [
  | true ↦ take (suc n) text
  | false ↦ shrink valid n text
]

unfoldable pub truncate_utf8 : (valid : Text → Bool) → Text → ℕ → Text
unfolding shrink
truncate_utf8 valid text limit =
    if leb (length text) limit
    then text
    else shrink valid (limit - length ellipsis) text ++ ellipsis

-- what the log of a job is
pub record Log : Type 0 where
  pub lines : List Text
  pub bytes : ℕ
  pub dropped : ℕ

-- the loop that makes room for a line of `n` bytes
unfoldable pub make_room : ℕ → List Text → ℕ → ℕ → Log
make_room n [] bytes dropped = record { lines = []; bytes = bytes; dropped = dropped }
make_room n (l ∷ ls) bytes dropped =
    let rest = make_room n ls (bytes - length l) (dropped + 1) in
    if leb max_job_lines (length (l ∷ ls)) || ltb max_job_log_bytes (bytes + n)
    then rest
    else record { lines = l ∷ ls; bytes = bytes; dropped = dropped }

abbrev add_line : Text → Log → Job → Job
add_line line log j = record j {
  lines = log.lines ++ line ∷ [];
  lines_bytes = log.bytes + length line;
  lines_dropped = log.dropped;
}

-- the function that a job logs with
unfoldable pub log_line : (valid : Text → Bool) → Text → Job → Job
unfolding make_room truncate_utf8
log_line valid text j =
    let line = truncate_utf8 valid text max_job_line_bytes in
    add_line line (make_room (length line) j.lines j.lines_bytes j.lines_dropped) j

abbrev pub count_live : List Job → ℕ
count_live [] = 0
count_live (j ∷ js) = if j.finished then count_live js else suc (count_live js)

abbrev pub count_finished : List Job → ℕ
count_finished [] = 0
count_finished (j ∷ js) = if j.finished then suc (count_finished js) else count_finished js

-- the last loop of pruneJobs: the oldest `excess` finished jobs are deleted
unfoldable pub drop_finished : ℕ → List Job → List Job
drop_finished zero js = js
drop_finished (suc excess) [] = []
drop_finished (suc excess) (j ∷ js) = elim j.finished [
  | true ↦ drop_finished excess js
  | false ↦ j ∷ drop_finished (suc excess) js
]

unfoldable pub prune_jobs : List Job → List Job
unfolding drop_finished
prune_jobs js = drop_finished (count_finished js - max_jobs) js

abbrev pub new_job : ℕ → Text → Job
new_job seq kind = record {
  seq = seq;
  kind = kind;
  status = queued;
  lines = [];
  lines_dropped = 0;
  finished = false;
  message = [];
  lines_bytes = 0;
}

-- startJob up to the goroutine; a full queue admits nothing
unfoldable pub start_job : Text → Server → Option Server
unfolding prune_jobs
start_job kind s =
    if leb max_active_jobs (count_live s.jobs)
    then none
    else some
        (record { jobs = prune_jobs (s.jobs ++ new_job (s.seq + 1) kind ∷ []); seq = s.seq + 1 })

abbrev pub update : ℕ → (Job → Job) → List Job → List Job
update n f [] = []
update n f (j ∷ js) = (if j.seq == n then f j else j) ∷ update n f js

-- the start of the goroutine
abbrev pub set_running : Job → Job
set_running j = record j { status = running }

unfoldable pub run_job : ℕ → Server → Server
run_job n s = record s { jobs = update n set_running s.jobs }

unfoldable pub log_job : (valid : Text → Bool) → ℕ → Text → Server → Server
unfolding log_line
log_job valid n text s = record s { jobs = update n (log_line valid text) s.jobs }

-- its end: the job's result is an error's text, or none
abbrev pub set_finished : (valid : Text → Bool) → Option Text → Job → Job
set_finished valid none j = record j { finished = true; status = done }
set_finished valid (some text) j = record j {
  finished = true;
  status = error;
  message = truncate_utf8 valid text max_job_error_bytes;
}

unfoldable pub finish_job : (valid : Text → Bool) → ℕ → Option Text → Server → Server
unfolding prune_jobs
finish_job valid n result s = record s {
  jobs = prune_jobs (update n (set_finished valid result) s.jobs);
}

-- What happens to the server's jobs, one hold of `mu` at a time.
pub data Step (valid : Text → Bool) : Server → Server → Type 0 where
  start : {s : Server} (kind : Text) {s' : Server} → start_job kind s ≡ some s' → Step valid s s'
  run : {s : Server} (n : ℕ) → Step valid s (run_job n s)
  log : {s : Server} (n : ℕ) (text : Text) → Step valid s (log_job valid n text s)
  finish : {s : Server} (n : ℕ) (result : Option Text) → Step valid s (finish_job valid n result s)

pub data Reachable (valid : Text → Bool) : Server → Type 0 where
  initial : Reachable valid (record { jobs = []; seq = 0 })
  next : {s s' : Server} → Reachable valid s → Step valid s s' → Reachable valid s'
