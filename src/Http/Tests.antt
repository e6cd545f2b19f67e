-- ===== src/Http/Tests.antt =====
-- The server's theorems at concrete states, and test runs.
use winforge.Prelude.{
  ◌+◌, ◌-◌, ◌*◌, ◌≤◌, ◌≡◌, refl, true, false, none, some, [], ◌∷◌, Bool, length, arith,
}
use winforge.Text.{Text, codes}
use winforge.Http.Jobs.{
  Job, Server, queued, running, prune_jobs, start_job, run_job, log_job, log_line, finish_job,
  truncate_utf8, Reachable, initial, next, start, run, log, finish,
}
use winforge.Http.Jobs.Lines.{HasLog, log_line-HasLog, truncate_utf8-length}
use winforge.Http.Jobs.Queue.{live, IsWithin, Reachable-IsWithin, prune_jobs-live}
use winforge.Http.RateLimit.{
  second, Bucket, Limiter, find_bucket, bucket_or_full, allow_bucket, allow,
}
use winforge.Http.RateLimit.Sweep.{allow-sweep}
use winforge.Http.RateLimit.Clients.{run_allow, new_limiter, run_allow-burst}

abbrev always : Text → Bool
always text = true

abbrev one : Job
one = record {
  seq = 1;
  kind = codes "install";
  status = running;
  lines = codes "ab" ∷ [];
  lines_dropped = 0;
  finished = false;
  message = [];
  lines_bytes = 2;
}

one-HasLog : HasLog one
one-HasLog = record {
  counted = refl;
  few = omega arith;
  within = omega arith;
  short = (omega arith, tt);
}

log_line-HasLog_example : HasLog (log_line always (codes "cde") one)
log_line-HasLog_example = log_line-HasLog always (codes "cde") one one-HasLog

truncate_utf8-length_example : length (truncate_utf8 always (codes "abcdef") 5) ≤ 5
truncate_utf8-length_example = truncate_utf8-length always (codes "abcdef") 5 (omega arith)

prune_jobs-live_example : live (prune_jobs (one ∷ [])) ≡ live (one ∷ [])
prune_jobs-live_example = prune_jobs-live (one ∷ [])

abbrev empty : Server
empty = record { jobs = []; seq = 0 }

-- a job is started, runs, logs and ends
abbrev started : Server
started = record {
  jobs = record one { status = queued; lines = []; lines_bytes = 0 } ∷ [];
  seq = 1;
}

abbrev ended : Server
ended = finish_job always 1 none (log_job always 1 (codes "ok") (run_job 1 started))

start_ok : start_job (codes "install") empty ≡ some started
unfolding start_job
start_ok = refl

ended-Reachable : Reachable always ended
ended-Reachable =
    next
      (next (next (next initial (start (codes "install") start_ok)) (run 1)) (log 1 (codes "ok")))
      (finish 1 none)

Reachable-IsWithin_example : IsWithin ended
Reachable-IsWithin_example = Reachable-IsWithin always ended ended-Reachable

run_allow-burst_example :
    run_allow (codes "a") ((codes "a", 3) ∷ (codes "b", 4) ∷ (codes "a", 9) ∷ []) (new_limiter 5 15)
      * second
    ≤ 15 * second + (10 - 2) * 5
run_allow-burst_example =
    run_allow-burst 5 15 (codes "a") 10 2 ((codes "a", 3) ∷ (codes "b", 4) ∷ (codes "a", 9) ∷ [])
      (omega arith) (omega arith, (omega arith, (omega arith, omega arith)))

-- the bucket of a client that has been idle for more than a minute, before a sweep
abbrev idle : Limiter
idle = record {
  rate = 5;
  burst = 15;
  buckets = (codes "a", record { tokens = 4; last = 0 }) ∷ [];
  last_tick = some 0;
}

abbrev decided : Bool × Bucket
decided =
    allow_bucket 5 15 61000000000
      (bucket_or_full 15 61000000000 (find_bucket (codes "a") idle.buckets))

allow-sweep_example :
    ((allow (codes "a") 61000000000 idle).0 ≡ decided.0)
    × (find_bucket (codes "a") (allow (codes "a") 61000000000 idle).1.buckets ≡ some decided.1)
allow-sweep_example = allow-sweep (codes "a") 61000000000 idle (omega arith) (refl, tt)
