-- ===== src/Http/Jobs/Queue.antt =====
-- The bounds of the queue of jobs, in every reachable state.
use winforge.Prelude.{
  ℕ, zero, suc, ◌+◌, ◌-◌, ◌≤◌, ◌<◌, ◌≡◌, refl, arith, ap, ◌∙◌, Bool, true, false, Option, none,
  some, List, [], ◌∷◌, ◌++◌, length, leb, ◌==◌, Bool-cases, inl, inr, if◌then◌else◌, All,
  All-append,
}
use mathlib.Core.Path.{subst}
use winforge.Text.{Text}
use winforge.Http.Jobs.{
  Job, Server, count_live, count_finished, drop_finished, prune_jobs, new_job, start_job, update,
  set_running, run_job, log_line, log_job, set_finished, finish_job, max_jobs, max_active_jobs,
  Step, start, run, log, finish, Reachable, initial, next,
}
use winforge.Http.Jobs.Lines.{HasLog, log_line-HasLog}

-- the jobs that are not done
abbrev pub live : List Job → List Job
live [] = []
live (j ∷ js) = if j.finished then live js else j ∷ live js

drop_finished-live : (n : ℕ) (js : List Job) → live (drop_finished n js) ≡ live js
unfolding drop_finished
drop_finished-live zero js = refl
drop_finished-live (suc n) [] = refl
drop_finished-live (suc n) (j ∷ js) =
    let one = drop_finished-live n js in
    let more = drop_finished-live (suc n) js in
    elim (Bool-cases j.finished) [ inl yes' ↦ ground (arith, one) | inr no' ↦ ground (arith, more) ]

-- pruneJobs deletes no job that is still queued or running.
pub prune_jobs-live : (js : List Job) → live (prune_jobs js) ≡ live js
unfolding prune_jobs
prune_jobs-live js = drop_finished-live (count_finished js - max_jobs) js

live-count : (js : List Job) → length (live js) ≡ count_live js
live-count [] = refl
live-count (j ∷ js) = ground (arith, live-count js)

drop_finished-count :
    (n : ℕ) (js : List Job) → count_finished (drop_finished n js) ≡ count_finished js - n
unfolding drop_finished
drop_finished-count zero js = omega arith
drop_finished-count (suc n) [] = omega arith
drop_finished-count (suc n) (j ∷ js) =
    ground (arith, drop_finished-count n js, drop_finished-count (suc n) js)

drop_finished-All :
    (P : Job → Type 0) (n : ℕ) (js : List Job) → All P js → All P (drop_finished n js)
unfolding drop_finished
drop_finished-All P zero js h = h
drop_finished-All P (suc n) [] h = h
drop_finished-All P (suc n) (j ∷ js) (h, hs) =
    let one = drop_finished-All P n js hs in
    let more = drop_finished-All P (suc n) js hs in
    elim (Bool-cases j.finished) [ inl yes' ↦ rw yes' one | inr no' ↦ rw no' (h, more) ]

update-All :
    (P : Job → Type 0) (n : ℕ) (f : Job → Job) (js : List Job)
    → ((j : Job) → P j → P (f j))
    → All P js
    → All P (update n f js)
update-All P n f [] k h = h
update-All P n f (j ∷ js) k (h, hs) = (changed (j.seq == n), update-All P n f js k hs)
  where
    changed : (b : Bool) → P (if b then f j else j)
    changed true = k j h
    changed false = h

-- A change that does not take `finished` back leaves no more live jobs.
update-live :
    (n : ℕ) (f : Job → Job) (js : List Job)
    → ((j : Job) → j.finished ≡ true → (f j).finished ≡ true)
    → count_live (update n f js) ≤ count_live js
update-live n f [] k = omega arith
update-live n f (j ∷ js) k = ground (arith, update-live n f js k, k j)

update-finished :
    (n : ℕ) (f : Job → Job) (js : List Job)
    → ((j : Job) → (f j).finished ≡ j.finished)
    → count_finished (update n f js) ≡ count_finished js
update-finished n f [] k = refl
update-finished n f (j ∷ js) k = ground (arith, update-finished n f js k, k j)

append-live : (js : List Job) (j : Job) → count_live (js ++ j ∷ []) ≤ count_live js + 1
append-live [] j = ground arith
append-live (k ∷ js) j = ground (arith, append-live js j)

abbrev Numbered : ℕ → Job → Type 0
Numbered n j = j.seq ≤ n

-- The invariant of the server's jobs: at most 16 are live and at most 100 finished ones are kept, the
-- log of each is within its bounds, and no id is beyond the last that was given out.
pub record IsWithin (s : Server) : Type 0 where
  pub few_live : count_live s.jobs ≤ max_active_jobs
  pub few_finished : count_finished s.jobs ≤ max_jobs
  pub logs : All HasLog s.jobs
  pub numbered : All (Numbered s.seq) s.jobs

prune_jobs-finished : (js : List Job) → count_finished (prune_jobs js) ≤ max_jobs
unfolding prune_jobs
prune_jobs-finished js = omega (arith, drop_finished-count (count_finished js - max_jobs) js)

prune_jobs-count : (js : List Job) → count_live (prune_jobs js) ≡ count_live js
prune_jobs-count js =
    omega (arith, ap length (prune_jobs-live js), live-count js, live-count (prune_jobs js))

prune_jobs-IsWithin :
    (js : List Job) (n : ℕ)
    → count_live js ≤ max_active_jobs
    → All HasLog js
    → All (Numbered n) js
    → IsWithin (record { jobs = prune_jobs js; seq = n })
prune_jobs-IsWithin js n few h k = record {
  few_live = omega (arith, prune_jobs-count js);
  few_finished = prune_jobs-finished js;
  logs = unfold prune_jobs in drop_finished-All HasLog (count_finished js - max_jobs) js h;
  numbered =
      unfold prune_jobs in drop_finished-All (Numbered n) (count_finished js - max_jobs) js k;
}

weaken : (n : ℕ) (js : List Job) → All (Numbered n) js → All (Numbered (n + 1)) js
weaken n [] h = tt
weaken n (j ∷ js) (h, hs) = (omega arith, weaken n js hs)

new_job-HasLog : (n : ℕ) (kind : Text) → HasLog (new_job n kind)
new_job-HasLog n kind = record {
  counted = refl;
  few = omega arith;
  within = omega arith;
  short = tt;
}

-- the server that startJob makes where the queue has room
admitted-IsWithin :
    (kind : Text) (s : Server)
    → count_live s.jobs < max_active_jobs
    → IsWithin s
    → IsWithin
        (record { jobs = prune_jobs (s.jobs ++ new_job (s.seq + 1) kind ∷ []); seq = s.seq + 1 })
admitted-IsWithin kind s h k =
    let j = new_job (s.seq + 1) kind in
    prune_jobs-IsWithin (s.jobs ++ j ∷ []) (s.seq + 1) (omega (arith, append-live s.jobs j, h))
      (All-append HasLog s.jobs (j ∷ []) k.logs (new_job-HasLog (s.seq + 1) kind, tt))
      (All-append (Numbered (s.seq + 1)) s.jobs (j ∷ []) (weaken s.seq s.jobs k.numbered)
        (omega arith, tt))

admitted_when :
    {s' : Server} (full : Bool) (t : Server)
    → (full ≡ false → IsWithin t)
    → (if full then none else some t) ≡ some s'
    → IsWithin s'
admitted_when true t k h = cc
admitted_when false t k h =
    subst IsWithin (ap (λ (o : Option Server). elim o [ none ↦ t | some u ↦ u ]) h) (k refl)

start_job-IsWithin :
    (kind : Text) (s : Server) {s' : Server} → start_job kind s ≡ some s' → IsWithin s → IsWithin s'
unfolding start_job
start_job-IsWithin kind s h k =
    admitted_when (leb max_active_jobs (count_live s.jobs)) _
      (λ room. admitted-IsWithin kind s (ground arith) k) h

-- a change of one job that keeps `finished`
kept-IsWithin :
    (n : ℕ) (f : Job → Job) (s : Server)
    → ((j : Job) → (f j).finished ≡ j.finished)
    → ((j : Job) → HasLog j → HasLog (f j))
    → ((j : Job) → (f j).seq ≡ j.seq)
    → IsWithin s
    → IsWithin (record s { jobs = update n f s.jobs })
kept-IsWithin n f s same log_kept id_kept h = record {
  few_live = omega (arith, update-live n f s.jobs (λ j k. same j ∙ k), h.few_live);
  few_finished = omega (arith, update-finished n f s.jobs same, h.few_finished);
  logs = update-All HasLog n f s.jobs log_kept h.logs;
  numbered = update-All (Numbered s.seq) n f s.jobs (λ j k. omega (arith, id_kept j, k)) h.numbered;
}

set_finished-HasLog :
    (valid : Text → Bool) (result : Option Text) (j : Job)
    → HasLog j
    → HasLog (set_finished valid result j)
set_finished-HasLog valid none j h = h
set_finished-HasLog valid (some text) j h = h

set_finished-Numbered :
    (valid : Text → Bool) (result : Option Text) (n : ℕ) (j : Job)
    → Numbered n j
    → Numbered n (set_finished valid result j)
set_finished-Numbered valid none n j h = h
set_finished-Numbered valid (some text) n j h = h

set_finished-finished :
    (valid : Text → Bool) (result : Option Text) (j : Job)
    → (set_finished valid result j).finished ≡ true
set_finished-finished valid none j = refl
set_finished-finished valid (some text) j = refl

Step-IsWithin : (valid : Text → Bool) (s s' : Server) → Step valid s s' → IsWithin s → IsWithin s'
unfolding run_job log_job finish_job log_line
Step-IsWithin valid s _ (start kind e) h = start_job-IsWithin kind s e h
Step-IsWithin valid s _ (run n) h =
    kept-IsWithin n set_running s (λ j. refl) (λ j k. k) (λ j. refl) h
Step-IsWithin valid s _ (log n text) h =
    kept-IsWithin n (log_line valid text) s (λ j. refl) (log_line-HasLog valid text) (λ j. refl) h
Step-IsWithin valid s _ (finish n result) h =
    let f = set_finished valid result in
    prune_jobs-IsWithin (update n f s.jobs) s.seq
      (omega
        (arith, update-live n f s.jobs (λ j k. set_finished-finished valid result j), h.few_live))
      (update-All HasLog n f s.jobs (set_finished-HasLog valid result) h.logs)
      (update-All (Numbered s.seq) n f s.jobs (set_finished-Numbered valid result s.seq) h.numbered)

-- In every state that jobs can lead the server to, whatever they log and however they interleave, at
-- most 16 are live, at most 100 finished ones are kept, every log is within its bounds on lines and
-- bytes, and no id is beyond the last that was given out.
pub Reachable-IsWithin : (valid : Text → Bool) (s : Server) → Reachable valid s → IsWithin s
Reachable-IsWithin valid _ initial = record {
  few_live = omega arith;
  few_finished = omega arith;
  logs = tt;
  numbered = tt;
}
Reachable-IsWithin valid _ (next {s} {s'} r step) =
    Step-IsWithin valid s s' step (Reachable-IsWithin valid s r)
