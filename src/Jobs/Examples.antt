-- ===== src/Jobs/Examples.antt =====
-- Concrete runs of the queue and the worker, and the theorems at inputs that meet their hypotheses.
use infinitas_skill.Prelude.{
  ℕ, String, Option, true, false, ◌+◌, none, some, List, [], ◌∷◌, ◌≡◌, ◌≢◌, refl, not, arith,
}
use infinitas_skill.Prelude.Text.{codes, strip, rstrip}
use infinitas_skill.Prelude.Table.{get, put, next_id, earliest}
use infinitas_skill.Jobs.Model.{
  Job, JobStatus, Payload, missing, running, queued, completed, failed, job_row,
}
use infinitas_skill.Jobs.Queue.{
  enqueue_job, claim_next_job, running_job_is_stale, active_status, lease_deadline, append_job_log,
}
use infinitas_skill.Jobs.Worker.{
  World, Round, run_worker_loop, process_job, handle_kind, raised, done, is_retryable_error,
  audit_materialization_failure, resolve_release_id,
}
use infinitas_skill.Jobs.Attempts.{IsSound}
use infinitas_skill.Jobs.Drain.{Ended, Drained, run_worker_loop-Ended}
use infinitas_skill.Jobs.Laws.{
  TakesOldest, claim_next_job-TakesOldest, claim_next_job-exclusive, stale-active,
}
use infinitas_skill.Jobs.Settled.{process_job-fails_completed}

-- A materialiser that times out
abbrev slow_world : World
slow_world = record {
  acquires_lock = true;
  render = λ _. [];
  materialize = λ _ _. raised (codes "Connection timed out");
  finalize_publish_intent = λ _. done [];
  refresh_projection_snapshot = done [];
  prune = λ _ _. done [];
  audit_failure = λ _ _ _. done [];
  no_longer_running = λ _. codes "no longer running";
  unsupported_kind = λ _. codes "unsupported job kind";
}

abbrev empty_payload : Payload
empty_payload = record { release_id = missing; limit = missing; publish_intent_id = missing }

abbrev job : ℕ → String → JobStatus → Option ℕ → ℕ → Job
job id kind status lease attempts = record {
  id = id;
  kind = kind;
  status = status;
  payload = empty_payload;
  release_id = some 7;
  requested_by_principal_id = none;
  note = "";
  log = [];
  started_at = none;
  heartbeat_at = none;
  lease_expires_at = lease;
  finished_at = none;
  attempt_count = attempts;
  error_message = [];
  created_at = 100;
  updated_at = 100;
}

abbrev two_jobs : List Job
two_jobs =
    job 2 "prune_skill_contents" queued none 0 ∷ job 1 "materialize_release" queued none 0 ∷ []

two_jobs-IsSound : IsSound two_jobs
two_jobs-IsSound = record {
  keys = (refl, (refl, tt));
  bounded = (((λ _. omega arith), omega arith), (((λ _. omega arith), omega arith), tt));
}

enqueued : List Job
unfolding enqueue_job
enqueued =
    (enqueue_job slow_world.render
      (enqueue_job slow_world.render [] "materialize_release" empty_payload none (some 7) "" 100).1
      "prune_skill_contents" empty_payload none (some 7) "" 100).1

enqueued-two_jobs : enqueued ≡ two_jobs
unfolding enqueued append_job_log strip rstrip next_id
enqueued-two_jobs = refl

abbrev clock : ℕ → Round
clock n = record { claimed_at = 200 + n; began_at = 200 + n; ended_at = 200 + n }

run_worker_loop-Ended_example :
    Ended
      (Drained (λ _. slow_world) clock none two_jobs 0)
      (run_worker_loop (λ _. slow_world) clock 21 none two_jobs 0)
run_worker_loop-Ended_example =
    run_worker_loop-Ended (λ _. slow_world) clock none 21 two_jobs 0 (omega arith) two_jobs-IsSound

claim_next_job-TakesOldest_example :
    TakesOldest two_jobs (claim_next_job slow_world.render two_jobs 200 60)
claim_next_job-TakesOldest_example =
    claim_next_job-TakesOldest slow_world.render two_jobs 200 60 two_jobs-IsSound refl

abbrev taken_job : ℕ → String → ℕ → Job
taken_job id kind now = record (job id kind running (some (now + 60)) 1) {
  started_at = some now;
  heartbeat_at = some now;
  updated_at = now;
}

first_claim :
    (claim_next_job slow_world.render two_jobs 200 60).0
    ≡ some (taken_job 1 "materialize_release" 200)
unfolding claim_next_job append_job_log strip rstrip earliest put
first_claim = refl

second_claim :
    (claim_next_job slow_world.render (claim_next_job slow_world.render two_jobs 200 60).1 230 60).0
    ≡ some (taken_job 2 "prune_skill_contents" 230)
unfolding claim_next_job append_job_log strip rstrip earliest put
second_claim = refl

claim_next_job-exclusive_example :
    (taken_job 1 "materialize_release" 200).id ≢ (taken_job 2 "prune_skill_contents" 230).id
unfolding lease_deadline
claim_next_job-exclusive_example =
    claim_next_job-exclusive slow_world.render two_jobs 200 230 60 60
      (taken_job 1 "materialize_release" 200) (taken_job 2 "prune_skill_contents" 230)
      two_jobs-IsSound (omega arith) first_claim second_claim

stale-active_example :
    running_job_is_stale 230 (taken_job 1 "materialize_release" 200)
    ≡ not (active_status 230 (taken_job 1 "materialize_release" 200))
stale-active_example = stale-active 230 (taken_job 1 "materialize_release" 200) refl

abbrev finished_job : Job
finished_job = job 1 "materialize_release" completed none 2

process_job-fails_completed_example :
    (j' : Job) × (get 1 (process_job slow_world (finished_job ∷ []) 1 300 301) ≡ some j')
    × (j'.status ≡ failed)
    × (j'.error_message ≡ codes "no longer running")
unfolding get is_retryable_error audit_materialization_failure resolve_release_id
process_job-fails_completed_example =
    process_job-fails_completed slow_world (finished_job ∷ []) 1 300 301 finished_job refl refl refl
      refl refl

timed_out :
    (get 1 (process_job slow_world (taken_job 1 "materialize_release" 200 ∷ []) 1 201 202))
    ≡ some (record (job 1 "materialize_release" queued none 1) {
      error_message = codes "Connection timed out";
      updated_at = 202;
    })
unfolding get process_job is_retryable_error append_job_log strip rstrip put handle_kind
timed_out = refl

-- Without the repository lock the job keeps its lease.
locked_out :
    process_job
      (record slow_world { acquires_lock = false })
      (taken_job 1 "materialize_release" 200 ∷ [])
      1
      201
      202
    ≡ taken_job 1 "materialize_release" 200 ∷ []
unfolding process_job
locked_out = refl
