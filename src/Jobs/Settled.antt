-- ===== src/Jobs/Settled.antt =====
-- What processing a job leaves behind: the outcome, and the jobs that it does not touch.
use infinitas_skill.Prelude.{
  ℕ, ◌<◌, true, false, none, some, List, ◌≡◌, refl, inl, inr, ◌⊎◌, str_eq, if◌then◌else◌,
  Bool-cases, arith, sym, subst, ◌∙◌,
}
use infinitas_skill.Prelude.Text.{Text}
use infinitas_skill.Prelude.Table.{get, put, get-key, get-put_self}
use infinitas_skill.Jobs.Model.{
  Job, completed, failed, is_queued, is_running, is_failed, default_lease_seconds, job_row,
  max_retry_attempts,
}
use infinitas_skill.Jobs.Queue.{LogLine, heartbeat_job, fail_job, lease_deadline}
use infinitas_skill.Jobs.Worker.{
  World, commits, after_processing, audit_materialization_failure, failure, attempt, give_up,
  process_job, handle_kind, is_retryable_error, done, Attempt-cases,
}

-- The outcome of processing `j`: the job runs no more and holds no lease; it waits for a retry only
-- after fewer attempts than the limit and an error that is retryable; it is completed only if it was
-- running and its handler returned.
pub record Settled (w : World) (began : ℕ) (j j' : Job) : Type 0 where
  pub same_id : j'.id ≡ j.id
  pub stopped : is_running j'.status ≡ false
  pub released : j'.lease_expires_at ≡ none
  pub retried :
      is_queued j'.status ≡ true
      → (j.attempt_count < max_retry_attempts) × (is_retryable_error j'.error_message ≡ true)
  pub finished :
      j'.status ≡ completed
      → (is_running j.status ≡ true)
        × (lines : List LogLine) × (handle_kind w (heartbeat_job j began default_lease_seconds)
            ≡ done lines)

give_up-Settled :
    (w : World) (began : ℕ) (j j' : Job) (message : Text) (now : ℕ)
    → j'.id ≡ j.id
    → j'.attempt_count ≡ j.attempt_count
    → Settled w began j (give_up w j' message now)
unfolding give_up fail_job
give_up-Settled w began j j' message now k a = record {
  same_id = ground arith;
  stopped = ground arith;
  released = ground arith;
  retried = λ h. ground arith;
  finished = λ h. absurd (ground arith);
}

attempt-Settled :
    (w : World) (j : Job) (began ended : ℕ) → Settled w began j (attempt w j began ended)
unfolding attempt
attempt-Settled w j began ended =
    let renewed = heartbeat_job j began default_lease_seconds in
    elim (Bool-cases (is_running j.status)) [
      | inl r ↦ elim (Attempt-cases (handle_kind w renewed)) [
        | inl (lines, h) ↦
            rw (r, attempt)
              (rw (h, attempt)
                (record {
                  same_id = refl;
                  stopped = refl;
                  released = refl;
                  retried = λ q. absurd (cc q);
                  finished = λ q. (r, lines, h);
                }))
        | inr (m, h) ↦
            rw (r, attempt) (rw (h, attempt) (give_up-Settled w began j renewed m ended refl refl))
      ]
      | inr r ↦
          rw (r, attempt) (give_up-Settled w began j j (w.no_longer_running j.id) ended refl refl)
    ]

-- What may have become of `j`: the repository was locked, and it is as it was; the audit event of its
-- failure could not be written, and it keeps its status, its attempts and, if it ran, the renewed
-- lease; or it is settled.
abbrev pub Processed : World → ℕ → ℕ → Job → Job → Type 0
Processed w began ended j j' =
    ((w.acquires_lock ≡ false) × (j' ≡ j))
    ⊎ (((w.acquires_lock ≡ true)
          × (str_eq j.kind "materialize_release" ≡ true)
          × (j'.status ≡ j.status)
          × (j'.attempt_count ≡ j.attempt_count)
          × (j'.lease_expires_at ≡ (
              if is_running j.status
              then some (lease_deadline began default_lease_seconds)
              else j.lease_expires_at)))
        ⊎ ((w.acquires_lock ≡ true) × Settled w began j j'))

process-put :
    (w : World) (jobs : List Job) (id began ended : ℕ) (j : Job)
    → get id jobs ≡ some j
    → w.acquires_lock ≡ true
    → process_job w jobs id began ended ≡ put (after_processing w j began ended) jobs
unfolding process_job
process-put w jobs id began ended j e l = rw (l, process_job) (rw (e, process_job) refl)

-- A job that is completed when a worker comes to process it, another having taken over its stale
-- lease and finished it, is marked failed, if the text of the exception is not retryable, the lock is
-- acquired and, for a materialisation, the audit event is written.
pub process_job-fails_completed :
    (w : World) (jobs : List Job) (id began ended : ℕ) (j : Job)
    → get id jobs ≡ some j
    → j.status ≡ completed
    → is_retryable_error (w.no_longer_running j.id) ≡ false
    → w.acquires_lock ≡ true
    → audit_materialization_failure w j (w.no_longer_running j.id) true ≡ true
    → (j' : Job) × (get id (process_job w jobs id began ended) ≡ some j')
      × (j'.status ≡ failed)
      × (j'.error_message ≡ w.no_longer_running j.id)
unfolding process_job after_processing attempt give_up fail_job commits failure
process_job-fails_completed w jobs id began ended j e c h l a =
    let j' = attempt w j began ended in
    let k : j'.id ≡ id = (attempt-Settled w j began ended).same_id ∙ get-key id jobs j e in
    let r : is_running j.status ≡ false = rw c refl in
    let f : j'.status ≡ failed = rw (r, attempt, h) refl in
    let m : j'.error_message ≡ w.no_longer_running j.id = rw (r, attempt, h) refl in
    let thrown : failure w j began ≡ some (w.no_longer_running j.id) = rw (r, failure) refl in
    let written : commits w j began ended ≡ true =
      rw (thrown, commits)
        (subst
          (λ s. audit_materialization_failure w j (w.no_longer_running j.id) (is_failed s) ≡ true)
          (sym f) a) in
    let after : after_processing w j began ended ≡ j' = rw (written, after_processing) refl in
    rw (process-put w jobs id began ended j e l, after) (j', get-put_self j' id jobs j k e, f, m)
