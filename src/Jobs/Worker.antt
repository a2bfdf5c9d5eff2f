-- ===== src/Jobs/Worker.antt =====
-- server/worker.py: processing one job, and the loop that drains the queue.
use Prim.Native.Nat.{max, min}
use infinitas_skill.Prelude.{
  ℕ, zero, suc, ◌+◌, String, Bool, true, false, Option, none, some, List, [], ◌∷◌, any, ◌++◌, ◌⊎◌,
  inl, inr, ◌≡◌, refl, ltb, str_eq, if◌then◌else◌,
}
use infinitas_skill.Prelude.Text.{Text, codes, lower, contains, parse_int, ℤ, pos, negsuc}
use infinitas_skill.Prelude.Table.{get, put}
use infinitas_skill.Jobs.Model.{
  Job, PayloadValue, missing, number, words, container, is_running, is_failed,
  default_lease_seconds, job_row,
}
use infinitas_skill.Jobs.Queue.{
  LogLine, claim_next_job, heartbeat_job, complete_job, fail_job, logged,
}

-- `retryable_patterns`
abbrev pub retryable_patterns : List Text
retryable_patterns =
    codes "timeout"
    ∷ codes "timed out"
    ∷ codes "connection refused"
    ∷ codes "connection reset"
    ∷ codes "temporary failure"
    ∷ codes "could not resolve host"
    ∷ codes "name or service not known"
    ∷ codes "network is unreachable"
    ∷ codes "no space left on device"
    ∷ []

-- `_is_retryable_error`, on the text of the exception
unfoldable pub is_retryable_error : Text → Bool
unfolding lower contains
is_retryable_error message =
    let m = lower message in any (λ pattern. contains pattern m) retryable_patterns

-- What an operation raises: its exception's text
pub data Attempt {ℓ} (A : Type ℓ) : Type ℓ where
  done : A → Attempt A
  raised : Text → Attempt A

pub Attempt-cases {ℓ} :
    {A : Type ℓ} (r : Attempt A) → ((a : A) × (r ≡ done a)) ⊎ ((m : Text) × (r ≡ raised m))
Attempt-cases (done a) = inl (a, refl)
Attempt-cases (raised m) = inr (m, refl)

abbrev positive_or_raise : Option ℤ → Attempt ℕ
positive_or_raise none = raised (codes "materialize_release job has invalid release_id payload")
positive_or_raise (some (pos (suc n))) = done (suc n)
positive_or_raise (some _) = raised (codes "materialize_release job is missing release_id payload")

-- `int(payload.get("release_id") or 0)`
abbrev payload_int : PayloadValue → Option ℤ
payload_int missing = some (pos 0)
payload_int (number n) = some n
payload_int (words []) = some (pos 0)
payload_int (words (c ∷ s)) = parse_int (c ∷ s)
payload_int container = none

-- `_resolve_release_id`
unfoldable pub resolve_release_id : Job → Attempt ℕ
unfolding parse_int
resolve_release_id job = elim job.release_id [
  | some (suc n) ↦ done (suc n)
  | _ ↦ positive_or_raise (payload_int job.payload.release_id)
]

-- `max(1, min(limit, 10_000))`
abbrev clamp_limit : ℤ → ℕ
clamp_limit (pos n) = max 1 (min n 10000)
clamp_limit (negsuc n) = 1

-- `int(payload.get("limit") or 1000)`, then the clamp of `_process_prune_skill_contents_job`
unfoldable pub prune_limit : PayloadValue → Attempt ℕ
unfolding parse_int
prune_limit missing = done 1000
prune_limit (number (pos zero)) = done 1000
prune_limit (words []) = done 1000
prune_limit v = elim (payload_int v) [
  | none ↦ raised (codes "prune_skill_contents job has invalid limit payload")
  | some n ↦ done (clamp_limit n)
]

-- What the worker calls: the repository lock, the materialiser, the finishing of a publish intent, the
-- projections, the pruning of contents and the audit event of a failure, with the lines that they log
-- and the text of what they raise; and the texts of log lines and of two exceptions that hold an id.
pub record World : Type 0 where
  pub acquires_lock : Bool
  pub render : LogLine → Text
  pub materialize : ℕ → Job → Attempt (List LogLine)
  pub finalize_publish_intent : ℤ → Attempt (List LogLine)
  pub refresh_projection_snapshot : Attempt (List LogLine)
  pub prune : ℕ → Job → Attempt (List LogLine)
  pub audit_failure : ℕ → Text → Bool → Attempt (List LogLine)
  pub no_longer_running : ℕ → Text
  pub unsupported_kind : String → Text

-- Whether `if intent_id` holds of a value of the payload
unfoldable pub is_truthy : PayloadValue → Bool
is_truthy missing = false
is_truthy (number (pos zero)) = false
is_truthy (words []) = false
is_truthy _ = true

-- The publish intent of the payload, when there is one
unfoldable pub finalize_intent : World → PayloadValue → Attempt (List LogLine)
unfolding is_truthy parse_int
finalize_intent w v =
    if is_truthy v
    then elim (payload_int v) [
      | none ↦ raised (codes "materialize_release job has invalid publish_intent_id")
      | some n ↦ w.finalize_publish_intent n
    ]
    else done []

-- `_process_materialize_release_job`: the lines of the materialiser are logged last.
unfoldable pub process_materialize_release_job : World → Job → Attempt (List LogLine)
unfolding resolve_release_id finalize_intent
process_materialize_release_job w job = elim (resolve_release_id job) [
  | raised m ↦ raised m
  | done release_id ↦ elim (w.materialize release_id job) [
    | raised m ↦ raised m
    | done lines ↦ elim (finalize_intent w job.payload.publish_intent_id) [
      | raised m ↦ raised m
      | done finalized ↦ elim w.refresh_projection_snapshot [
        | raised m ↦ raised m
        | done _ ↦ done (finalized ++ lines)
      ]
    ]
  ]
]

-- The branches on `job.kind`
unfoldable pub handle_kind : World → Job → Attempt (List LogLine)
unfolding process_materialize_release_job prune_limit
handle_kind w job =
    if str_eq job.kind "materialize_release"
    then process_materialize_release_job w job
    else if str_eq job.kind "prune_skill_contents"
    then elim (prune_limit job.payload.limit) [
      | raised m ↦ raised m
      | done limit ↦ w.prune limit job
    ]
    else raised (w.unsupported_kind job.kind)

-- The `except` branch: the job is failed or queued again.
unfoldable pub give_up : World → Job → Text → ℕ → Job
unfolding fail_job
give_up w job message now = fail_job w.render job message (is_retryable_error message) now

-- The body of the `try`: renew the lease if the job still runs, handle it, complete it.
unfoldable pub attempt : World → Job → ℕ → ℕ → Job
unfolding give_up heartbeat_job complete_job logged
attempt w job began ended =
    if is_running job.status
    then (let renewed = heartbeat_job job began default_lease_seconds in
        elim (handle_kind w renewed) [
          | raised m ↦ give_up w renewed m ended
          | done lines ↦ complete_job w.render (logged w.render renewed lines) ended
        ])
    else give_up w job (w.no_longer_running job.id) ended

-- `_renew_job_lease`, which commits apart
unfoldable pub renew_job_lease : Job → ℕ → Job
unfolding heartbeat_job
renew_job_lease job began =
    if is_running job.status then heartbeat_job job began default_lease_seconds else job

-- The exception that `attempt` catches
unfoldable pub failure : World → Job → ℕ → Option Text
unfolding handle_kind heartbeat_job
failure w job began =
    if is_running job.status
    then elim (handle_kind w (heartbeat_job job began default_lease_seconds)) [
      | raised m ↦ some m
      | done lines ↦ none
    ]
    else some (w.no_longer_running job.id)

-- Whether `_audit_materialization_failure` returns
unfoldable pub audit_materialization_failure : World → Job → Text → Bool → Bool
unfolding resolve_release_id
audit_materialization_failure w job message permanent =
    if str_eq job.kind "materialize_release"
    then elim (resolve_release_id job) [
      | raised m ↦ true
      | done release_id ↦ elim (w.audit_failure release_id message permanent) [
        | raised m ↦ false
        | done lines ↦ true
      ]
    ]
    else true

-- Whether the transaction that ends the job commits: a failure to write the audit event of its
-- failure rolls it back.
unfoldable pub commits : World → Job → ℕ → ℕ → Bool
unfolding failure attempt audit_materialization_failure
commits w job began ended = elim (failure w job began) [
  | none ↦ true
  | some m ↦ audit_materialization_failure w job m (is_failed (attempt w job began ended).status)
]

-- The job after both transactions: the renewal of the lease, and the one that ends the job, if it
-- commits
unfoldable pub after_processing : World → Job → ℕ → ℕ → Job
unfolding commits attempt renew_job_lease
after_processing w job began ended =
    if commits w job began ended then attempt w job began ended else renew_job_lease job began

-- `process_job`: the table after it, if nobody else writes the job's row from the renewal of its lease
-- to the end. `began` is the last renewal, which is the handler's if that renews the lease again. A
-- lock that is not acquired and a missing job raise and change nothing.
unfoldable pub process_job : World → List Job → ℕ → ℕ → ℕ → List Job
unfolding after_processing
process_job w jobs job_id began ended =
    if w.acquires_lock
    then elim (get job_id jobs) [
      | none ↦ jobs
      | some job ↦ put (after_processing w job began ended) jobs
    ]
    else jobs

-- The times of one round of the loop: the claim, the renewal and the end
pub record Round : Type 0 where
  pub claimed_at : ℕ
  pub began_at : ℕ
  pub ended_at : ℕ

-- `processed < limit`
abbrev pub below : ℕ → Option ℕ → Bool
below processed none = true
below processed (some limit) = ltb processed limit

-- `run_worker_loop` in batch mode, with the rounds' clocks and worlds given. `none` is that the fuel
-- ran out, `some` the table and the count that it returns.
unfoldable pub run_worker_loop :
    (ℕ → World) → (ℕ → Round) → ℕ → Option ℕ → List Job → ℕ → Option (List Job × ℕ)
unfolding claim_next_job
run_worker_loop world clock zero limit jobs processed = none
run_worker_loop world clock (suc fuel) limit jobs processed =
    let w = world processed in
    let t = clock processed in
    let (job, jobs') = claim_next_job w.render jobs t.claimed_at default_lease_seconds in
    elim (below processed limit) [
      | false ↦ some (jobs, processed)
      | true ↦ elim job [
        | none ↦ some (jobs', processed)
        | some j ↦
            run_worker_loop world clock fuel limit (process_job w jobs' j.id t.began_at t.ended_at)
              (processed + 1)
      ]
    ]
