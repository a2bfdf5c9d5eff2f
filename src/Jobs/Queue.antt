-- ===== src/Jobs/Queue.antt =====
-- server/jobs.py: the job queue. Times are seconds.
use infinitas_skill.Prelude.{
  ℕ, suc, ◌+◌, String, Bool, true, false, Option, none, some, List, [], ◌∷◌, ◌++◌, ◌≡◌, refl, any,
  map, ◌&&◌, ◌||◌, ◌==◌, ltb, leb, str_eq, if◌then◌else◌,
}
use Prim.Native.Nat.{max}
use infinitas_skill.Prelude.Text.{Text, codes, strip, rstrip, parse_int, pos}
use infinitas_skill.Prelude.Table.{put, next_id, earliest}
use infinitas_skill.Jobs.Model.{
  PayloadValue, Payload, Job, job_row, is_queued, is_running, max_job_attempts, max_retry_attempts,
  queued, running, completed, failed, number, words,
}

-- `_optional_positive_int`
unfoldable pub optional_positive_int : PayloadValue → Option ℕ
unfolding parse_int
optional_positive_int (number (pos (suc n))) = some (suc n)
optional_positive_int (words s) = elim (parse_int s) [
  | some (pos (suc n)) ↦ some (suc n)
  | _ ↦ none
]
optional_positive_int _ = none

-- `_lease_deadline`
unfoldable pub lease_deadline : ℕ → ℕ → ℕ
lease_deadline claimed_at lease_seconds = claimed_at + max lease_seconds 1

-- `_running_job_is_stale`
unfoldable pub running_job_is_stale : ℕ → Job → Bool
running_job_is_stale now j =
    is_running j.status
    && elim j.lease_expires_at [ none ↦ true | some deadline ↦ leb deadline now ]

-- `_active_status_clause` for "queued" and "running"
unfoldable pub active_status : ℕ → Job → Bool
active_status now j =
    is_queued j.status
    || (is_running j.status
        && elim j.lease_expires_at [ none ↦ false | some deadline ↦ ltb now deadline ])

newline : Text
newline = 10 ∷ []

-- `"\n".join(parts)`
join_lines : List Text → Text
unfolding newline
join_lines [] = []
join_lines (part ∷ []) = part
join_lines (part ∷ next ∷ rest) = part ++ (newline ++ join_lines (next ∷ rest))

abbrev is_empty : Text → Bool
is_empty [] = true
is_empty (c ∷ s) = false

log_parts : List Text → List Text
log_parts [] = []
log_parts (line ∷ rest) =
    let parts = log_parts rest in if is_empty (rstrip line) then parts else rstrip line ∷ parts

finish_log : List Text → Text
unfolding join_lines
finish_log [] = strip []
finish_log (part ∷ parts) = strip (join_lines (part ∷ parts)) ++ newline

-- `append_job_log`
unfoldable pub append_job_log : Text → List Text → Text
unfolding log_parts finish_log newline
append_job_log log lines =
    finish_log (if is_empty (strip log) then log_parts lines else rstrip log ∷ log_parts lines)

append_job_log_example :
    append_job_log (codes "a b \n") (codes "c" ∷ codes " " ∷ codes " d " ∷ [])
    ≡ codes "a b\nc\n d\n"
unfolding append_job_log strip rstrip
append_job_log_example = refl

-- The lines that the queue writes; `render` gives their texts (dates in ISO form, JSON, decimals).
pub data LogLine : Type 0 where
  queued_job : String → LogLine
  with_payload : Payload → LogLine
  claimed reclaimed lease_until completed_at requeued_at : ℕ → LogLine
  retryable_error : ℕ → Text → LogLine
  error_line : Text → LogLine
  handler_line : Text → LogLine

-- The columns that both updates of `claim_next_job` write
unfoldable pub claim : Job → ℕ → ℕ → Job
unfolding lease_deadline
claim j now lease_seconds = record j {
  status = running;
  started_at = some now;
  heartbeat_at = some now;
  lease_expires_at = some (lease_deadline now lease_seconds);
  attempt_count = j.attempt_count + 1;
  updated_at = now;
}

abbrev pub claimable : Job → Bool
claimable j = is_queued j.status

-- A stale lease that may be taken over
abbrev pub reclaimable : ℕ → Job → Bool
reclaimable now j = running_job_is_stale now j && ltb j.attempt_count max_job_attempts

-- `heartbeat_job`
unfoldable pub heartbeat_job : Job → ℕ → ℕ → Job
unfolding lease_deadline
heartbeat_job j now lease_seconds = record j {
  heartbeat_at = some now;
  lease_expires_at = some (lease_deadline now lease_seconds);
  updated_at = now;
}

module _ (render : LogLine → Text) where
  unfoldable pub logged : Job → List LogLine → Job
  logged j lines = record j { log = append_job_log j.log (map render lines) }

  -- `enqueue_job`
  unfoldable pub enqueue_job :
      List Job → String → Payload → Option ℕ → Option ℕ → String → ℕ → Job × List Job
  unfolding logged optional_positive_int
  enqueue_job jobs kind payload requested_by release_id note now =
      let job : Job = record {
        id = next_id jobs;
        kind = kind;
        status = queued;
        payload = payload;
        release_id = elim release_id [
          | some (suc n) ↦ some (suc n)
          | _ ↦ optional_positive_int payload.release_id
        ];
        requested_by_principal_id = requested_by;
        note = note;
        log = [];
        started_at = none;
        heartbeat_at = none;
        lease_expires_at = none;
        finished_at = none;
        attempt_count = 0;
        error_message = [];
        created_at = now;
        updated_at = now;
      } in
      let job' = logged job (queued_job kind ∷ with_payload payload ∷ []) in (job', job' ∷ jobs)

  -- `claim_next_job`: the oldest queued job, or else the oldest stale one
  unfoldable pub claim_next_job : List Job → ℕ → ℕ → Option Job × List Job
  unfolding claim logged lease_deadline running_job_is_stale
  claim_next_job jobs now lease_seconds = elim (earliest claimable jobs) [
    | some j ↦
        let j' =
          logged (claim j now lease_seconds)
            (claimed now ∷ lease_until (lease_deadline now lease_seconds) ∷ []) in
        (some j', put j' jobs)
    | none ↦ elim (earliest (reclaimable now) jobs) [
      | some j ↦
          let j' =
            logged (claim j now lease_seconds)
              (reclaimed now ∷ lease_until (lease_deadline now lease_seconds) ∷ []) in
          (some j', put j' jobs)
      | none ↦ (none, jobs)
    ]
  ]

  -- `complete_job`
  unfoldable pub complete_job : Job → ℕ → Job
  unfolding logged
  complete_job j now =
      logged
        (record j {
          status = completed;
          finished_at = some now;
          heartbeat_at = none;
          lease_expires_at = none;
          error_message = [];
          updated_at = now;
        })
        (completed_at now ∷ [])

  -- `fail_job`
  unfoldable pub fail_job : Job → Text → Bool → ℕ → Job
  unfolding logged
  fail_job j error_message retryable now =
      if retryable && ltb j.attempt_count max_retry_attempts
      then logged
          (record j {
            status = queued;
            started_at = none;
            heartbeat_at = none;
            lease_expires_at = none;
            finished_at = none;
            error_message = error_message;
            updated_at = now;
          })
          (retryable_error j.attempt_count error_message ∷ requeued_at now ∷ [])
      else logged
          (record j {
            status = failed;
            finished_at = some now;
            heartbeat_at = none;
            lease_expires_at = none;
            error_message = error_message;
            updated_at = now;
          })
          (error_line error_message ∷ [])

-- `has_active_job` with its default statuses
unfoldable pub has_active_job : List Job → String → Option ℕ → ℕ → Bool
unfolding active_status
has_active_job jobs kind release_id now =
    any
      (λ (j : Job). (active_status now j && str_eq j.kind kind) && elim release_id [
        | none ↦ true
        | some r ↦ elim j.release_id [ none ↦ false | some r' ↦ r' == r ]
      ])
      jobs
