-- ===== src/Jobs/Attempts.antt =====
-- The attempts that the jobs of a table have left, and what claiming and processing do to them.
use infinitas_skill.Prelude.{
  ℕ, ◌+◌, ◌-◌, ◌≤◌, ◌<◌, Bool, true, false, Option, none, some, List, [], ◌∷◌, ◌≡◌, refl, ◌==◌,
  ◌||◌, All-mono, inl, inr, Bool-cases, Option-cases, All, any, arith, sym, subst, ◌∙◌,
}
use infinitas_skill.Prelude.Text.{Text}
use infinitas_skill.Prelude.Table.{get, put, earliest, All-put, All-get, get-key}
use infinitas_skill.Prelude.Table.Keys.{HasKeys, put-HasKeys, put_fresh}
use infinitas_skill.Prelude.Table.Earliest.{
  earliest-get, earliest-test, earliest-none, earliest-least, NotAfter,
}
use infinitas_skill.Jobs.Model.{
  Job, running, is_queued, max_job_attempts, max_retry_attempts, default_lease_seconds, is_running,
  job_row,
}
use infinitas_skill.Jobs.Queue.{
  LogLine, lease_deadline, claimable, reclaimable, claim_next_job, fail_job, heartbeat_job,
}
use infinitas_skill.Jobs.Worker.{
  World, attempt, process_job, handle_kind, Attempt-cases, commits, after_processing,
  renew_job_lease,
}

-- The attempts that the jobs have left in all
abbrev pub spare : List Job → ℕ
spare [] = 0
spare (j ∷ jobs) = (max_job_attempts - j.attempt_count) + spare jobs

-- A job that waits has failed at most twice, and none is ever tried more than ten times.
abbrev pub IsBounded : Job → Type 0
IsBounded j =
    (is_queued j.status ≡ true → j.attempt_count < max_retry_attempts)
    × (j.attempt_count ≤ max_job_attempts)

pub record IsSound (jobs : List Job) : Type 0 where
  pub keys : HasKeys jobs
  pub bounded : All IsBounded jobs

pub spare-put_more :
    (j old : Job) (jobs : List Job)
    → HasKeys jobs
    → get j.id jobs ≡ some old
    → j.attempt_count ≡ old.attempt_count + 1
    → old.attempt_count < max_job_attempts
    → spare (put j jobs) + 1 ≡ spare jobs
unfolding get put
spare-put_more j old [] h e k l = cc
spare-put_more j old (b ∷ t) h e k l = elim (Bool-cases (b.id == j.id)) [
  | inl s ↦ rw (s, put_fresh j t (ground arith)) (ground arith)
  | inr s ↦ rw s (ground (arith, spare-put_more j old t))
]

pub spare-put_same :
    (j old : Job) (jobs : List Job)
    → HasKeys jobs
    → get j.id jobs ≡ some old
    → j.attempt_count ≡ old.attempt_count
    → spare (put j jobs) ≡ spare jobs
unfolding get put
spare-put_same j old [] h e k = cc
spare-put_same j old (b ∷ t) h e k = elim (Bool-cases (b.id == j.id)) [
  | inl s ↦ rw (s, put_fresh j t (ground arith)) (ground arith)
  | inr s ↦ rw s (ground (arith, spare-put_same j old t))
]

-- What processing keeps: the key and the count of attempts; the job waits again only with attempts
-- left.
abbrev pub Keeps : Job → Job → Type 0
Keeps j j' = (j'.id ≡ j.id) × (j'.attempt_count ≡ j.attempt_count) × IsBounded j'

fail-Keeps :
    (render : LogLine → Text) (j : Job) (message : Text) (retryable : Bool) (now : ℕ)
    → j.attempt_count ≤ max_job_attempts
    → Keeps j (fail_job render j message retryable now)
unfolding fail_job
fail-Keeps render j message retryable now b = ground arith

attempt-Keeps :
    (w : World) (j : Job) (began ended : ℕ)
    → j.attempt_count ≤ max_job_attempts
    → Keeps j (attempt w j began ended)
unfolding attempt
attempt-Keeps w j began ended b =
    let renewed = heartbeat_job j began default_lease_seconds in
    elim (Bool-cases (is_running j.status)) [
      | inl r ↦ elim (Attempt-cases (handle_kind w renewed)) [
        | inl (lines, h) ↦ rw (r, attempt) (rw (h, attempt) (refl, refl, (λ q. cc, b)))
        | inr (m, h) ↦ rw (r, attempt) (rw (h, attempt) (fail-Keeps w.render renewed m _ ended b))
      ]
      | inr r ↦ rw (r, attempt) (fail-Keeps w.render j (w.no_longer_running j.id) _ ended b)
    ]

after-Keeps :
    (w : World) (j : Job) (began ended : ℕ)
    → IsBounded j
    → Keeps j (after_processing w j began ended)
unfolding after_processing renew_job_lease heartbeat_job
after-Keeps w j began ended b = elim (Bool-cases (commits w j began ended)) [
  | inl c ↦ rw (c, after_processing) (attempt-Keeps w j began ended b.1)
  | inr c ↦ elim (Bool-cases (is_running j.status)) [
    | inl r ↦ rw (c, after_processing) (rw (r, renew_job_lease) (refl, refl, b))
    | inr r ↦ rw (c, after_processing) (rw (r, renew_job_lease) (refl, refl, b))
  ]
]

-- The outcome of a claim: nothing can be claimed, or one job has one attempt more and runs with a
-- lease until `deadline`.
pub data Claimed (jobs : List Job) (now deadline : ℕ) : Option Job × List Job → Type 0 where
  nothing :
      any claimable jobs ≡ false
      → any (reclaimable now) jobs ≡ false
      → Claimed jobs now deadline (none, jobs)
  taken :
      (old j : Job)
      → get old.id jobs ≡ some old
      → j.id ≡ old.id
      → j.attempt_count ≡ old.attempt_count + 1
      → old.attempt_count < max_job_attempts
      → j.status ≡ running
      → (claimable old || reclaimable now old) ≡ true
      → j.lease_expires_at ≡ some deadline
      → All (λ b. claimable b ≡ true → (old.id ≤ b.id) × (claimable old ≡ true)) jobs
      → Claimed jobs now deadline (some j, put j jobs)

no_queued :
    (old : Job) (jobs : List Job)
    → any claimable jobs ≡ false
    → All (λ b. claimable b ≡ true → (old.id ≤ b.id) × (claimable old ≡ true)) jobs
no_queued old [] h = tt
no_queued old (b ∷ t) h = (λ q. absurd (ground arith), no_queued old t (ground arith))

pub claim_next_job-Claimed :
    (render : LogLine → Text) (jobs : List Job) (now lease_seconds : ℕ)
    → IsSound jobs
    → Claimed jobs now
        (lease_deadline now lease_seconds)
        (claim_next_job render jobs now lease_seconds)
unfolding claim_next_job
claim_next_job-Claimed render jobs now lease_seconds s =
    elim (Option-cases (earliest claimable jobs)) [
      | inr (j, e) ↦
          let found = earliest-get claimable jobs j s.keys e in
          let test = earliest-test claimable jobs j e in
          let b = All-get IsBounded j.id jobs j s.bounded found in
          let least =
            All-mono (NotAfter claimable j)
              (λ b. claimable b ≡ true → (j.id ≤ b.id) × (claimable j ≡ true)) jobs
              (λ b k q. (k q, test)) (earliest-least claimable jobs j e) in
          rw (e, claim_next_job)
            (taken j _ found refl refl (ground arith) refl (ground arith) refl least)
      | inl e ↦ elim (Option-cases (earliest (reclaimable now) jobs)) [
        | inr (j, e') ↦
            let found = earliest-get (reclaimable now) jobs j s.keys e' in
            let test = earliest-test (reclaimable now) jobs j e' in
            let none_queued = no_queued j jobs (earliest-none claimable jobs e) in
            rw (e, claim_next_job)
              (rw (e', claim_next_job)
                (taken j _ found refl refl (ground arith) refl (ground arith) refl none_queued))
        | inl e' ↦
            rw (e, claim_next_job)
              (rw (e', claim_next_job)
                (nothing (earliest-none claimable jobs e)
                  (earliest-none (reclaimable now) jobs e')))
      ]
    ]

pub claim-IsSound :
    (jobs : List Job) (old j : Job)
    → IsSound jobs
    → get old.id jobs ≡ some old
    → j.id ≡ old.id
    → j.attempt_count ≡ old.attempt_count + 1
    → old.attempt_count < max_job_attempts
    → j.status ≡ running
    → IsSound (put j jobs)
claim-IsSound jobs old j s found k a l q = record {
  keys = put-HasKeys j jobs s.keys;
  bounded = All-put IsBounded j jobs (λ h. ground (arith, q), omega arith) s.bounded;
}

-- Processing keeps the table sound and the attempts left.
pub process_frame :
    (w : World) (jobs : List Job) (id began ended : ℕ)
    → IsSound jobs
    → IsSound (process_job w jobs id began ended)
      × (spare (process_job w jobs id began ended) ≡ spare jobs)
unfolding process_job
process_frame w jobs id began ended s = elim (Bool-cases w.acquires_lock) [
  | inr l ↦ rw (l, process_job) (s, refl)
  | inl l ↦ elim (Option-cases (get id jobs)) [
    | inl n ↦ rw (l, process_job) (rw (n, process_job) (s, refl))
    | inr (j, e) ↦
        let b = All-get IsBounded id jobs j s.bounded e in
        let (k, a, c) = after-Keeps w j began ended b in
        let j' = after_processing w j began ended in
        let there : get j'.id jobs ≡ some j =
          subst (λ i. get i jobs ≡ some j) (sym (k ∙ get-key id jobs j e)) e in
        rw (l, process_job)
          (rw (e, process_job)
            (
              record {
                keys = put-HasKeys j' jobs s.keys;
                bounded = All-put IsBounded j' jobs c s.bounded;
              },
              spare-put_same j' j jobs s.keys there a,
            ))
  ]
]
