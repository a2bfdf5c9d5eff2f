-- ===== src/Jobs/Laws.antt =====
-- What claims, leases and processing promise to the rest of the program.
use infinitas_skill.Prelude.{
  ℕ, ◌≤◌, ◌<◌, Bool, true, false, Option, some, List, [], ◌∷◌, All-mono, ◌≡◌, ◌≢◌, refl, ◌||◌, not,
  inl, inr, Bool-cases, All, any, arith, sym, subst,
}
use infinitas_skill.Prelude.Text.{Text}
use infinitas_skill.Prelude.Table.{get, put, get-put_self}
use infinitas_skill.Jobs.Model.{Job, running, is_running, job_row}
use infinitas_skill.Jobs.Queue.{
  LogLine, claimable, reclaimable, claim_next_job, lease_deadline, running_job_is_stale,
  active_status,
}
use infinitas_skill.Jobs.Attempts.{
  IsSound, claim-IsSound, Claimed, nothing, taken, claim_next_job-Claimed,
}

-- The job of a claim, as the table has it afterwards
pub taken_after :
    (jobs : List Job) (now deadline : ℕ) (c : Option Job × List Job) (j : Job)
    → IsSound jobs
    → Claimed jobs now deadline c
    → c.0 ≡ some j
    → IsSound c.1
      × (get j.id c.1 ≡ some j)
      × (j.status ≡ running)
      × (j.lease_expires_at ≡ some deadline)
taken_after jobs now deadline _ j s (nothing q r) h = absurd (cc h)
taken_after jobs now deadline _ j s (taken old j' found k a l q _ e _) h =
    let there = get-put_self j' old.id jobs old k found in
    let same : j' ≡ j = cc h in
    let here : get j'.id (put j' jobs) ≡ some j' =
      subst (λ i. get i (put j' jobs) ≡ some j') (sym k) there in
    (
      claim-IsSound jobs old j' s found k a l q,
      subst (λ (x : Job). get x.id (put j' jobs) ≡ some x) same here,
      subst (λ (x : Job). x.status ≡ running) same q,
      subst (λ (x : Job). x.lease_expires_at ≡ some deadline) same e,
    )

-- The job of a claim, as the table had it
taken_before :
    (jobs : List Job) (now deadline : ℕ) (c : Option Job × List Job) (j : Job)
    → Claimed jobs now deadline c
    → c.0 ≡ some j
    → (old : Job) × (get j.id jobs ≡ some old) × ((claimable old || reclaimable now old) ≡ true)
taken_before jobs now deadline _ j (nothing q r) h = absurd (cc h)
taken_before jobs now deadline _ j (taken old j' found k a l q t e _) h =
    let same : j' ≡ j = cc h in
    let here : get j'.id jobs ≡ some old = subst (λ i. get i jobs ≡ some old) (sym k) found in
    (old, subst (λ (x : Job). get x.id jobs ≡ some old) same here, t)

-- A running job cannot be claimed before its lease ends.
leased :
    (j : Job) (now deadline : ℕ)
    → j.status ≡ running
    → j.lease_expires_at ≡ some deadline
    → now < deadline
    → (claimable j || reclaimable now j) ≡ false
unfolding running_job_is_stale
leased j now deadline r e l = rw (r, e) (ground arith)

-- Of two claims, the second before the lease of the first has ended, each gives another job: no two
-- workers are given the same job within a lease.
pub claim_next_job-exclusive :
    (render : LogLine → Text) (jobs : List Job) (t t' lease lease' : ℕ) (j j' : Job)
    → IsSound jobs
    → t' < lease_deadline t lease
    → (claim_next_job render jobs t lease).0 ≡ some j
    → (claim_next_job render (claim_next_job render jobs t lease).1 t' lease').0 ≡ some j'
    → j.id ≢ j'.id
claim_next_job-exclusive render jobs t t' lease lease' j j' s l h h' q =
    let c = claim_next_job render jobs t lease in
    let (s', here, r, e) =
      taken_after jobs t (lease_deadline t lease) c j s
        (claim_next_job-Claimed render jobs t lease s) h in
    let (old, found, free) =
      taken_before c.1 t' (lease_deadline t' lease') (claim_next_job render c.1 t' lease') j'
        (claim_next_job-Claimed render c.1 t' lease' s') h' in
    let same : j ≡ old = cc (here, subst (λ i. get i c.1 ≡ some old) (sym q) found) in
    let closed = leased j t' (lease_deadline t lease) r e l in
    cc (subst (λ (x : Job). (claimable x || reclaimable t' x) ≡ true) (sym same) free, closed)

-- What a claim gives where jobs are queued
abbrev pub TakesOldest : List Job → Option Job × List Job → Type 0
TakesOldest jobs (c, jobs') =
    (j : Job) × (c ≡ some j)
    × (j.status ≡ running)
    × ((old : Job) × (get j.id jobs ≡ some old) × (claimable old ≡ true))
    × All (λ b. claimable b ≡ true → j.id ≤ b.id) jobs

all_of_any :
    (p : Job → Bool) (P : Type 0) (t : List Job) → any p t ≡ true → All (λ b. p b ≡ true → P) t → P
all_of_any p P [] h k = absurd (cc h)
all_of_any p P (b ∷ t) h (k, r) = elim (Bool-cases (p b)) [
  | inl e ↦ k e
  | inr e ↦ all_of_any p P t (ground arith) r
]

takes_oldest :
    (jobs : List Job) (now deadline : ℕ) (c : Option Job × List Job)
    → Claimed jobs now deadline c
    → any claimable jobs ≡ true
    → TakesOldest jobs c
takes_oldest jobs now deadline _ (nothing q r) h = absurd (cc (q, h))
takes_oldest jobs now deadline _ (taken old j found k a l q t e least) h = (
  j,
  refl,
  q,
  (
    old,
    subst (λ i. get i jobs ≡ some old) (sym k) found,
    all_of_any claimable (claimable old ≡ true) jobs h (
        All-mono (λ b. claimable b ≡ true → (old.id ≤ b.id) × (claimable old ≡ true))
          (λ b. claimable b ≡ true → claimable old ≡ true) jobs (λ b f c. (f c).1) least),
  ),
  All-mono (λ b. claimable b ≡ true → (old.id ≤ b.id) × (claimable old ≡ true))
      (λ b. claimable b ≡ true → j.id ≤ b.id) jobs (λ b f c. subst (λ i. i ≤ b.id) (sym k) (f c).0)
      least,
)

-- On a sound table with a queued job, a claim gives a job that was queued, the one of the least id,
-- and it runs.
pub claim_next_job-TakesOldest :
    (render : LogLine → Text) (jobs : List Job) (now lease_seconds : ℕ)
    → IsSound jobs
    → any claimable jobs ≡ true
    → TakesOldest jobs (claim_next_job render jobs now lease_seconds)
claim_next_job-TakesOldest render jobs now lease_seconds s h =
    takes_oldest jobs now (lease_deadline now lease_seconds) _
      (claim_next_job-Claimed render jobs now lease_seconds s) h

-- A running job counts as active exactly while its lease is not stale.
pub stale-active :
    (now : ℕ) (j : Job)
    → is_running j.status ≡ true
    → running_job_is_stale now j ≡ not (active_status now j)
unfolding running_job_is_stale active_status
stale-active now j h = ground arith
