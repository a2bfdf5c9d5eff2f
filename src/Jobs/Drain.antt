-- ===== src/Jobs/Drain.antt =====
-- The end of the batch worker.
use infinitas_skill.Prelude.{
  ℕ, zero, suc, ◌+◌, ◌≤◌, ◌<◌, false, Option, none, some, List, ◌≡◌, refl, ◌⊎◌, inl, inr,
  Bool-cases, any, arith, subst, sym,
}
use infinitas_skill.Prelude.Table.{put, get}
use infinitas_skill.Jobs.Model.{Job, default_lease_seconds, job_row}
use infinitas_skill.Jobs.Queue.{claimable, reclaimable, claim_next_job, lease_deadline}
use infinitas_skill.Jobs.Worker.{World, Round, run_worker_loop, process_job, below}
use infinitas_skill.Jobs.Attempts.{
  IsSound, spare, Claimed, nothing, taken, claim_next_job-Claimed, claim-IsSound, process_frame,
  spare-put_more,
}

-- The loop has returned, and `P` holds of the table and of the count.
abbrev pub Ended : (List Job → ℕ → Type 0) → Option (List Job × ℕ) → Type 0
Ended P none = ⊥
Ended P (some (jobs, n)) = P jobs n

-- The limit stopped the loop.
abbrev pub Reached : Option ℕ → ℕ → Type 0
Reached none n = ⊥
Reached (some limit) n = limit ≤ n

below-Reached : (limit : Option ℕ) (n : ℕ) → below n limit ≡ false → Reached limit n
below-Reached none n h = absurd (cc h)
below-Reached (some limit) n h = ground arith

module _ (world : ℕ → World) (clock : ℕ → Round) (limit : Option ℕ) where
  -- What the loop that starts from `jobs` and `n` returns
  abbrev pub Drained : List Job → ℕ → List Job → ℕ → Type 0
  Drained jobs n jobs' n' =
      (((any claimable jobs' ≡ false) × (any (reclaimable (clock n').claimed_at) jobs' ≡ false))
        ⊎ Reached limit n')
      × (n' + spare jobs' ≡ n + spare jobs)

  Drained-fewer :
      (jobs jobs' : List Job) (n : ℕ) (r : Option (List Job × ℕ))
      → spare jobs' + 1 ≡ spare jobs
      → Ended (Drained jobs' (n + 1)) r
      → Ended (Drained jobs n) r
  Drained-fewer jobs jobs' n none k h = absurd h
  Drained-fewer jobs jobs' n (some (t, m)) k (e, l) = (e, omega arith)

  -- A round once the claim has been made
  drain_claim :
      (fuel : ℕ) (jobs : List Job) (n : ℕ) (c : Option Job × List Job)
      → Claimed jobs
          (clock n).claimed_at
          (lease_deadline (clock n).claimed_at default_lease_seconds)
          c
      → spare jobs < suc fuel
      → IsSound jobs
      → ((jobs' : List Job)
          → spare jobs' < fuel
          → IsSound jobs'
          → Ended (Drained jobs' (n + 1)) (run_worker_loop world clock fuel limit jobs' (n + 1)))
      → Ended (Drained jobs n) (elim c.0 [
        | none ↦ some (c.1, n)
        | some j ↦
            run_worker_loop world clock fuel limit
              (process_job (world n) c.1 j.id (clock n).began_at (clock n).ended_at)
              (n + 1)
      ])
  drain_claim fuel jobs n _ (nothing q r) f s next = (inl (q, r), refl)
  drain_claim fuel jobs n _ (taken old j found k a l q _ _ _) f s next =
      let t = clock n in
      let there : get j.id jobs ≡ some old = subst (λ i. get i jobs ≡ some old) (sym k) found in
      let fewer = spare-put_more j old jobs s.keys there a l in
      let (s', same) =
        process_frame (world n) (put j jobs) j.id t.began_at t.ended_at
          (claim-IsSound jobs old j s found k a l q) in
      let jobs' = process_job (world n) (put j jobs) j.id t.began_at t.ended_at in
      Drained-fewer jobs jobs' n _ (omega arith) (next jobs' (omega arith) s')

  drain_round :
      (fuel : ℕ) (jobs : List Job) (n : ℕ)
      → spare jobs < suc fuel
      → IsSound jobs
      → ((jobs' : List Job)
          → spare jobs' < fuel
          → IsSound jobs'
          → Ended (Drained jobs' (n + 1)) (run_worker_loop world clock fuel limit jobs' (n + 1)))
      → Ended (Drained jobs n) (run_worker_loop world clock (suc fuel) limit jobs n)
  unfolding run_worker_loop
  drain_round fuel jobs n f s next =
      let c = claim_next_job (world n).render jobs (clock n).claimed_at default_lease_seconds in
      elim (Bool-cases (below n limit)) [
        | inl b ↦
            rw (b, run_worker_loop)
              (drain_claim fuel jobs n c
                (claim_next_job-Claimed (world n).render jobs (clock n).claimed_at
                  default_lease_seconds s)
                f s next)
        | inr b ↦ rw (b, run_worker_loop) (inr (below-Reached limit n b), refl)
      ]

  -- In batch mode the loop returns, however the handlers answer: on a sound table one round for each
  -- attempt that its jobs have left, and one more, are enough. Each job it counts as processed used
  -- exactly one attempt. Unless the limit stopped it, no job is queued and no stale one can be taken
  -- over when it returns.
  pub run_worker_loop-Ended :
      (fuel : ℕ) (jobs : List Job) (n : ℕ)
      → spare jobs < fuel
      → IsSound jobs
      → Ended (Drained jobs n) (run_worker_loop world clock fuel limit jobs n)
  run_worker_loop-Ended zero jobs n f s = absurd (omega arith)
  run_worker_loop-Ended (suc fuel) jobs n f s =
      drain_round fuel jobs n f s (λ jobs' f' s'. run_worker_loop-Ended fuel jobs' (n + 1) f' s')
