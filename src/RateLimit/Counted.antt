-- ===== src/RateLimit/Counted.antt =====
-- The counter of the memory limiter.
use infinitas_skill.Prelude.{
  ℕ, ◌+◌, String, List, [], ◌∷◌, ltb, str_eq, length, length-append, ◌≡◌, refl, Bool-cases, inl,
  inr, arith,
}
use infinitas_skill.RateLimit.Memory.{
  Bucket, Limiter, entries, maybe_prune, prune_threshold, timestamps_of, check, append_to,
  record_attempt, consume, pop, reset, reset_all,
}

-- The calls of a limiter
pub data Call : Type 0 where
  consuming : String → ℕ → ℕ → ℕ → Call
  recording : String → ℕ → Call
  resetting : String → Call
  clearing : Call

unfoldable pub serve : Call → Limiter → Limiter
unfolding consume record_attempt reset reset_all
serve (consuming key now max_attempts window_seconds) l =
    (consume key now max_attempts window_seconds l).1
serve (recording key now) l = record_attempt key now l
serve (resetting key) l = reset key l
serve clearing l = reset_all l

-- The counter is the number of attempts that are stored.
abbrev pub IsCounted : Limiter → Type 0
IsCounted l = l.total_entries ≡ entries l.attempts

entries-append_to :
    (key : String) (now : ℕ) (bs : List Bucket) → entries (append_to key now bs) ≡ entries bs + 1
unfolding entries append_to
entries-append_to key now [] = refl
entries-append_to key now (b ∷ bs) = elim (Bool-cases (str_eq b.key key)) [
  | inl q ↦ rw (q, length-append b.timestamps (now ∷ [])) (omega arith)
  | inr q ↦ rw (q, entries-append_to key now bs) (omega arith)
]

entries-pop :
    (key : String) (bs : List Bucket)
    → entries (pop key bs) + length (timestamps_of key bs) ≡ entries bs
unfolding entries pop timestamps_of
entries-pop key [] = refl
entries-pop key (b ∷ bs) = elim (Bool-cases (str_eq b.key key)) [
  | inl q ↦ rw q (omega arith)
  | inr q ↦ let rest = entries-pop key bs in rw q (omega arith)
]

maybe_prune-IsCounted : (now : ℕ) (l : Limiter) → IsCounted l → IsCounted (maybe_prune now l)
unfolding maybe_prune
maybe_prune-IsCounted now l h = elim (Bool-cases (ltb prune_threshold l.total_entries)) [
  | inl q ↦ rw q refl
  | inr q ↦ rw q h
]

record_attempt-IsCounted :
    (key : String) (now : ℕ) (l : Limiter) → IsCounted l → IsCounted (record_attempt key now l)
unfolding record_attempt
record_attempt-IsCounted key now l h =
    maybe_prune-IsCounted now
      (record { attempts = append_to key now l.attempts; total_entries = l.total_entries + 1 })
      (ground (arith, h, entries-append_to key now l.attempts))

consume-IsCounted :
    (key : String) (now max_attempts window_seconds : ℕ) (l : Limiter)
    → IsCounted l
    → IsCounted (consume key now max_attempts window_seconds l).1
unfolding consume
consume-IsCounted key now m w l h = elim (Bool-cases (check key now m w l)) [
  | inl q ↦ rw q (record_attempt-IsCounted key now l h)
  | inr q ↦ rw q h
]

reset-IsCounted : (key : String) (l : Limiter) → IsCounted l → IsCounted (reset key l)
unfolding reset
reset-IsCounted key l h = let e = entries-pop key l.attempts in ground (arith, h, e)

-- Every call keeps the counter equal to the number of attempts stored, pruning included.
pub serve-IsCounted : (c : Call) (l : Limiter) → IsCounted l → IsCounted (serve c l)
unfolding serve
serve-IsCounted (consuming key now m w) l h = consume-IsCounted key now m w l h
serve-IsCounted (recording key now) l h = record_attempt-IsCounted key now l h
serve-IsCounted (resetting key) l h = reset-IsCounted key l h
serve-IsCounted clearing l h = refl
