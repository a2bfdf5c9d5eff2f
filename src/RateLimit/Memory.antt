-- ===== src/RateLimit/Memory.antt =====
-- The limiter that keeps its attempts in memory (`MemoryRateLimiter`). Times are seconds of one clock
-- that starts late enough for the differences with it not to fall below 0.
use infinitas_skill.Prelude.{
  ℕ, ◌+◌, ◌-◌, String, Bool, true, false, List, [], ◌∷◌, ◌++◌, ltb, str_eq, if◌then◌else◌, length,
}

-- The attempts of one key, the oldest first
pub record Bucket : Type 0 where
  pub key : String
  pub timestamps : List ℕ

pub record Limiter : Type 0 where
  pub attempts : List Bucket
  pub total_entries : ℕ

-- `_PRUNE_THRESHOLD`
abbrev pub prune_threshold : ℕ
prune_threshold = 10000

-- `[t for t in timestamps if t > now - seconds]`
unfoldable pub since : ℕ → ℕ → List ℕ → List ℕ
since now seconds [] = []
since now seconds (t ∷ ts) =
    let rest = since now seconds ts in if ltb now (t + seconds) then t ∷ rest else rest

unfoldable pub surviving : ℕ → List Bucket → List Bucket
unfolding since
surviving now [] = []
surviving now (b ∷ bs) =
    let rest = surviving now bs in
    elim (since now 3600 b.timestamps) [
      | [] ↦ rest
      | t ∷ ts ↦ record { key = b.key; timestamps = t ∷ ts } ∷ rest
    ]

unfoldable pub entries : List Bucket → ℕ
entries [] = 0
entries (b ∷ bs) = length b.timestamps + entries bs

-- `_prune_all_stale`; `count` is the sum over the buckets that it keeps.
unfoldable pub prune_all_stale : ℕ → Limiter → Limiter
unfolding surviving entries
prune_all_stale now l =
    let kept = surviving now l.attempts in record { attempts = kept; total_entries = entries kept }

-- `_maybe_prune`
unfoldable pub maybe_prune : ℕ → Limiter → Limiter
unfolding prune_all_stale
maybe_prune now l = if ltb prune_threshold l.total_entries then prune_all_stale now l else l

unfoldable pub timestamps_of : String → List Bucket → List ℕ
timestamps_of key [] = []
timestamps_of key (b ∷ bs) = if str_eq b.key key then b.timestamps else timestamps_of key bs

-- `check`
unfoldable pub check : String → ℕ → ℕ → ℕ → Limiter → Bool
unfolding since timestamps_of
check key now max_attempts window_seconds l =
    ltb (length (since now window_seconds (timestamps_of key l.attempts))) max_attempts

-- `self._attempts[key].append(now)` on a `defaultdict`
unfoldable pub append_to : String → ℕ → List Bucket → List Bucket
append_to key now [] = record { key = key; timestamps = now ∷ [] } ∷ []
append_to key now (b ∷ bs) =
    let rest = append_to key now bs in
    if str_eq b.key key
    then record { key = b.key; timestamps = b.timestamps ++ (now ∷ []) } ∷ bs
    else b ∷ rest

-- `record`
unfoldable pub record_attempt : String → ℕ → Limiter → Limiter
unfolding maybe_prune append_to
record_attempt key now l =
    maybe_prune now
      (record { attempts = append_to key now l.attempts; total_entries = l.total_entries + 1 })

-- `consume`
unfoldable pub consume : String → ℕ → ℕ → ℕ → Limiter → Bool × Limiter
unfolding check record_attempt
consume key now max_attempts window_seconds l =
    if check key now max_attempts window_seconds l
    then (true, record_attempt key now l)
    else (false, l)

unfoldable pub pop : String → List Bucket → List Bucket
pop key [] = []
pop key (b ∷ bs) = let rest = pop key bs in if str_eq b.key key then bs else b ∷ rest

-- `reset`
unfoldable pub reset : String → Limiter → Limiter
unfolding pop timestamps_of
reset key l = record {
  attempts = pop key l.attempts;
  total_entries = l.total_entries - length (timestamps_of key l.attempts);
}

-- `reset_all`
unfoldable pub reset_all : Limiter → Limiter
reset_all l = record { attempts = []; total_entries = 0 }
