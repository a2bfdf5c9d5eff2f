-- ===== src/RateLimit/Examples.antt =====
-- The theorems on rate limits at concrete inputs.
use Prim.Native.Nat.{min}
use infinitas_skill.Prelude.{ℕ, String, All, ◌-◌, List, [], ◌∷◌, ◌≡◌, refl, some, none, arith}
use infinitas_skill.RateLimit.Database.{RateLimitEntry, entry_of}
use infinitas_skill.RateLimit.Window.{
  ConsumeCall, IsWithin, consume_all, attempts_live, attempts_fresh,
}
use infinitas_skill.RateLimit.Memory.{Limiter}
use infinitas_skill.RateLimit.Counted.{IsCounted, serve, consuming, serve-IsCounted}

abbrev call : String → ℕ → ℕ → ConsumeCall
call key now max_attempts = record {
  key = key;
  now = now;
  max_attempts = max_attempts;
  window_seconds = 60;
}

-- Another key calls in between.
abbrev calls : String → ℕ → List ConsumeCall
calls key max_attempts =
    call key 110 max_attempts
    ∷ call "user:1" 115 1
    ∷ call key 120 max_attempts
    ∷ call key 160 max_attempts
    ∷ []

abbrev entry : RateLimitEntry
entry = record {
  id = 1;
  key = "user:7";
  window_start = 100;
  attempt_count = 3;
  created_at = 100;
  updated_at = 105;
}

three_passed : entry_of "user:7" (entry ∷ []) ≡ some entry
unfolding entry_of
three_passed = refl

no_entry : entry_of "user:9" (entry ∷ []) ≡ none
unfolding entry_of
no_entry = refl

calls_user : All (IsWithin "user:7" 5 60 100) (calls "user:7" 5)
calls_user = (
  (omega arith, omega arith, λ _. (refl, refl)),
  (
    (omega arith, omega arith, λ q. absurd (cc q)),
    (
      (omega arith, omega arith, λ _. (refl, refl)),
      ((omega arith, omega arith, λ _. (refl, refl)), tt),
    ),
  ),
)

attempts_live_example :
    consume_all "user:7" (calls "user:7" 5) (entry ∷ []) ≡ min 3 (5 - entry.attempt_count)
attempts_live_example =
    attempts_live "user:7" 5 60 (calls "user:7" 5) (entry ∷ []) entry three_passed calls_user

calls_fresh : All (IsWithin "user:9" 2 60 110) (calls "user:9" 2)
calls_fresh = (
  (omega arith, omega arith, λ _. (refl, refl)),
  (
    (omega arith, omega arith, λ q. absurd (cc q)),
    (
      (omega arith, omega arith, λ _. (refl, refl)),
      ((omega arith, omega arith, λ _. (refl, refl)), tt),
    ),
  ),
)

attempts_fresh_example :
    consume_all "user:9" (call "user:9" 110 2 ∷ calls "user:9" 2) (entry ∷ []) ≡ min 4 2
attempts_fresh_example =
    attempts_fresh "user:9" 2 60 110 (calls "user:9" 2) (entry ∷ []) no_entry calls_fresh

abbrev start : Limiter
start = record {
  attempts = (record { key = "anon:a"; timestamps = 50 ∷ 60 ∷ [] }) ∷ [];
  total_entries = 2;
}

start-IsCounted : IsCounted start
unfolding infinitas_skill.RateLimit.Memory.entries
start-IsCounted = refl

serve-IsCounted_example : IsCounted (serve (consuming "anon:b" 70 5 60) start)
serve-IsCounted_example = serve-IsCounted (consuming "anon:b" 70 5 60) start start-IsCounted
