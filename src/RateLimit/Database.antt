-- ===== src/RateLimit/Database.antt =====
-- The limiter that keeps its counts in the database (`DBRateLimiter`). Times are seconds.
use infinitas_skill.Prelude.{
  ℕ, ◌+◌, ◌*◌, String, Bool, true, false, Option, none, some, List, [], ◌∷◌, ◌||◌, ltb, ◌==◌,
  str_eq, if◌then◌else◌,
}
use infinitas_skill.Prelude.Table.{Row, next_id}

-- `RateLimitEntry`; its `key` is unique.
pub record RateLimitEntry : Type 0 where
  pub id : ℕ
  pub key : String
  pub window_start : ℕ
  pub attempt_count : ℕ
  pub created_at : ℕ
  pub updated_at : ℕ

instance abbrev pub entry_row : Row RateLimitEntry
entry_row = record { key = λ e. e.id }

-- `DELETE ... WHERE window_start < now - seconds`
unfoldable pub drop_before : ℕ → ℕ → List RateLimitEntry → List RateLimitEntry
drop_before now seconds [] = []
drop_before now seconds (e ∷ rows) =
    let rest = drop_before now seconds rows in
    if ltb (e.window_start + seconds) now then rest else e ∷ rest

unfoldable pub entry_of : String → List RateLimitEntry → Option RateLimitEntry
entry_of key [] = none
entry_of key (e ∷ rows) = if str_eq e.key key then some e else entry_of key rows

-- The update of the row of a key
unfoldable pub put_entry : RateLimitEntry → List RateLimitEntry → List RateLimitEntry
put_entry e [] = []
put_entry e (d ∷ rows) =
    let rest = put_entry e rows in if str_eq d.key e.key then e ∷ rows else d ∷ rest

unfoldable pub new_entry : List RateLimitEntry → String → ℕ → ℕ → RateLimitEntry
new_entry rows key start now = record {
  id = next_id rows;
  key = key;
  window_start = start;
  attempt_count = 1;
  created_at = now;
  updated_at = now;
}

-- The `set_` of the upsert
unfoldable pub counted : RateLimitEntry → ℕ → ℕ → RateLimitEntry
counted e now window_seconds = record e {
  attempt_count = if ltb (e.window_start + window_seconds) now then 1 else e.attempt_count + 1;
  window_start = if ltb (e.window_start + window_seconds) now then now else e.window_start;
  updated_at = now;
}

-- `_build_consume_statement`, and whether it changed a row
unfoldable pub upsert : String → ℕ → ℕ → ℕ → List RateLimitEntry → Bool × List RateLimitEntry
unfolding entry_of put_entry new_entry counted
upsert key now window_seconds max_attempts rows = elim (entry_of key rows) [
  | none ↦ (true, new_entry rows key now now ∷ rows)
  | some e ↦
      if ltb (e.window_start + window_seconds) now || ltb e.attempt_count max_attempts
      then (true, put_entry (counted e now window_seconds) rows)
      else (false, rows)
]

-- `consume`; `max_attempts` is not negative.
unfoldable pub consume : String → ℕ → ℕ → ℕ → List RateLimitEntry → Bool × List RateLimitEntry
unfolding upsert drop_before
consume key now max_attempts window_seconds rows =
    if max_attempts == 0
    then (false, rows)
    else upsert key now window_seconds max_attempts (drop_before now (window_seconds * 2) rows)

-- `reset`
unfoldable pub reset : String → List RateLimitEntry → List RateLimitEntry
reset key [] = []
reset key (e ∷ rows) = let rest = reset key rows in if str_eq e.key key then rest else e ∷ rest

total_since : String → ℕ → ℕ → List RateLimitEntry → ℕ
total_since key now seconds [] = 0
total_since key now seconds (e ∷ rows) =
    let rest = total_since key now seconds rows in
    if str_eq e.key key
    then (if ltb (e.window_start + seconds) now then rest else e.attempt_count + rest)
    else rest

-- `check`
unfoldable pub check : String → ℕ → ℕ → ℕ → List RateLimitEntry → Bool × List RateLimitEntry
unfolding drop_before total_since
check key now max_attempts window_seconds rows =
    let kept = drop_before now window_seconds rows in
    (ltb (total_since key now window_seconds kept) max_attempts, kept)

-- `record`: a bucket of one second starts at the whole second.
unfoldable pub record_attempt : String → ℕ → List RateLimitEntry → List RateLimitEntry
unfolding entry_of put_entry new_entry
record_attempt key now rows = elim (entry_of key rows) [
  | none ↦ new_entry rows key now now ∷ rows
  | some e ↦ put_entry (record e { attempt_count = e.attempt_count + 1; updated_at = now }) rows
]
