-- ===== src/RateLimit/Window.antt =====
-- How many attempts the database limiter lets through in one window, and what other keys do to it.
use Prim.Native.Nat.{min}
use infinitas_skill.Prelude.{
  ℕ, ◌+◌, ◌-◌, ◌*◌, ◌≤◌, ◌<◌, String, true, false, none, some, List, [], ◌∷◌, ◌≡◌, refl, ltb, ◌==◌,
  str_eq, eq_iff, if◌then◌else◌, All, ◌||◌, ◌&&◌, Option-cases, Bool-cases, inl, inr, arith, sym,
  ◌∙◌, subst,
}
use infinitas_skill.RateLimit.Database.{
  RateLimitEntry, entry_of, put_entry, drop_before, counted, upsert, new_entry, consume,
}

entry-key :
    (key : String) (rows : List RateLimitEntry) (e : RateLimitEntry)
    → entry_of key rows ≡ some e
    → str_eq e.key key ≡ true
unfolding entry_of
entry-key key [] e h = absurd (cc h)
entry-key key (d ∷ rows) e h = elim (Bool-cases (str_eq d.key key)) [
  | inl q ↦ ground (arith, h, q)
  | inr q ↦ ground (arith, entry-key key rows e)
]

entry-drop :
    (key : String) (now seconds : ℕ) (rows : List RateLimitEntry) (e : RateLimitEntry)
    → entry_of key rows ≡ some e
    → ltb (e.window_start + seconds) now ≡ false
    → entry_of key (drop_before now seconds rows) ≡ some e
unfolding entry_of drop_before
entry-drop key now seconds [] e h l = absurd (cc h)
entry-drop key now seconds (d ∷ rows) e h l = elim (Bool-cases (str_eq d.key key)) [
  | inl q ↦
      let same : d ≡ e = ground (arith, h, q) in
      let l' =
        subst (λ (x : RateLimitEntry). ltb (x.window_start + seconds) now ≡ false) (sym same) l in
      rw (l', q) (cc same)
  | inr q ↦
      let rest = entry-drop key now seconds rows e (ground (arith, h, q)) l in
      elim (Bool-cases (ltb (d.window_start + seconds) now)) [
        | inl k ↦ rw k rest
        | inr k ↦ rw (k, q) rest
      ]
]

same_key : (s t : String) → s ≡ t → str_eq s t ≡ true
same_key s t h = (eq_iff s t).1 h

entry-put :
    (key : String) (rows : List RateLimitEntry) (e d : RateLimitEntry)
    → entry_of key rows ≡ some e
    → d.key ≡ key
    → entry_of key (put_entry d rows) ≡ some d
unfolding entry_of put_entry
entry-put key [] e d h k = absurd (cc h)
entry-put key (c ∷ rows) e d h k = elim (Bool-cases (str_eq c.key key)) [
  | inl q ↦
      let q' = subst (λ s. str_eq c.key s ≡ true) (sym k) q in rw (q', same_key d.key key k) refl
  | inr q ↦
      let q' = subst (λ s. str_eq c.key s ≡ false) (sym k) q in
      let rest = entry-put key rows e d (ground (arith, h, q)) k in rw (q', q) rest
]

entry-put_ne :
    (key : String) (rows : List RateLimitEntry) (d : RateLimitEntry)
    → str_eq d.key key ≡ false
    → entry_of key (put_entry d rows) ≡ entry_of key rows
unfolding entry_of put_entry
entry-put_ne key [] d n = refl
entry-put_ne key (c ∷ rows) d n = elim (Bool-cases (str_eq c.key d.key)) [
  | inl q ↦
      let same : c.key ≡ d.key = (eq_iff c.key d.key).0 q in
      let n' = subst (λ k. str_eq k key ≡ false) (sym same) n in rw (q, n, n') refl
  | inr q ↦ elim (Bool-cases (str_eq c.key key)) [
    | inl k ↦ rw (q, k) refl
    | inr k ↦ rw (q, k) (entry-put_ne key rows d n)
  ]
]

upsert-other :
    (other key : String) (now window_seconds max_attempts : ℕ) (rows : List RateLimitEntry)
    → str_eq other key ≡ false
    → entry_of key (upsert other now window_seconds max_attempts rows).1 ≡ entry_of key rows
unfolding upsert new_entry entry_of counted
upsert-other other key now window_seconds max_attempts rows n =
    elim (Option-cases (entry_of other rows)) [
      | inl q ↦ rw (q, upsert, n) refl
      | inr (d, q) ↦
          let same : d.key ≡ other = (eq_iff d.key other).0 (entry-key other rows d q) in
          let n' = subst (λ k. str_eq k key ≡ false) (sym same) n in
          let kept = entry-put_ne key rows (counted d now window_seconds) n' in
          elim (Bool-cases
            (ltb (d.window_start + window_seconds) now || ltb d.attempt_count max_attempts)) [
              | inl t ↦ rw (q, upsert, t) kept
              | inr t ↦ rw (q, upsert, t) refl
            ]
    ]

-- A call of `consume`
pub record ConsumeCall : Type 0 where
  pub key : String
  pub now : ℕ
  pub max_attempts : ℕ
  pub window_seconds : ℕ

-- The calls of a server, of any keys: how many of those of `key` were let through
unfoldable pub consume_all : String → List ConsumeCall → List RateLimitEntry → ℕ
unfolding consume
consume_all key [] rows = 0
consume_all key (c ∷ calls) rows =
    let (passed, rows') = consume c.key c.now c.max_attempts c.window_seconds rows in
    let count = consume_all key calls rows' in
    if str_eq c.key key && passed then count + 1 else count

-- How many calls are of `key`
abbrev pub calls_of : String → List ConsumeCall → ℕ
calls_of key [] = 0
calls_of key (c ∷ calls) =
    let rest = calls_of key calls in if str_eq c.key key then rest + 1 else rest

-- A call before the end of a window of `key`: one of this key has its limit and its window, and none
-- prunes by a window that is shorter than half of that.
abbrev pub IsWithin : String → ℕ → ℕ → ℕ → ConsumeCall → Type 0
IsWithin key max_attempts window_seconds start c =
    (c.now ≤ start + window_seconds)
    × (window_seconds ≤ c.window_seconds * 2)
    × (str_eq c.key key ≡ true
        → (c.max_attempts ≡ max_attempts) × (c.window_seconds ≡ window_seconds))

consume-live :
    (key : String) (now max_attempts window_seconds : ℕ) (rows : List RateLimitEntry)
    (e : RateLimitEntry)
    → entry_of key rows ≡ some e
    → now ≤ e.window_start + window_seconds
    → (e' : RateLimitEntry) × (entry_of key (consume key now max_attempts window_seconds rows).1
        ≡ some e')
      × (e'.window_start ≡ e.window_start)
      × ((consume key now max_attempts window_seconds rows).0 ≡ ltb e.attempt_count max_attempts)
      × (e'.attempt_count
          ≡ (if ltb e.attempt_count max_attempts then e.attempt_count + 1 else e.attempt_count))
unfolding consume upsert counted
consume-live key now max_attempts window_seconds rows e h l =
    let fresh : ltb (e.window_start + window_seconds) now ≡ false = ground (arith, l) in
    let kept = drop_before now (window_seconds * 2) rows in
    let here = entry-drop key now (window_seconds * 2) rows e h (ground (arith, l)) in
    let k : e.key ≡ key = (eq_iff e.key key).0 (entry-key key rows e h) in
    let e' : RateLimitEntry = record e { attempt_count = e.attempt_count + 1; updated_at = now } in
    let after = entry-put key kept e e' here k in
    elim (Bool-cases (max_attempts == 0)) [
      | inl z ↦
          let m : ltb e.attempt_count max_attempts ≡ false = ground (arith, z) in
          rw (z, consume, m) (e, h, refl, refl, refl)
      | inr z ↦ elim (Bool-cases (ltb e.attempt_count max_attempts)) [
        | inl m ↦ rw (z, consume, here, upsert, fresh, m) (e', after, refl, refl, refl)
        | inr m ↦ rw (z, consume, here, upsert, fresh, m) (e, here, refl, refl, refl)
      ]
    ]

consume-other :
    (key : String) (c : ConsumeCall) (rows : List RateLimitEntry) (e : RateLimitEntry)
    → str_eq c.key key ≡ false
    → entry_of key rows ≡ some e
    → ltb (e.window_start + c.window_seconds * 2) c.now ≡ false
    → entry_of key (consume c.key c.now c.max_attempts c.window_seconds rows).1 ≡ some e
unfolding consume
consume-other key c rows e n h l = elim (Bool-cases (c.max_attempts == 0)) [
  | inl z ↦ rw (z, consume) h
  | inr z ↦
      let kept = drop_before c.now (c.window_seconds * 2) rows in
      rw (z, consume)
        (upsert-other c.key key c.now c.window_seconds c.max_attempts kept n
          ∙ entry-drop key c.now (c.window_seconds * 2) rows e h l)
]

-- Of the attempts that a key makes while its window lasts, as many pass as the limit still allowed
-- when the first was made, and the others are refused, whatever other keys attempt in between with
-- windows of at least half the length.
pub attempts_live :
    (key : String) (max_attempts window_seconds : ℕ) (calls : List ConsumeCall)
    (rows : List RateLimitEntry) (e : RateLimitEntry)
    → entry_of key rows ≡ some e
    → All (IsWithin key max_attempts window_seconds e.window_start) calls
    → consume_all key calls rows ≡ min (calls_of key calls) (max_attempts - e.attempt_count)
unfolding consume_all
attempts_live key max_attempts window_seconds [] rows e h l = ground arith
attempts_live key max_attempts window_seconds (c ∷ calls) rows e h ((l, w, same), ls) =
    let rows' = (consume c.key c.now c.max_attempts c.window_seconds rows).1 in
    elim (Bool-cases (str_eq c.key key)) [
      | inl k ↦
          let (m, s) = same k in
          let named : c.key ≡ key = (eq_iff c.key key).0 k in
          let h' : entry_of c.key rows ≡ some e =
            subst (λ x. entry_of x rows ≡ some e) (sym named) h in
          let (e', here, start, passes, count) =
            consume-live c.key c.now c.max_attempts c.window_seconds rows e h' (omega arith) in
          let here' : entry_of key rows' ≡ some e' =
            subst (λ x. entry_of x rows' ≡ some e') named here in
          let later =
            subst (λ t. All (IsWithin key max_attempts window_seconds t) calls) (sym start) ls in
          let rest = attempts_live key max_attempts window_seconds calls rows' e' here' later in
          let passes' =
            subst
              (λ x.
                (consume c.key c.now c.max_attempts c.window_seconds rows).0
                ≡ ltb e.attempt_count x)
              m passes in
          let count' =
            subst
              (λ x.
                e'.attempt_count
                ≡ (if ltb e.attempt_count x then e.attempt_count + 1 else e.attempt_count))
              m count in
          rw (k, passes', rest, count') (ground arith)
      | inr k ↦
          let here = consume-other key c rows e k h (ground (arith, l, w)) in
          let rest = attempts_live key max_attempts window_seconds calls rows' e here ls in
          rw (k, rest) refl
    ]

pub entry-drop_none :
    (key : String) (now seconds : ℕ) (rows : List RateLimitEntry)
    → entry_of key rows ≡ none
    → entry_of key (drop_before now seconds rows) ≡ none
unfolding entry_of drop_before
entry-drop_none key now seconds [] h = refl
entry-drop_none key now seconds (d ∷ rows) h = elim (Bool-cases (str_eq d.key key)) [
  | inl q ↦ absurd (ground (arith, h, q))
  | inr q ↦
      let rest = entry-drop_none key now seconds rows (ground (arith, h, q)) in
      elim (Bool-cases (ltb (d.window_start + seconds) now)) [
        | inl k ↦ rw k rest
        | inr k ↦ rw (k, q) rest
      ]
]

drop_none :
    (key : String) (now seconds : ℕ) (rows : List RateLimitEntry)
    → All (λ e. str_eq e.key key ≡ true → e.window_start + seconds < now) rows
    → entry_of key (drop_before now seconds rows) ≡ none
unfolding entry_of drop_before
drop_none key now seconds [] l = refl
drop_none key now seconds (d ∷ rows) (l, ls) =
    let rest = drop_none key now seconds rows ls in
    elim (Bool-cases (ltb (d.window_start + seconds) now)) [
      | inl k ↦ rw k rest
      | inr k ↦ elim (Bool-cases (str_eq d.key key)) [
        | inl q ↦ absurd (ground (arith, l q, k))
        | inr q ↦ rw (k, q) rest
      ]
    ]

-- An attempt of another key removes the rows that started more than two of its windows ago.
pub consume-forgets :
    (key other : String) (now max_attempts window_seconds : ℕ) (rows : List RateLimitEntry)
    → str_eq other key ≡ false
    → 0 < max_attempts
    → All (λ e. str_eq e.key key ≡ true → e.window_start + window_seconds * 2 < now) rows
    → entry_of key (consume other now max_attempts window_seconds rows).1 ≡ none
unfolding consume
consume-forgets key other now max_attempts window_seconds rows n m l =
    let z : (max_attempts == 0) ≡ false = ground (arith, m) in
    let kept = drop_before now (window_seconds * 2) rows in
    rw (z, consume)
      (upsert-other other key now window_seconds max_attempts kept n
        ∙ drop_none key now (window_seconds * 2) rows l)

attempts_zero :
    (key : String) (window_seconds start : ℕ) (calls : List ConsumeCall)
    (rows : List RateLimitEntry)
    → All (IsWithin key 0 window_seconds start) calls
    → consume_all key calls rows ≡ 0
unfolding consume_all consume
attempts_zero key window_seconds start [] rows l = refl
attempts_zero key window_seconds start (c ∷ calls) rows ((l, w, same), ls) =
    let rows' = (consume c.key c.now c.max_attempts c.window_seconds rows).1 in
    let rest = attempts_zero key window_seconds start calls rows' ls in
    elim (Bool-cases (str_eq c.key key)) [
      | inl k ↦
          let z : (c.max_attempts == 0) ≡ true = ground (arith, (same k).0) in
          let refused : (consume c.key c.now c.max_attempts c.window_seconds rows).0 ≡ false =
            rw (z, consume) refl in
          rw (k, refused) rest
      | inr k ↦ rw k rest
    ]

-- The window of a key without a row starts with its first attempt: of that one and of those made
-- while the window lasts, no more pass than the limit, and as many as that if they are that many,
-- whatever other keys attempt in between with windows of at least half the length.
pub attempts_fresh :
    (key : String) (max_attempts window_seconds now : ℕ) (calls : List ConsumeCall)
    (rows : List RateLimitEntry)
    → entry_of key rows ≡ none
    → All (IsWithin key max_attempts window_seconds now) calls
    → (let first : ConsumeCall = record {
      key = key;
      now = now;
      max_attempts = max_attempts;
      window_seconds = window_seconds;
    } in
        consume_all key (first ∷ calls) rows ≡ min (calls_of key calls + 1) max_attempts)
unfolding consume_all consume upsert new_entry entry_of
attempts_fresh key max_attempts window_seconds now calls rows h l =
    elim (Bool-cases (max_attempts == 0)) [
      | inl z ↦
          let zero_max : max_attempts ≡ 0 = ground (arith, z) in
          let l' = subst (λ m. All (IsWithin key m window_seconds now) calls) zero_max l in
          let rest = attempts_zero key window_seconds now calls rows l' in
          rw (z, same_key key key refl, rest) (ground (arith, z))
      | inr z ↦
          let kept = drop_before now (window_seconds * 2) rows in
          let e = new_entry kept key now now in
          let absent = entry-drop_none key now (window_seconds * 2) rows h in
          let here : entry_of key (e ∷ kept) ≡ some e = rw (same_key key key refl) refl in
          let rest = attempts_live key max_attempts window_seconds calls (e ∷ kept) e here l in
          rw (z, consume, absent, upsert, same_key key key refl, rest) (ground (arith, z))
    ]
