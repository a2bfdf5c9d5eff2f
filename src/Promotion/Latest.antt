-- ===== src/Promotion/Latest.antt =====
-- The latest decision of a reviewer.
use infinitas_skill.Prelude.{
  ℕ, suc, ◌<◌, String, Bool, true, false, Option, none, some, List, [], ◌∷◌, ◌≡◌, refl, sym, ap,
  subst, ◌∙◌, leb, map, str_eq, eq_iff, if◌then◌else◌, Bool-cases, inl, inr, arith, get_or, All,
  All-mono,
}
use infinitas_skill.Prelude.Sort.{sort_by}
use infinitas_skill.Install.Model.{Dict, lookup, assign}
use infinitas_skill.Install.Lookup.{lookup-assign_self, lookup-assign_ne, lookup-All, str_ne}
use infinitas_skill.Promotion.Quorum.{
  ReviewEntry, store_for, store_entry, collect_latest, latest_distinct_entries, by_key, rank_geb,
}
use infinitas_skill.Promotion.Distinct.{
  store_for-cases, store_for-either, collect_latest-IsDistinct,
}
use infinitas_skill.Promotion.Keys.{lookup-sort_by}

abbrev pub time : ReviewEntry → ℕ
time e = get_or e.at 0

abbrev pub is_by : String → ReviewEntry → Bool
is_by r e = elim e.reviewer [ none ↦ false | some q ↦ str_eq q r ]

-- Of two decisions the later one: at one time, the one that is listed later
abbrev pub later : Option ReviewEntry → Option ReviewEntry → Option ReviewEntry
later none b = b
later (some a) none = some a
later (some a) (some b) = if leb (time a) (time b) then some b else some a

-- The latest decision of a reviewer in a list: the last of those with the greatest time
abbrev pub latest_for : String → List ReviewEntry → Option ReviewEntry
latest_for r [] = none
latest_for r (e ∷ entries) =
    let rest = latest_for r entries in if is_by r e then later (some e) rest else rest

nothing_later : (a : Option ReviewEntry) → later a none ≡ a
nothing_later none = refl
nothing_later (some a) = refl

later-later : (a b c : Option ReviewEntry) → later (later a b) c ≡ later a (later b c)
later-later none b c = refl
later-later (some a) none c = refl
later-later (some a) (some b) none = ground arith
later-later (some a) (some b) (some c) = ground arith

abbrev entry_at : String → Dict ((ℕ × ℕ) × ReviewEntry) → Option ReviewEntry
entry_at r d = elim (lookup r d) [ none ↦ none | some stored ↦ some stored.1 ]

-- What is stored has its own time, and an index that has passed.
abbrev Passed : ℕ → (ℕ × ℕ) × ReviewEntry → Type 0
Passed index stored = (stored.0.0 ≡ time stored.1) × (stored.0.1 < index)

assign-All :
    (P : (ℕ × ℕ) × ReviewEntry → Type 0) (k : String) (a : (ℕ × ℕ) × ReviewEntry)
    (d : Dict ((ℕ × ℕ) × ReviewEntry))
    → P a
    → All (λ p. P p.1) d
    → All (λ p. P p.1) (assign k a d)
unfolding assign
assign-All P k a [] h s = (h, tt)
assign-All P k a ((i, b) ∷ d) h s = elim (Bool-cases (str_eq i k)) [
  | inl e ↦ rw e (h, s.1)
  | inr e ↦ rw e (s.0, assign-All P k a d h s.1)
]

entry_at-assign :
    (r q : String) (a : (ℕ × ℕ) × ReviewEntry) (d : Dict ((ℕ × ℕ) × ReviewEntry))
    → entry_at r (assign q a d) ≡ (if str_eq q r then some a.1 else entry_at r d)
entry_at-assign r q a d = elim (Bool-cases (str_eq q r)) [
  | inl e ↦
      let same : q ≡ r = (eq_iff q r).0 e in
      let found : lookup r (assign q a d) ≡ some a =
        subst (λ k. lookup k (assign q a d) ≡ some a) same (lookup-assign_self q a d) in
      rw (e, entry_at, found) refl
  | inr e ↦ rw (e, entry_at, lookup-assign_ne q r a d (λ k. str_ne q r e (sym k))) refl
]

geb-leb :
    (t i : ℕ) (stored : (ℕ × ℕ) × ReviewEntry)
    → Passed i stored
    → rank_geb (t, i) stored.0 ≡ leb (time stored.1) t
geb-leb t i stored h = ground (arith, h.0, h.1)

module _ (r q : String) (index : ℕ) (e : ReviewEntry) (d : Dict ((ℕ × ℕ) × ReviewEntry)) where
  entry_at_key : str_eq q r ≡ true → entry_at r d ≡ entry_at q d
  entry_at_key b = ap (λ k. entry_at k d) (sym ((eq_iff q r).0 b))

  stored-later :
      (stored : (ℕ × ℕ) × ReviewEntry)
      → entry_at q d ≡ some stored.1
      → rank_geb (time e, index) stored.0 ≡ leb (time stored.1) (time e)
      → entry_at r
          (if rank_geb (time e, index) stored.0 then assign q ((time e, index), e) d else d)
        ≡ (if str_eq q r then later (entry_at r d) (some e) else entry_at r d)
  stored-later stored found test = elim (Bool-cases (rank_geb (time e, index) stored.0)) [
    | inl n ↦ rw n (
        entry_at-assign r q ((time e, index), e) d ∙ elim (Bool-cases (str_eq q r)) [
          | inl b ↦ rw (b, entry_at_key b, found, sym test ∙ n) refl
          | inr b ↦ rw b refl
        ])
    | inr n ↦ rw n (elim (Bool-cases (str_eq q r)) [
      | inl b ↦ rw (b, entry_at_key b, found, sym test ∙ n) refl
      | inr b ↦ rw b refl
    ])
  ]

  found_at :
      (stored : (ℕ × ℕ) × ReviewEntry) → lookup q d ≡ some stored → entry_at q d ≡ some stored.1
  found_at stored m = rw (entry_at, m) refl

  store_for-later :
      All (λ p. Passed index p.1) d
      → entry_at r (store_for q index e d)
        ≡ (if str_eq q r then later (entry_at r d) (some e) else entry_at r d)
  store_for-later h = elim (store_for-cases q index e d) [
    | inl (m, n) ↦
        ap (entry_at r) n
        ∙ (entry_at-assign r q ((time e, index), e) d ∙ elim (Bool-cases (str_eq q r)) [
          | inl b ↦
              let nothing : entry_at q d ≡ none = rw (entry_at, m) refl in
              rw (b, entry_at_key b, nothing) refl
          | inr b ↦ rw b refl
        ])
    | inr (stored, (m, n)) ↦
        ap (entry_at r) n
        ∙ stored-later stored (found_at stored m)
            (geb-leb (time e) index stored (lookup-All (Passed index) q d stored h m))
  ]

  store_for-Passed :
      All (λ p. Passed index p.1) d → All (λ p. Passed (suc index) p.1) (store_for q index e d)
  store_for-Passed h =
      let old =
        All-mono _ (λ (p : String × ((ℕ × ℕ) × ReviewEntry)). Passed (suc index) p.1) d
          (λ p k. (k.0, omega (arith, k.1))) h in
      store_for-either (All (λ p. Passed (suc index) p.1)) q index e d
        (assign-All (Passed (suc index)) q ((time e, index), e) d (refl, omega arith) old) old

store_entry-later :
    (r : String) (by : Option String) (index : ℕ) (e : ReviewEntry)
    (d : Dict ((ℕ × ℕ) × ReviewEntry))
    → All (λ p. Passed index p.1) d
    → entry_at r (store_entry by index e d) ≡ (
        if elim by [ none ↦ false | some q ↦ str_eq q r ]
        then later (entry_at r d) (some e)
        else entry_at r d)
unfolding store_entry
store_entry-later r none index e d h = refl
store_entry-later r (some q) index e d h = store_for-later r q index e d h

store_entry-Passed :
    (by : Option String) (index : ℕ) (e : ReviewEntry) (d : Dict ((ℕ × ℕ) × ReviewEntry))
    → All (λ p. Passed index p.1) d
    → All (λ p. Passed (suc index) p.1) (store_entry by index e d)
unfolding store_entry
store_entry-Passed none index e d h = All-mono _ _ d (λ p k. (k.0, omega (arith, k.1))) h
store_entry-Passed (some q) index e d h = store_for-Passed "" q index e d h

-- The loop keeps for each reviewer the later of what is stored and what is still to come.
collect_latest-later :
    (r : String) (index : ℕ) (entries : List ReviewEntry) (d : Dict ((ℕ × ℕ) × ReviewEntry))
    → All (λ p. Passed index p.1) d
    → entry_at r (collect_latest index entries d) ≡ later (entry_at r d) (latest_for r entries)
unfolding collect_latest
collect_latest-later r index [] d h = sym (nothing_later (entry_at r d))
collect_latest-later r index (e ∷ entries) d h =
    let rest = latest_for r entries in
    let next =
      collect_latest-later r (suc index) entries (store_entry e.reviewer index e d)
        (store_entry-Passed e.reviewer index e d h) in
    let step = store_entry-later r e.reviewer index e d h in
    next
    ∙ (ap (λ o. later o rest) step ∙ elim (Bool-cases (is_by r e)) [
      | inl b ↦ rw b (later-later (entry_at r d) (some e) rest)
      | inr b ↦ rw b refl
    ])

lookup-entries :
    (r : String) (d : Dict ((ℕ × ℕ) × ReviewEntry))
    → lookup r (map (λ (p : String × ((ℕ × ℕ) × ReviewEntry)). (p.0, p.1.1)) d) ≡ entry_at r d
unfolding lookup
lookup-entries r [] = refl
lookup-entries r ((k, stored) ∷ d) = elim (Bool-cases (str_eq k r)) [
  | inl e ↦ rw (e, entry_at) refl
  | inr e ↦ rw (e, entry_at) (lookup-entries r d)
]

-- The decision that is kept for a reviewer is the latest of theirs: of those with the greatest time
-- the one that is listed last; a decision without a time has the smallest.
pub latest_distinct_entries-latest_for :
    (r : String) (entries : List ReviewEntry)
    → lookup r (latest_distinct_entries entries) ≡ latest_for r entries
unfolding latest_distinct_entries
latest_distinct_entries-latest_for r entries =
    let latest = collect_latest 0 entries [] in
    lookup-entries r (sort_by by_key latest)
    ∙ (ap
          (λ (o : Option ((ℕ × ℕ) × ReviewEntry)). elim o [
            | none ↦ none
            | some stored ↦ some stored.1
          ])
          (lookup-sort_by r by_key latest (collect_latest-IsDistinct 0 entries [] tt))
        ∙ (collect_latest-later r 0 entries [] tt ∙ refl))
