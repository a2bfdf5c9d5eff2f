-- ===== src/Promotion/Distinct.antt =====
-- Every reviewer counts once.
use infinitas_skill.Prelude.{
  ℕ, suc, String, Bool, true, List, [], ◌∷◌, ◌≡◌, refl, sym, ap, subst, map, select, str_eq, eq_iff,
  Bool-cases, Option, none, some, Option-cases, if◌then◌else◌, ◌⊎◌, inl, inr, get_or,
}
use infinitas_skill.Prelude.Sort.{sort_by}
use infinitas_skill.Install.Model.{Dict, lookup, assign}
use infinitas_skill.Install.Plan.{elem}
use infinitas_skill.Install.Visit.{IsDistinct}
use infinitas_skill.Promotion.Quorum.{
  ReviewEntry, store_for, store_entry, collect_latest, latest_distinct_entries, by_key, rank_geb,
  configured_reviewers,
}
use infinitas_skill.Promotion.Evaluate.{
  Item, make_item, ReviewsConfig, Subject, owner_fallback, decisions_of,
}
use infinitas_skill.Promotion.Classified.{approves, item_of}
use infinitas_skill.Promotion.Gate.{latest_of, decisions_of-approvals}
use infinitas_skill.Promotion.Keys.{keys, assign-IsDistinct, sort_by-IsDistinct, select-IsDistinct}

-- What the body of the loop leaves: the entry is stored, or nothing changes.
pub store_for-cases :
    (r : String) (index : ℕ) (e : ReviewEntry) (d : Dict ((ℕ × ℕ) × ReviewEntry))
    → ((lookup r d ≡ none) × (store_for r index e d ≡ assign r ((get_or e.at 0, index), e) d))
      ⊎ ((stored : (ℕ × ℕ) × ReviewEntry) × ((lookup r d ≡ some stored)
            × (store_for r index e d ≡ (
                if rank_geb (get_or e.at 0, index) stored.0
                then assign r ((get_or e.at 0, index), e) d
                else d))))
unfolding store_for
store_for-cases r index e d = elim (Option-cases (lookup r d)) [
  | inl m ↦ inl (m, rw (store_for, m) refl)
  | inr (stored, m) ↦ inr (stored, (m, rw (store_for, m) refl))
]

-- What holds after storing and for what was there, holds after the body.
pub store_for-either :
    (P : Dict ((ℕ × ℕ) × ReviewEntry) → Type 0) (r : String) (index : ℕ) (e : ReviewEntry)
    (d : Dict ((ℕ × ℕ) × ReviewEntry))
    → P (assign r ((get_or e.at 0, index), e) d)
    → P d
    → P (store_for r index e d)
store_for-either P r index e d a b = elim (store_for-cases r index e d) [
  | inl (_, q) ↦ subst P (sym q) a
  | inr (stored, (_, q)) ↦
      subst P (sym q) (elim (Bool-cases (rank_geb (get_or e.at 0, index) stored.0)) [
        | inl n ↦ rw n a
        | inr n ↦ rw n b
      ])
]

store_entry-IsDistinct :
    (by : Option String) (index : ℕ) (e : ReviewEntry) (d : Dict ((ℕ × ℕ) × ReviewEntry))
    → IsDistinct (keys d)
    → IsDistinct (keys (store_entry by index e d))
unfolding store_entry
store_entry-IsDistinct none index e d h = h
store_entry-IsDistinct (some r) index e d h =
    store_for-either (λ m. IsDistinct (keys m)) r index e d
      (assign-IsDistinct r ((get_or e.at 0, index), e) d h) h

pub collect_latest-IsDistinct :
    (index : ℕ) (entries : List ReviewEntry) (d : Dict ((ℕ × ℕ) × ReviewEntry))
    → IsDistinct (keys d)
    → IsDistinct (keys (collect_latest index entries d))
unfolding collect_latest
collect_latest-IsDistinct index [] d h = h
collect_latest-IsDistinct index (e ∷ entries) d h =
    collect_latest-IsDistinct (suc index) entries (store_entry e.reviewer index e d)
      (store_entry-IsDistinct e.reviewer index e d h)

keys-latest :
    (d : List (String × ((ℕ × ℕ) × ReviewEntry)))
    → keys (map (λ (p : String × ((ℕ × ℕ) × ReviewEntry)). (p.0, p.1.1)) d) ≡ keys d
keys-latest [] = refl
keys-latest (p ∷ d) = ap (λ l. p.0 ∷ l) (keys-latest d)

pub latest_of-IsDistinct : (s : Subject) → IsDistinct (keys (latest_of s))
unfolding latest_distinct_entries
latest_of-IsDistinct s =
    let latest = collect_latest 0 s.entries [] in
    sort_by-IsDistinct by_key (latest_distinct_entries s.entries) (
      subst IsDistinct (sym (keys-latest (sort_by by_key latest)))
        (sort_by-IsDistinct by_key latest (collect_latest-IsDistinct 0 s.entries [] tt)))

module _ (reviewers : Dict (List String)) (owner : String) (distinct_owner fallback : Bool) where
  pub reviewers-keys :
      (l : List (String × ReviewEntry))
      → map (λ (i : Item). i.reviewer) (map (item_of reviewers owner distinct_owner fallback) l)
        ≡ keys l
  unfolding make_item
  reviewers-keys [] = refl
  reviewers-keys (p ∷ l) = ap (λ k. p.0 ∷ k) (reviewers-keys l)

-- The approvals of an evaluation are by different reviewers: none is counted twice.
pub decisions_of-IsDistinct :
    (config : ReviewsConfig) (s : Subject)
    → IsDistinct (map (λ (i : Item). i.reviewer) (decisions_of config s).approvals)
decisions_of-IsDistinct config s =
    let reviewers = configured_reviewers config.groups in
    let required = config.reviewer_must_differ_from_owner in
    let fallback = owner_fallback config s in
    let f = approves reviewers s.owner required fallback in
    subst (λ l. IsDistinct (map (λ (i : Item). i.reviewer) l))
      (sym (decisions_of-approvals config s))
      (subst IsDistinct
        (sym (reviewers-keys reviewers s.owner required fallback (select f (latest_of s))))
        (select-IsDistinct f (latest_of s) (latest_of-IsDistinct s)))

pub selected_key :
    (x : String) (f : String × ReviewEntry → Bool) (d : List (String × ReviewEntry))
    → elem x (keys (select f d)) ≡ true
    → (e : ReviewEntry) × (f (x, e) ≡ true)
unfolding elem
selected_key x f [] h = absurd (cc h)
selected_key x f (p ∷ d) h = elim (Bool-cases (f p)) [
  | inr n ↦ selected_key x f d (rw n at h)
  | inl n ↦
      let h' = rw n at h in
      elim (Bool-cases (str_eq p.0 x)) [
        | inl e ↦ (p.1, subst (λ k. f (k, p.1) ≡ true) ((eq_iff p.0 x).0 e) n)
        | inr e ↦ selected_key x f d (rw e at h')
      ]
]
