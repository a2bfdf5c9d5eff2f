-- ===== src/Prelude/Sort.antt =====
-- Stable sorting, `sorted(xs, key=cmp_to_key(cmp))`; and the same where comparing may raise.
use Prim.Native.Nat.{suc, Ordering}
use mathlib.Core.Path.{◌≡◌, refl, ap, subst, ◌∙◌}
use mathlib.Core.Logic.{inl, inr}
use mathlib.Core.Bool.{Bool, true, false}
use mathlib.Core.Option.{Option, none, some}
use mathlib.Core.List.{List, [], ◌∷◌}
use infinitas_skill.Prelude.Tests.{Bool-cases, Option-cases, if◌then◌else◌}
use infinitas_skill.Prelude.Lists.{length, All}

-- The left item stays in front unless it is greater.
abbrev pub in_front : Ordering → Bool
in_front Ordering.gt = false
in_front _ = true

module _ {ℓ} {A : Type ℓ} where
  unfoldable pub insert_by : (A → A → Ordering) → A → List A → List A
  insert_by cmp x [] = x ∷ []
  insert_by cmp x (y ∷ l) =
      let rest = insert_by cmp x l in if in_front (cmp x y) then x ∷ y ∷ l else y ∷ rest

  unfoldable pub sort_by : (A → A → Ordering) → List A → List A
  unfolding insert_by
  sort_by cmp [] = []
  sort_by cmp (x ∷ l) = insert_by cmp x (sort_by cmp l)

  unfoldable pub insert_raising : (A → A → Option Ordering) → A → List A → Option (List A)
  insert_raising cmp x [] = some (x ∷ [])
  insert_raising cmp x (y ∷ l) =
      let rest = insert_raising cmp x l in
      elim (cmp x y) [
        | none ↦ none
        | some o ↦
            if in_front o
            then some (x ∷ y ∷ l)
            else elim rest [ none ↦ none | some r ↦ some (y ∷ r) ]
      ]

  unfoldable pub sort_raising : (A → A → Option Ordering) → List A → Option (List A)
  unfolding insert_raising
  sort_raising cmp [] = some []
  sort_raising cmp (x ∷ l) = elim (sort_raising cmp l) [
    | none ↦ none
    | some r ↦ insert_raising cmp x r
  ]

  length-insert_by :
      (cmp : A → A → Ordering) (x : A) (l : List A) → length (insert_by cmp x l) ≡ suc (length l)
  unfolding insert_by
  length-insert_by cmp x [] = refl
  length-insert_by cmp x (y ∷ l) = elim (Bool-cases (in_front (cmp x y))) [
    | inl e ↦ rw e refl
    | inr e ↦ rw e (ap suc (length-insert_by cmp x l))
  ]

  pub length-sort_by : (cmp : A → A → Ordering) (l : List A) → length (sort_by cmp l) ≡ length l
  unfolding sort_by
  length-sort_by cmp [] = refl
  length-sort_by cmp (x ∷ l) =
      length-insert_by cmp x (sort_by cmp l) ∙ ap suc (length-sort_by cmp l)

module _ {ℓ κ} {A : Type ℓ} (P : A → Type κ) where
  All-insert_by :
      (cmp : A → A → Ordering) (x : A) (l : List A) → P x → All P l → All P (insert_by cmp x l)
  unfolding insert_by
  All-insert_by cmp x [] p h = (p, tt)
  All-insert_by cmp x (y ∷ l) p h = elim (Bool-cases (in_front (cmp x y))) [
    | inl e ↦ rw e (p, h)
    | inr e ↦ rw e (h.0, All-insert_by cmp x l p h.1)
  ]

  pub All-sort_by : (cmp : A → A → Ordering) (l : List A) → All P l → All P (sort_by cmp l)
  unfolding sort_by
  All-sort_by cmp [] h = tt
  All-sort_by cmp (x ∷ l) h = All-insert_by cmp x (sort_by cmp l) h.0 (All-sort_by cmp l h.1)

  insert_by-All :
      (cmp : A → A → Ordering) (x : A) (l : List A) → All P (insert_by cmp x l) → P x × All P l
  unfolding insert_by
  insert_by-All cmp x [] h = h
  insert_by-All cmp x (y ∷ l) h = elim (Bool-cases (in_front (cmp x y))) [
    | inl e ↦ rw e at h
    | inr e ↦ let k = rw e at h in let r = insert_by-All cmp x l k.1 in (r.0, (k.0, r.1))
  ]

  -- What holds of all items of the sorted list holds of all of the list.
  pub sort_by-All : (cmp : A → A → Ordering) (l : List A) → All P (sort_by cmp l) → All P l
  unfolding sort_by
  sort_by-All cmp [] h = tt
  sort_by-All cmp (x ∷ l) h =
      let r = insert_by-All cmp x (sort_by cmp l) h in (r.0, sort_by-All cmp l r.1)

  -- Of the list that comes out, where nothing was raised
  OnList : Option (List A) → Type κ
  OnList none = Unit
  OnList (some r) = All P r

  OnList-cons :
      (y : A) (o : Option (List A))
      → P y
      → OnList o
      → OnList (elim o [ none ↦ none | some r ↦ some (y ∷ r) ])
  unfolding OnList
  OnList-cons y none p h = tt
  OnList-cons y (some r) p h = (p, h)

  OnList-insert :
      (cmp : A → A → Option Ordering) (x : A) (l : List A)
      → P x
      → All P l
      → OnList (insert_raising cmp x l)
  unfolding insert_raising OnList
  OnList-insert cmp x [] p h = (p, tt)
  OnList-insert cmp x (y ∷ l) p h = elim (Option-cases (cmp x y)) [
    | inl e ↦ rw (e, insert_raising) tt
    | inr (o, e) ↦ elim (Bool-cases (in_front o)) [
      | inl f ↦ rw (e, insert_raising, f) (p, h)
      | inr f ↦
          rw (e, insert_raising, f)
            (OnList-cons y (insert_raising cmp x l) h.0 (OnList-insert cmp x l p h.1))
    ]
  ]

  OnList-sort : (cmp : A → A → Option Ordering) (l : List A) → All P l → OnList (sort_raising cmp l)
  unfolding sort_raising OnList
  OnList-sort cmp [] h = tt
  OnList-sort cmp (x ∷ l) h = elim (Option-cases (sort_raising cmp l)) [
    | inl e ↦ rw (e, sort_raising) tt
    | inr (r, e) ↦
        rw (e, sort_raising) (OnList-insert cmp x r h.0 (subst OnList e (OnList-sort cmp l h.1)))
  ]

  pub All-sort_raising :
      (cmp : A → A → Option Ordering) (l r : List A)
      → sort_raising cmp l ≡ some r
      → All P l
      → All P r
  unfolding OnList
  All-sort_raising cmp l r e h = subst OnList e (OnList-sort cmp l h)
