-- ===== src/Access/Groups.antt =====
-- Rows in groups of one key, and tests on lists.
use infinitas_skill.Prelude.{
  append_assoc, append_nil, ℕ, Bool, List, [], ◌∷◌, ◌++◌, ◌&&◌, ◌==◌, ◌≡◌, refl, sym, ap, ◌∙◌,
  if◌then◌else◌, any, select, All, Bool-cases, inl, inr, arith,
}
use infinitas_skill.Access.Authz.{group_of, add_to_group, group_rows}

module _ {A : Type 0} where
  group_of-add_to_group :
      (k j : ℕ) (a : A) (groups : List (ℕ × List A))
      → group_of k (add_to_group j a groups) ≡ group_of k groups ++ (if j == k then a ∷ [] else [])
  unfolding group_of add_to_group
  group_of-add_to_group k j a [] = ground arith
  group_of-add_to_group k j a ((i, l) ∷ groups) =
      ground
        (arith, group_of-add_to_group k j a groups, append_nil l, append_nil (group_of k groups))

  -- The group of a key has the rows with that key, in their order.
  pub group_of-group_rows :
      (key : A → ℕ) (k : ℕ) (rows : List A) (groups : List (ℕ × List A))
      → group_of k (group_rows key rows groups) ≡ group_of k groups ++ select (λ a. key a == k) rows
  unfolding group_rows
  group_of-group_rows key k [] groups = sym (append_nil (group_of k groups))
  group_of-group_rows key k (a ∷ rows) groups =
      let step = group_of-group_rows key k rows (add_to_group (key a) a groups) in
      let here = group_of-add_to_group k (key a) a groups in
      elim (Bool-cases (key a == k)) [
        | inl e ↦
            step
            ∙ (ap (λ l. l ++ select (λ b. key b == k) rows) here
                ∙ rw e (append_assoc (group_of k groups) (a ∷ []) _))
        | inr e ↦
            step
            ∙ (ap (λ l. l ++ select (λ b. key b == k) rows) here
                ∙ rw e
                    (ap (λ l. l ++ select (λ b. key b == k) rows) (append_nil (group_of k groups))))
      ]

  pub any-select : (p q : A → Bool) (l : List A) → any p (select q l) ≡ any (λ x. q x && p x) l
  any-select p q [] = refl
  any-select p q (x ∷ l) = ground (arith, any-select p q l)

  pub any_same : (p q : A → Bool) (l : List A) → All (λ x. p x ≡ q x) l → any p l ≡ any q l
  any_same p q [] h = refl
  any_same p q (x ∷ l) h = ground (arith, h.0, any_same p q l h.1)

  pub select_same : (p q : A → Bool) (l : List A) → All (λ x. p x ≡ q x) l → select p l ≡ select q l
  select_same p q [] h = refl
  select_same p q (x ∷ l) h = ground (arith, h.0, select_same p q l h.1)

  pub every : (P : A → Type 0) → ((x : A) → P x) → (l : List A) → All P l
  every P f [] = tt
  every P f (x ∷ l) = (f x, every P f l)
