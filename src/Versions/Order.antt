-- ===== src/Versions/Order.antt =====
-- Versions are totally ordered.
use Prim.Native.Nat.{compare, Ordering}
use infinitas_skill.Prelude.{ℕ, List, [], ◌∷◌, ◌≡◌, refl}
use infinitas_skill.Prelude.Order.{
  flip, ◌then◌, IsTotalOrder, compare-IsTotalOrder, compare_list, compare_list-IsTotalOrder,
  product-IsTotalOrder, pullback-IsTotalOrder,
}
use infinitas_skill.Versions.Semver.{
  PrereleasePart, number, words, SemVer, compare_part, compare_prerelease, compare_semver,
}

text_order : IsTotalOrder (compare_list compare)
text_order = compare_list-IsTotalOrder compare compare-IsTotalOrder

part_chains :
    (a b c : PrereleasePart)
    → compare_part a b ≡ Ordering.lt
    → compare_part b c ≡ Ordering.lt
    → compare_part a c ≡ Ordering.lt
unfolding compare_part
part_chains (number a) (number b) (number c) h k = compare-IsTotalOrder.chains a b c h k
part_chains (number a) (number b) (words u) h k = refl
part_chains (number a) (words t) (number c) h k = absurd (cc k)
part_chains (number a) (words t) (words u) h k = refl
part_chains (words s) (number b) c h k = absurd (cc h)
part_chains (words s) (words t) (number c) h k = absurd (cc k)
part_chains (words s) (words t) (words u) h k = text_order.chains s t u h k

part_flips : (a b : PrereleasePart) → compare_part b a ≡ flip (compare_part a b)
unfolding compare_part
part_flips (number a) (number b) = compare-IsTotalOrder.flips a b
part_flips (number a) (words t) = refl
part_flips (words s) (number b) = refl
part_flips (words s) (words t) = text_order.flips s t

part_ties : (a b : PrereleasePart) → compare_part a b ≡ Ordering.eq → a ≡ b
unfolding compare_part
part_ties (number a) (number b) h = cc (compare-IsTotalOrder.ties a b h)
part_ties (number a) (words t) h = absurd (cc h)
part_ties (words s) (number b) h = absurd (cc h)
part_ties (words s) (words t) h = cc (text_order.ties s t h)

parts_order : IsTotalOrder (compare_list compare_part)
parts_order =
    compare_list-IsTotalOrder compare_part
      (record { flips = part_flips; ties = part_ties; chains = part_chains })

prerelease_chains :
    (l m r : List PrereleasePart)
    → compare_prerelease l m ≡ Ordering.lt
    → compare_prerelease m r ≡ Ordering.lt
    → compare_prerelease l r ≡ Ordering.lt
unfolding compare_prerelease
prerelease_chains [] [] r h k = absurd (cc h)
prerelease_chains [] (y ∷ m) r h k = absurd (cc h)
prerelease_chains (x ∷ l) [] [] h k = absurd (cc k)
prerelease_chains (x ∷ l) [] (z ∷ r) h k = absurd (cc k)
prerelease_chains (x ∷ l) (y ∷ m) [] h k = refl
prerelease_chains (x ∷ l) (y ∷ m) (z ∷ r) h k = parts_order.chains (x ∷ l) (y ∷ m) (z ∷ r) h k

prerelease_order : IsTotalOrder compare_prerelease
unfolding compare_prerelease
prerelease_order = record {
  flips = elim [
    | [] ↦ elim [ [] ↦ refl | y ∷ r ↦ refl ]
    | x ∷ l ↦ elim [ [] ↦ refl | y ∷ r ↦ parts_order.flips (x ∷ l) (y ∷ r) ]
  ];
  ties = elim [
    | [] ↦ elim [ [] ↦ λ h. refl | y ∷ r ↦ λ h. absurd (cc h) ]
    | x ∷ l ↦ elim [ [] ↦ λ h. absurd (cc h) | y ∷ r ↦ parts_order.ties (x ∷ l) (y ∷ r) ]
  ];
  chains = prerelease_chains;
}

-- Comparing versions is a total order: swapping the versions flips the result, versions that tie are
-- equal in every field, and the order is transitive.
pub compare_semver-IsTotalOrder : IsTotalOrder compare_semver
unfolding compare_semver
compare_semver-IsTotalOrder =
    let triple =
      product-IsTotalOrder compare compare-IsTotalOrder
        (λ (a b : ℕ × ℕ). compare a.0 b.0 then compare a.1 b.1)
        (product-IsTotalOrder compare compare-IsTotalOrder compare compare-IsTotalOrder) in
    pullback-IsTotalOrder _ (product-IsTotalOrder _ triple compare_prerelease prerelease_order)
      (λ (v : SemVer). ((v.major, (v.minor, v.patch)), v.prerelease)) (λ v w h. cc h)
