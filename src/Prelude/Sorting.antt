-- ===== src/Prelude/Sorting.antt =====
-- Python's stable sort, by a test `le`, and the order statistics of what it returns.
use Prim.Native.Nat.{ℕ, zero, suc, ◌+◌, ◌≤◌}
use mathlib.Core.Path.{◌≡◌, refl, subst}
use mathlib.Core.Bool.{Bool, true, false, not}
use mathlib.Core.Logic.{inl, inr}
use mathlib.Core.List.{List, [], ◌∷◌}
use mathlib.Core.Option.{some}
use native.Mathlib.Omega.{arith}
use predictive_autoscaler.Prelude.Tests.{if◌then◌else◌, Bool-cases, to_int}
use predictive_autoscaler.Prelude.Lists.{
  length, get_elem?, All, All-map, All-get_elem?, All-filterb, filterb, drop, count,
}

module _ {ℓ} {A : Type ℓ} where
  -- Before the first element that is not smaller: equal elements keep their order.
  unfoldable pub insert_sorted : (A → A → Bool) → A → List A → List A
  insert_sorted le x [] = x ∷ []
  insert_sorted le x (y ∷ ys) =
      let rest = insert_sorted le x ys in if le x y then x ∷ y ∷ ys else y ∷ rest

  unfoldable pub sort_by : (A → A → Bool) → List A → List A
  unfolding insert_sorted
  sort_by le [] = []
  sort_by le (x ∷ xs) = insert_sorted le x (sort_by le xs)

  abbrev pub IsSorted : (A → A → Bool) → List A → Type ℓ
  IsSorted le [] = Unit
  IsSorted le (x ∷ xs) = All (λ y. le x y ≡ true) xs × IsSorted le xs

  pub IsSorted-drop :
      (le : A → A → Bool) (n : ℕ) (xs : List A) → IsSorted le xs → IsSorted le (drop n xs)
  IsSorted-drop le zero xs h = h
  IsSorted-drop le (suc n) [] h = h
  IsSorted-drop le (suc n) (x ∷ xs) h = IsSorted-drop le n xs h.1

  pub IsSorted-filterb :
      (le : A → A → Bool) (p : A → Bool) (xs : List A) → IsSorted le xs → IsSorted le (filterb p xs)
  IsSorted-filterb le p [] h = h
  IsSorted-filterb le p (x ∷ xs) h = elim (Bool-cases (p x)) [
    | inl e ↦ rw e (All-filterb (λ y. le x y ≡ true) p xs h.0, IsSorted-filterb le p xs h.1)
    | inr e ↦ rw e (IsSorted-filterb le p xs h.1)
  ]

  length-insert_sorted :
      (le : A → A → Bool) (x : A) (xs : List A) → length (insert_sorted le x xs) ≡ suc (length xs)
  unfolding insert_sorted
  length-insert_sorted le x [] = refl
  length-insert_sorted le x (y ∷ ys) = ground (arith, length-insert_sorted le x ys)

  pub length-sort_by : (le : A → A → Bool) (xs : List A) → length (sort_by le xs) ≡ length xs
  unfolding sort_by
  length-sort_by le [] = refl
  length-sort_by le (x ∷ xs) =
      omega (arith, length-insert_sorted le x (sort_by le xs), length-sort_by le xs)

  count-insert_sorted :
      (le : A → A → Bool) (p : A → Bool) (x : A) (xs : List A)
      → count p (insert_sorted le x xs) ≡ to_int (p x) + count p xs
  unfolding insert_sorted
  count-insert_sorted le p x [] = refl
  count-insert_sorted le p x (y ∷ ys) = elim (Bool-cases (le x y)) [
    | inl e ↦ rw e
    | inr e ↦ rw e (omega (arith, count-insert_sorted le p x ys))
  ]

  -- Sorting keeps how many elements pass a test.
  pub count-sort_by :
      (le : A → A → Bool) (p : A → Bool) (xs : List A) → count p (sort_by le xs) ≡ count p xs
  unfolding sort_by
  count-sort_by le p [] = refl
  count-sort_by le p (x ∷ xs) =
      omega (arith, count-insert_sorted le p x (sort_by le xs), count-sort_by le p xs)

  pub All-insert_sorted {κ} :
      (P : A → Type κ) (le : A → A → Bool) (x : A) (xs : List A)
      → P x
      → All P xs
      → All P (insert_sorted le x xs)
  unfolding insert_sorted
  All-insert_sorted P le x [] p h = (p, tt)
  All-insert_sorted P le x (y ∷ ys) p h = elim (Bool-cases (le x y)) [
    | inl e ↦ rw e (p, (h.0, h.1))
    | inr e ↦ rw e (h.0, All-insert_sorted P le x ys p h.1)
  ]

  pub All-sort_by {κ} :
      (P : A → Type κ) (le : A → A → Bool) (xs : List A) → All P xs → All P (sort_by le xs)
  unfolding sort_by
  All-sort_by P le [] h = tt
  All-sort_by P le (x ∷ xs) h =
      All-insert_sorted P le x (sort_by le xs) h.0 (All-sort_by P le xs h.1)

  module _ (le : A → A → Bool) (total : (x y : A) → le x y ≡ false → le y x ≡ true)
      (trans : (x y z : A) → le x y ≡ true → le y z ≡ true → le x z ≡ true) where
    insert_sorted-IsSorted :
        (x : A) (xs : List A) → IsSorted le xs → IsSorted le (insert_sorted le x xs)
    unfolding insert_sorted
    insert_sorted-IsSorted x [] h = (tt, tt)
    insert_sorted-IsSorted x (y ∷ ys) h = elim (Bool-cases (le x y)) [
      | inl e ↦ rw e ((e, All-map _ _ (λ z yz. trans x y z e yz) ys h.0), h)
      | inr e ↦ rw e (
        All-insert_sorted (λ z. le y z ≡ true) le x ys (total x y e) h.0,
        insert_sorted-IsSorted x ys h.1,
      )
    ]

    pub sort_by-IsSorted : (xs : List A) → IsSorted le (sort_by le xs)
    unfolding sort_by
    sort_by-IsSorted [] = tt
    sort_by-IsSorted (x ∷ xs) = insert_sorted-IsSorted x (sort_by le xs) (sort_by-IsSorted xs)

    le_refl_of_total : (x : A) → le x x ≡ true
    le_refl_of_total x = elim (Bool-cases (le x x)) [ inl e ↦ e | inr e ↦ total x x e ]

    -- At least i + 1 elements of a sorted list are at or below the one at place i.
    pub order_statistic :
        (xs : List A) (i : ℕ) (q : A)
        → IsSorted le xs
        → get_elem? xs i ≡ some q
        → suc i ≤ count (λ x. le x q) xs
    order_statistic [] i q s h = cc
    order_statistic (x ∷ xs) zero q s h =
        let e : le x q ≡ true =
          let same : x ≡ q = cc in subst (λ z. le x z ≡ true) same (le_refl_of_total x) in
        rw e (omega arith)
    order_statistic (x ∷ xs) (suc i) q s h =
        let e : le x q ≡ true = All-get_elem? (λ z. le x z ≡ true) xs i q s.0 h in
        rw e (omega (arith, order_statistic xs i q s.1 h))

    none_below :
        (x : A) (xs : List A) → All (λ y. le x y ≡ true) xs → count (λ y. not (le x y)) xs ≡ 0
    none_below x [] h = refl
    none_below x (y ∷ ys) h = rw h.0 (omega (arith, none_below x ys h.1))

    -- At most i elements of a sorted list are below the one at place i.
    pub order_statistic_below :
        (xs : List A) (i : ℕ) (q : A)
        → IsSorted le xs
        → get_elem? xs i ≡ some q
        → count (λ x. not (le q x)) xs ≤ i
    order_statistic_below [] i q s h = cc
    order_statistic_below (x ∷ xs) zero q s h =
        let same : x ≡ q = cc in
        let none : count (λ y. not (le x y)) (x ∷ xs) ≡ 0 =
          none_below x (x ∷ xs) (le_refl_of_total x, s.0) in
        subst (λ z. count (λ y. not (le z y)) (x ∷ xs) ≤ 0) same (omega (arith, none))
    order_statistic_below (x ∷ xs) (suc i) q s h =
        let rest = order_statistic_below xs i q s.1 h in
        elim (Bool-cases (le q x)) [
          | inl e ↦ rw e (omega (arith, rest))
          | inr e ↦ rw e (omega (arith, rest))
        ]
