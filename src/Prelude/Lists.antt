-- ===== src/Prelude/Lists.antt =====
-- Lists measured by native numbers: lengths, the last elements, filters and predicates.
use Prim.Native.Nat.{ℕ, zero, suc, ◌+◌, ◌-◌, ◌≤◌, ◌<◌, min}
use mathlib.Core.Path.{◌≡◌, refl, subst}
use mathlib.Core.Bool.{Bool, true, false, ◌&&◌, ◌||◌}
use mathlib.Core.List.{List, [], ◌∷◌, ◌++◌}
use mathlib.Core.Option.{Option, none, some}
use native.Mathlib.Omega.{arith}
use mathlib.Core.Logic.{◌≢◌, inl, inr}
use predictive_autoscaler.Prelude.Tests.{if◌then◌else◌, Bool-cases, to_int}

module _ {ℓ} {A : Type ℓ} where
  abbrev pub length : List A → ℕ
  length [] = 0
  length (x ∷ xs) = suc (length xs)

  abbrev pub get_elem? : List A → ℕ → Option A
  get_elem? [] i = none
  get_elem? (x ∷ xs) zero = some x
  get_elem? (x ∷ xs) (suc i) = get_elem? xs i

  abbrev pub drop : ℕ → List A → List A
  drop zero xs = xs
  drop (suc n) [] = []
  drop (suc n) (x ∷ xs) = drop n xs

  -- `xs[-n:]` for a positive n: the last n elements, all of them when there are fewer.
  abbrev pub last_n : ℕ → List A → List A
  last_n n xs = drop (length xs - n) xs

  abbrev pub filterb : (A → Bool) → List A → List A
  filterb p [] = []
  filterb p (x ∷ xs) = let rest = filterb p xs in if p x then x ∷ rest else rest

  abbrev pub any : (A → Bool) → List A → Bool
  any p [] = false
  any p (x ∷ xs) = p x || any p xs

  abbrev pub all : (A → Bool) → List A → Bool
  all p [] = true
  all p (x ∷ xs) = p x && all p xs

  abbrev pub All {κ} : (A → Type κ) → List A → Type κ
  All P [] = Unit
  All P (x ∷ xs) = P x × All P xs

  pub length-append : (xs ys : List A) → length (xs ++ ys) ≡ length xs + length ys
  length-append [] ys = omega arith
  length-append (x ∷ xs) ys = omega (arith, length-append xs ys)

  pub append-ne-nil : (xs : List A) (x : A) → xs ++ x ∷ [] ≢ []
  append-ne-nil [] x e = cc
  append-ne-nil (y ∷ xs) x e = cc

  pub length-drop : (n : ℕ) (xs : List A) → length (drop n xs) ≡ length xs - n
  length-drop zero xs = omega arith
  length-drop (suc n) [] = omega arith
  length-drop (suc n) (x ∷ xs) = omega (arith, length-drop n xs)

  pub length-last_n : (n : ℕ) (xs : List A) → length (last_n n xs) ≡ min n (length xs)
  length-last_n n xs = omega (arith, length-drop (length xs - n) xs)

  pub length-filterb-le : (p : A → Bool) (xs : List A) → length (filterb p xs) ≤ length xs
  length-filterb-le p [] = omega arith
  length-filterb-le p (x ∷ xs) = ground (arith, length-filterb-le p xs)

  pub All-drop {κ} : (P : A → Type κ) (n : ℕ) (xs : List A) → All P xs → All P (drop n xs)
  All-drop P zero xs h = h
  All-drop P (suc n) [] h = h
  All-drop P (suc n) (x ∷ xs) h = All-drop P n xs h.1

  pub All-append {κ} : (P : A → Type κ) (xs ys : List A) → All P xs → All P ys → All P (xs ++ ys)
  All-append P [] ys hx hy = hy
  All-append P (x ∷ xs) ys hx hy = (hx.0, All-append P xs ys hx.1 hy)

  pub All-filterb {κ} :
      (P : A → Type κ) (p : A → Bool) (xs : List A) → All P xs → All P (filterb p xs)
  All-filterb P p [] h = h
  All-filterb P p (x ∷ xs) h =
      elim (p x) as (λ b. All P (if b then x ∷ filterb p xs else filterb p xs)) [
        | true ↦ (h.0, All-filterb P p xs h.1)
        | false ↦ All-filterb P p xs h.1
      ]

  -- What a filter keeps has passed its test.
  pub All-filterb_self : (p : A → Bool) (xs : List A) → All (λ x. p x ≡ true) (filterb p xs)
  All-filterb_self p [] = tt
  All-filterb_self p (x ∷ xs) = elim (Bool-cases (p x)) [
    | inl e ↦ rw e (e, All-filterb_self p xs)
    | inr e ↦ rw e (All-filterb_self p xs)
  ]

  pub All-map {κ ρ} :
      (P : A → Type κ) (Q : A → Type ρ)
      → ((x : A) → P x → Q x)
      → (xs : List A) → All P xs
      → All Q xs
  All-map P Q f [] h = tt
  All-map P Q f (x ∷ xs) h = (f x h.0, All-map P Q f xs h.1)

  pub All-get_elem? {κ} :
      (P : A → Type κ) (xs : List A) (i : ℕ) (x : A) → All P xs → get_elem? xs i ≡ some x → P x
  All-get_elem? P [] i x h e = cc
  All-get_elem? P (y ∷ xs) zero x h e = let same : y ≡ x = cc in subst P same h.0
  All-get_elem? P (y ∷ xs) (suc i) x h e = All-get_elem? P xs i x h.1 e

  pub get_elem?-some : (xs : List A) (i : ℕ) → i < length xs → (x : A) × (get_elem? xs i ≡ some x)
  get_elem?-some [] i h = elim h [ ]
  get_elem?-some (x ∷ xs) zero h = (x, refl)
  get_elem?-some (x ∷ xs) (suc i) h = get_elem?-some xs i (omega arith)

  abbrev pub count : (A → Bool) → List A → ℕ
  count p [] = 0
  count p (x ∷ xs) = to_int (p x) + count p xs

  pub any-count : (p : A → Bool) (xs : List A) → any p xs ≡ true → 1 ≤ count p xs
  any-count p [] e = cc
  any-count p (x ∷ xs) e = ground (arith, any-count p xs, e)

  pub none-count : (p : A → Bool) (xs : List A) → any p xs ≡ false → count p xs ≡ 0
  none-count p [] e = refl
  none-count p (x ∷ xs) e = ground (arith, none-count p xs, e)

  pub count-none : (p : A → Bool) (xs : List A) → count p xs ≡ 0 → any p xs ≡ false
  count-none p [] e = refl
  count-none p (x ∷ xs) e = ground (arith, count-none p xs, e)

-- A sum of numbers over a list.
abbrev pub sum_by {ℓ} : {A : Type ℓ} → (A → ℕ) → List A → ℕ
sum_by f [] = 0
sum_by f (x ∷ xs) = f x + sum_by f xs
