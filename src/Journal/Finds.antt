-- ===== src/Journal/Finds.antt =====
-- What a query for the first matching row finds after an insertion or a deletion.
use predictive_autoscaler.Prelude.{
  ◌≡◌, refl, sym, subst, inl, inr, arith, Bool, true, false, Bool-cases, none, some, List, [], ◌∷◌,
  ◌++◌, nat_eq, string_eq, any, filterb, if◌then◌else◌, All,
}
use predictive_autoscaler.Journal.Reads.{find}

module _ {A : Type 0} (p : A → Bool) where
  pub find-append_some :
      (xs : List A) (y x : A) → find p xs ≡ some x → find p (xs ++ y ∷ []) ≡ some x
  unfolding find
  find-append_some [] y x e = absurd (ground (arith, e))
  find-append_some (z ∷ zs) y x e = elim (Bool-cases (p z)) [
    | inl t ↦ rw t (rw t at e)
    | inr f ↦ rw f (find-append_some zs y x (rw f at e))
  ]

  pub find-append_none :
      (xs : List A) (y : A)
      → find p xs ≡ none
      → find p (xs ++ y ∷ []) ≡ (if p y then some y else none)
  unfolding find
  find-append_none [] y e = refl
  find-append_none (z ∷ zs) y e = elim (Bool-cases (p z)) [
    | inl t ↦ absurd (ground (arith, rw t at e))
    | inr f ↦ rw f (find-append_none zs y (rw f at e))
  ]

  -- What is left after a removal that keeps the first row found is found first again.
  pub find-filterb :
      (keep : A → Bool) (xs : List A) (x : A)
      → find p xs ≡ some x
      → keep x ≡ true
      → find p (filterb keep xs) ≡ some x
  unfolding find
  find-filterb keep [] x e k = absurd (ground (arith, e))
  find-filterb keep (y ∷ ys) x e k = elim (Bool-cases (p y)) [
    | inl t ↦
        let found : some y ≡ some x = rw t at e in
        let same : y ≡ x = cc in
        let kept : keep y ≡ true = subst (λ z. keep z ≡ true) (sym same) k in rw (kept, t) found
    | inr f ↦
        let later = find-filterb keep ys x (rw f at e) k in
        elim (Bool-cases (keep y)) [ inl s ↦ rw (s, f) later | inr s ↦ rw s later ]
  ]

  -- Nothing is found where all that would be is removed.
  pub find-none :
      (keep : A → Bool) (xs : List A)
      → All (λ x. p x ≡ true → keep x ≡ false) xs
      → find p (filterb keep xs) ≡ none
  unfolding find
  find-none keep [] h = refl
  find-none keep (y ∷ ys) h = elim (Bool-cases (p y)) [
    | inl t ↦ let gone : keep y ≡ false = h.0 t in rw gone (find-none keep ys h.1)
    | inr f ↦ elim (Bool-cases (keep y)) [
      | inl s ↦ rw (s, f) (find-none keep ys h.1)
      | inr s ↦ rw s (find-none keep ys h.1)
    ]
  ]

  pub find-nothing :
      (keep : A → Bool) (xs : List A) → find p xs ≡ none → find p (filterb keep xs) ≡ none
  unfolding find
  find-nothing keep [] e = refl
  find-nothing keep (y ∷ ys) e = elim (Bool-cases (p y)) [
    | inl t ↦ absurd (ground (arith, rw t at e))
    | inr f ↦
        let later = find-nothing keep ys (rw f at e) in
        elim (Bool-cases (keep y)) [ inl s ↦ rw (s, f) later | inr s ↦ rw s later ]
  ]

  pub any-All : (xs : List A) → any p xs ≡ false → All (λ x. p x ≡ false) xs
  any-All [] e = tt
  any-All (x ∷ xs) e = (ground (arith, e), any-All xs (ground (arith, e)))
