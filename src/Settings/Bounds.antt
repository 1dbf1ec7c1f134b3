-- ===== src/Settings/Bounds.antt =====
-- A setting that was taken from a group is in the bounds of its entry (contracts.py: _int_group).
use predictive_autoscaler.Prelude.{
  ℕ, ◌≤◌, ◌≡◌, ◌⊎◌, refl, sym, subst, ap, ◌∙◌, inl, inr, arith, not, ◌&&◌, Bool-cases, Option, none,
  some, Option-cases, [], ◌∷◌, String, all, Dict, lookup, contains, leb, ◌==◌, nat_eq, string_eq,
  ok, bind-ok, raise_if-ok,
}
use predictive_autoscaler.Settings.{int_values, int_group}
use predictive_autoscaler.Settings.Types.{
  contract_refused, Field, absent, malformed, given, RawGroup, no_group, not_an_object, object,
  Spec, or_absent, add_value, pick,
}

abbrev bounds_of : Option (ℕ × ℕ) → ℕ × ℕ
bounds_of none = (0, 0)
bounds_of (some b) = b

add_value-ok :
    (key : String) (lo hi : ℕ) (f : Field) (rest v : Dict String ℕ)
    → add_value key lo hi f rest ≡ ok v
    → ((f ≡ absent) × (rest ≡ v))
      ⊎ ((n : ℕ) × (f ≡ given n) × (lo ≤ n) × (n ≤ hi) × ((key, n) ∷ rest ≡ v))
unfolding add_value
add_value-ok key lo hi absent rest v e = inl (refl, ground (arith, e))
add_value-ok key lo hi malformed rest v e = absurd (ground (arith, e))
add_value-ok key lo hi (given n) rest v e = elim (Bool-cases (leb lo n && leb n hi)) [
  | inl fits ↦
      let kept : ok ((key, n) ∷ rest) ≡ ok v = rw fits at e in
      inr (n, refl, ground (arith, fits), ground (arith, fits), ground (arith, kept))
  | inr out ↦ absurd (ground (arith, rw out at e))
]

module _ (key : String) (obj : Dict String Field) where
  -- A key that is not there is not taken.
  int_values-absent :
      (spec : Spec) (v : Dict String ℕ)
      → or_absent (lookup key obj) ≡ absent
      → int_values spec obj ≡ ok v
      → lookup key v ≡ none
  unfolding int_values
  int_values-absent [] v missing e =
      let same : [] ≡ v = ground (arith, e) in subst (λ v. lookup key v ≡ none) same refl
  int_values-absent ((k, (lo, hi)) ∷ spec) v missing e =
      let (rest, e1, e2) = bind-ok (int_values spec obj) _ v e in
      let later = int_values-absent spec rest missing e1 in
      elim (add_value-ok k lo hi (or_absent (lookup k obj)) rest v e2) [
        | inl (f, same) ↦ subst (λ v. lookup key v ≡ none) same later
        | inr (n, f, low, high, same) ↦ elim (Bool-cases (k == key)) [
          | inr other ↦ subst (λ v. lookup key v ≡ none) same (rw other later)
          | inl hit ↦
              let this : k ≡ key = (string_eq.same_iff k key).0 hit in
              let there : or_absent (lookup key obj) ≡ given n =
                subst (λ j. or_absent (lookup j obj) ≡ given n) this f in
              absurd (ground (arith, sym missing ∙ there))
        ]
      ]

  -- What is taken for a key is in the bounds of its entry.
  int_values-bounds :
      (spec : Spec) (v : Dict String ℕ) (low high n : ℕ)
      → lookup key spec ≡ some (low, high)
      → int_values spec obj ≡ ok v
      → lookup key v ≡ some n
      → (low ≤ n) × (n ≤ high)
  unfolding int_values
  int_values-bounds [] v low high n entry e taken = absurd (ground (arith, entry))
  int_values-bounds ((k, (lo, hi)) ∷ spec) v low high n entry e taken =
      let (rest, e1, e2) = bind-ok (int_values spec obj) _ v e in
      elim (Bool-cases (k == key)) [
        | inr other ↦
            let entry2 : lookup key spec ≡ some (low, high) = rw other at entry in
            elim (add_value-ok k lo hi (or_absent (lookup k obj)) rest v e2) [
              | inl (f, same) ↦
                  int_values-bounds spec rest low high n entry2 e1
                    (subst (λ v. lookup key v ≡ some n) (sym same) taken)
              | inr (m, f, l, h, same) ↦
                  let in_list : lookup key ((k, m) ∷ rest) ≡ some n =
                    subst (λ v. lookup key v ≡ some n) (sym same) taken in
                  int_values-bounds spec rest low high n entry2 e1 (rw other at in_list)
            ]
        | inl hit ↦
            let this : k ≡ key = (string_eq.same_iff k key).0 hit in
            let bounds : ◌≡◌ {A = Option (ℕ × ℕ)} (some (lo, hi)) (some (low, high)) =
              rw hit at entry in
            let lo_is : lo ≡ low = ap (λ b. (bounds_of b).0) bounds in
            let hi_is : hi ≡ high = ap (λ b. (bounds_of b).1) bounds in
            elim (add_value-ok k lo hi (or_absent (lookup k obj)) rest v e2) [
              | inl (f, same) ↦
                  let missing : or_absent (lookup key obj) ≡ absent =
                    subst (λ j. or_absent (lookup j obj) ≡ absent) this f in
                  let gone : lookup key v ≡ none =
                    subst (λ v. lookup key v ≡ none) same
                      (int_values-absent spec rest missing e1) in
                  absurd (ground (arith, sym gone ∙ taken))
              | inr (m, f, l, h, same) ↦
                  let in_list : lookup key ((k, m) ∷ rest) ≡ some n =
                    subst (λ v. lookup key v ≡ some n) (sym same) taken in
                  let value : some m ≡ some n = rw hit at in_list in
                  (ground (arith, l, value, lo_is), ground (arith, h, value, hi_is))
            ]
      ]

  -- A field of a group is in the bounds of its entry when its default is.
  pick-bounds :
      (spec : Spec) (v : Dict String ℕ) (low high d : ℕ)
      → lookup key spec ≡ some (low, high)
      → int_values spec obj ≡ ok v
      → low ≤ d
      → d ≤ high
      → (low ≤ pick key d v) × (pick key d v ≤ high)
  pick-bounds spec v low high d entry e l h = elim (Option-cases (lookup key v)) [
    | inl missing ↦ rw missing (l, h)
    | inr (n, taken) ↦ rw taken (int_values-bounds spec v low high n entry e taken)
  ]

pub group-bounds :
    (key : String) (g : RawGroup) (spec : Spec) (v : Dict String ℕ) (low high d : ℕ)
    → lookup key spec ≡ some (low, high)
    → int_group spec g ≡ ok v
    → low ≤ d
    → d ≤ high
    → (low ≤ pick key d v) × (pick key d v ≤ high)
unfolding int_group
group-bounds key no_group spec v low high d entry e l h =
    let same : [] ≡ v = ground (arith, e) in
    subst (λ v. (low ≤ pick key d v) × (pick key d v ≤ high)) same (l, h)
group-bounds key not_an_object spec v low high d entry e l h = absurd (ground (arith, e))
group-bounds key (object obj) spec v low high d entry e l h =
    let (known, e1) =
      raise_if-ok (not (all (λ (e : String × Field). contains e.0 spec) obj)) contract_refused _ v
        e in
    pick-bounds key obj spec v low high d entry e1 l h
