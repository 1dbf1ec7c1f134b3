-- ===== src/Journal/Covered.antt =====
-- What a compaction takes to be covered, and tests after filters (store.py: compact).
use predictive_autoscaler.Prelude.{
  bind-ok, ℕ, ◌≤◌, ◌≡◌, refl, sym, subst, ap, ◌∙◌, inl, inr, arith, Bool, true, false, ◌&&◌,
  Bool-cases, Option, Option-cases, lookup, insert, All-insert, All-lookup, all, List, [], ◌∷◌,
  nat_eq, string_eq, filterb, String, Dict, ok, All,
}
use predictive_autoscaler.Journal.Types.{Issuance, Database, Codec}
use predictive_autoscaler.Journal.Compact.{below}
use predictive_autoscaler.Journal.Sweeps.{each-keeps, All-every}
use predictive_autoscaler.Journal.Reads.{Checkpoint, latest_checkpoint}
use predictive_autoscaler.Journal.Compact.{cover_epochs, cover_epoch, covered_seq, or_zero}

module _ {A : Type 0} where
  -- A test after a filter, that fails wherever the filter drops, is the test alone.
  pub filterb-filterb_skip :
      (sel keep : A → Bool) (xs : List A)
      → All (λ x. keep x ≡ false → sel x ≡ false) xs
      → filterb sel (filterb keep xs) ≡ filterb sel xs
  filterb-filterb_skip sel keep [] h = refl
  filterb-filterb_skip sel keep (x ∷ xs) h =
      let rest = filterb-filterb_skip sel keep xs h.1 in
      elim (Bool-cases (keep x)) [
        | inl k ↦ elim (Bool-cases (sel x)) [
          | inl s ↦ rw (k, s) (ap (λ ys. x ∷ ys) rest)
          | inr s ↦ rw (k, s) rest
        ]
        | inr k ↦ let dropped : sel x ≡ false = h.0 k in rw (k, dropped) rest
      ]

  pub all-filterb :
      (q p : A → Bool) (xs : List A)
      → all q (filterb p xs) ≡ true
      → All (λ x. p x ≡ true → q x ≡ true) xs
  all-filterb q p [] e = tt
  all-filterb q p (x ∷ xs) e = elim (Bool-cases (p x)) [
    | inl t ↦
        let both : (q x && all q (filterb p xs)) ≡ true = rw t at e in
        (λ s. ground (arith, both), all-filterb q p xs (ground (arith, both)))
    | inr f ↦ (λ s. absurd (ground (arith, s, f)), all-filterb q p xs (rw f at e))
  ]

module _ {J F : Type 0} (cx : Codec J) (d : Database F) where
  -- What a compaction takes to be covered is what the latest checkpoint covers.
  abbrev pub Covers : String × ℕ → Type 0
  Covers e =
      (latest : Option (Checkpoint J)) × (latest_checkpoint cx e.0 d ≡ ok latest)
      × (e.1 ≡ covered_seq latest)

  pub cover_epochs-Covers :
      (horizon : ℕ) (covered : Dict String ℕ)
      → cover_epochs cx d horizon ≡ ok covered
      → All Covers covered
  unfolding cover_epochs cover_epoch
  cover_epochs-Covers horizon covered e =
      each-keeps (λ (i : Issuance). Unit {0}) (λ c. All Covers c) (cover_epoch cx d)
        (λ i s t q p e1.
          let (latest, e2, e3) = bind-ok (latest_checkpoint cx i.key.evidence_key d) _ t e1 in
          let same : insert i.key.evidence_key (covered_seq latest) s ≡ t = ground (arith, e3) in
          subst (λ c. All Covers c) same
            (All-insert Covers i.key.evidence_key (covered_seq latest) s (latest, e2, refl) p))
        (filterb (below horizon) d.issuances) [] covered (All-every (λ i. Unit {0}) (λ i. tt) _) tt
        e

  -- Of an epoch with a checkpoint no more is taken to be covered than it covers.
  pub covered-le :
      (covered : Dict String ℕ) (evidence : String) (latest : Option (Checkpoint J))
      → All Covers covered
      → latest_checkpoint cx evidence d ≡ ok latest
      → or_zero (lookup evidence covered) ≤ covered_seq latest
  covered-le covered evidence latest h e = elim (Option-cases (lookup evidence covered)) [
    | inl missing ↦ rw missing (omega arith)
    | inr (n, found) ↦
        let (other, e1, e2) = All-lookup Covers evidence n covered found h in
        let same : other ≡ latest = ground (arith, sym e1 ∙ e) in
        rw found (subst (λ l. n ≤ covered_seq l) same (ground (arith, e2)))
  ]
