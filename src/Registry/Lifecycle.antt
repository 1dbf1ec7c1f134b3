-- ===== src/Registry/Lifecycle.antt =====
-- The invariant of the model registry, and that each of its steps keeps it.
use predictive_autoscaler.Prelude.{
  ℕ, ◌+◌, ◌-◌, ◌≤◌, ◌≡◌, ◌≢◌, sym, ap, ◌∙◌, ◌⊎◌, String, true, false, ◌&&◌, none, some, List, [],
  ◌∷◌, ◌++◌, Dict, any, subst, lookup, insert, erase, lookup-insert, lookup-erase, ◌==◌, nat_eq,
  string_eq, Bool-cases, Option-cases, inl, inr, arith, if◌then◌else◌, ok, count, any-count, to_int,
}
use predictive_autoscaler.Registry.{
  Registry, set_life, dispose, retire, remove, pin, unpin, install,
}

module _ (key_of : ℕ → String) where
  -- With the records that running pins hold, one entry for each pin. A record was cleaned once if it
  -- is retired and nobody holds it, and never otherwise.
  pub record IsLive (held : List ℕ) (s : Registry) : Type 0 where
    pub refs : (q : ℕ) → (s.lives q).refs ≡ count (λ h. h == q) held
    pub cleaned :
        (q : ℕ)
        → count (λ c. c == q) s.cleaned ≡ to_int ((s.lives q).retired && (s.lives q).refs == 0)
    pub present :
        (k : String) (r : ℕ)
        → lookup k s.records ≡ some r
        → (key_of r ≡ k) × ((s.lives r).installed ≡ true) × ((s.lives r).retired ≡ false)

  -- The same, of a registry whose record `old` has just left the table.
  record IsLeft (old : ℕ) (held : List ℕ) (s : Registry) : Type 0 where
    refs : (q : ℕ) → (s.lives q).refs ≡ count (λ h. h == q) held
    cleaned :
        (q : ℕ)
        → count (λ c. c == q) s.cleaned ≡ to_int ((s.lives q).retired && (s.lives q).refs == 0)
    present :
        (k : String) (r : ℕ)
        → lookup k s.records ≡ some r
        → (r ≢ old)
          × (key_of r ≡ k)
          × ((s.lives r).installed ≡ true)
          × ((s.lives r).retired ≡ false)
    active : (s.lives old).retired ≡ false

  count-append :
      (q r : ℕ) (cs : List ℕ)
      → count (λ c. c == q) (cs ++ r ∷ []) ≡ count (λ c. c == q) cs + to_int (r == q)
  count-append q r [] = ground arith
  count-append q r (c ∷ cs) = ground (arith, count-append q r cs)

  retire-IsLive :
      (held : List ℕ) (old : ℕ) (s : Registry)
      → IsLeft old held s
      → IsLive held (retire (some old) s)
  unfolding retire dispose set_life
  retire-IsLive held old s h = record {
    refs = λ q. ground (arith, h.refs q, nat_eq.same_iff old q);
    cleaned = λ q. ground (
      arith,
      h.cleaned q,
      h.active,
      nat_eq.same_iff old q,
      nat_eq.same_iff (s.lives old).refs 0,
      count-append q old s.cleaned,
    );
    present = λ k r e. ground (arith, h.present k r, nat_eq.same_iff old r, e);
  }

  erased :
      (key k : String) (r : ℕ) (d : Dict String ℕ)
      → lookup k (erase key d) ≡ some r
      → (key ≢ k) × (lookup k d ≡ some r)
  erased key k r d e = ground (arith, lookup-erase key k d, e, string_eq.same_iff key k)

  pub remove-IsLive :
      (key : String) (held : List ℕ) (s : Registry) → IsLive held s → IsLive held (remove key s)
  unfolding remove retire
  remove-IsLive key held s h = elim (Option-cases (lookup key s.records)) [
    | inl e ↦ rw e (record {
      refs = h.refs;
      cleaned = h.cleaned;
      present = λ k r q. h.present k r (erased key k r s.records q).1;
    })
    | inr (old, e) ↦ rw e (
        retire-IsLive held old _ (record {
          refs = h.refs;
          cleaned = h.cleaned;
          present = λ k r q.
              let (apart, found) = erased key k r s.records q in
              let same : r ≡ old → key ≡ k =
                λ p. cc (p, (h.present k r found).0, (h.present key old e).0) in
              let (a, b, c) = h.present k r found in (λ p. apart (same p), a, b, c);
          active = (h.present key old e).2;
        }))
  ]

  -- What the table holds after an insertion: the new record, or what it held under another key.
  inserted :
      (key k : String) (r q : ℕ) (d : Dict String ℕ)
      → lookup k (insert key r d) ≡ some q
      → (key ≡ k) × (q ≡ r) ⊎ (key ≢ k) × (lookup k d ≡ some q)
  inserted key k r q d e = elim (Bool-cases (key == k)) [
    | inl same ↦
        inl ((string_eq.same_iff key k).0 same, ground (arith, lookup-insert key k r d, e, same))
    | inr other ↦ inr (
      λ p. cc ((string_eq.same_iff key k).1 p, other),
      ground (arith, lookup-insert key k r d, e, other),
    )
  ]

  module _ (r : ℕ) (held : List ℕ) (s : Registry) (fresh : (s.lives r).installed ≡ false)
      (active : (s.lives r).retired ≡ false) where
    placed : Registry
    unfolding set_life
    placed = record s {
      records = insert (key_of r) r s.records;
      lives = set_life r (record (s.lives r) { installed = true }) s.lives;
    }

    placed-present :
        IsLive held s
        → (k : String) (q : ℕ) → lookup k placed.records ≡ some q
        → (key_of q ≡ k) × ((placed.lives q).installed ≡ true) × ((placed.lives q).retired ≡ false)
    unfolding placed set_life
    placed-present h k q e = elim (inserted (key_of r) k r q s.records e) [
      | inl (key, is) ↦ (
        ap key_of is ∙ key,
        ground (arith, nat_eq.same_iff r q, is),
        ground (arith, nat_eq.same_iff r q, is, active),
      )
      | inr (apart, found) ↦
          let (a, b, c) = h.present k q found in (a, ground (arith, b), ground (arith, c, active))
    ]

    placed-IsLive : lookup (key_of r) s.records ≡ none → IsLive held s → IsLive held placed
    unfolding placed set_life
    placed-IsLive e h = record {
      refs = λ q. ground (arith, h.refs q, nat_eq.same_iff r q);
      cleaned = λ q. ground (arith, h.cleaned q, nat_eq.same_iff r q);
      present = placed-present h;
    }

    placed-IsLeft :
        (old : ℕ) → lookup (key_of r) s.records ≡ some old → IsLive held s → IsLeft old held placed
    unfolding placed set_life
    placed-IsLeft old e h =
        let (key, installed, alive) = h.present (key_of r) old e in
        record {
          refs = λ q. ground (arith, h.refs q, nat_eq.same_iff r q);
          cleaned = λ q. ground (arith, h.cleaned q, nat_eq.same_iff r q);
          present = λ k q f.
              let (a, b, c) = placed-present h k q f in
              (
                elim (inserted (key_of r) k r q s.records f) [
                  | inl (same, is) ↦ λ p. cc (
                    p,
                    is,
                    ap (λ j. (s.lives j).installed) p,
                    ap (λ j. (s.lives j).installed) is,
                    installed,
                    fresh,
                  )
                  | inr (apart, found) ↦
                      λ p. apart (sym key ∙ ap key_of (sym p) ∙ (h.present k q found).0)
                ],
                a,
                b,
                c,
              );
          active = ground (arith, alive, active);
        }

    install-retire : install key_of r s ≡ ok (retire (lookup (key_of r) s.records) placed)
    unfolding install placed
    install-retire = ground (arith, fresh, active)

    pub install-IsLive :
        (s' : Registry) → install key_of r s ≡ ok s' → IsLive held s → IsLive held s'
    unfolding retire
    install-IsLive s' e h =
        let is : retire (lookup (key_of r) s.records) placed ≡ s' = cc (install-retire, e) in
        elim (Option-cases (lookup (key_of r) s.records)) [
          | inl none_old ↦
              let same : placed ≡ s' = rw none_old at is in
              subst (IsLive held) same (placed-IsLive none_old h)
          | inr (old, some_old) ↦
              subst (IsLive held) (ap (λ o. retire o placed) (sym some_old) ∙ is)
                (retire-IsLive held old placed (placed-IsLeft old some_old h))
        ]

  pub pin-IsLive :
      (key : String) (r : ℕ) (held : List ℕ) (s : Registry)
      → lookup key s.records ≡ some r
      → IsLive held s
      → IsLive (r ∷ held) (pin key s).1
  unfolding pin set_life
  pin-IsLive key r held s e h =
      let alive = (h.present key r e).2 in
      rw (e, pin)
        (record {
          refs = λ q. ground (arith, h.refs q, nat_eq.same_iff r q);
          cleaned = λ q. ground (arith, h.cleaned q, nat_eq.same_iff r q, alive);
          present = λ k q f. ground (arith, h.present k q f, nat_eq.same_iff r q);
        })

  -- The pins without one of those that hold r.
  abbrev pub release : ℕ → List ℕ → List ℕ
  release r [] = []
  release r (h ∷ held) = if h == r then held else h ∷ release r held

  count-release :
      (r q : ℕ) (held : List ℕ)
      → count (λ h. h == q) (release r held) ≡ count (λ h. h == q) held - to_int (r == q)
  count-release r q [] = ground arith
  count-release r q (h ∷ held) =
      ground (
        arith,
        count-release r q held,
        nat_eq.same_iff h r,
        nat_eq.same_iff h q,
        nat_eq.same_iff r q,
      )

  records-unpin : (r : ℕ) (s : Registry) → (unpin r s).records ≡ s.records
  unfolding unpin dispose
  records-unpin r s = ground arith

  pub unpin-IsLive :
      (r : ℕ) (held : List ℕ) (s : Registry)
      → any (λ h. h == r) held ≡ true
      → IsLive held s
      → IsLive (release r held) (unpin r s)
  unfolding unpin set_life dispose
  unpin-IsLive r held s e h =
      let some_ref : 1 ≤ count (λ h. h == r) held = any-count (λ h. h == r) held e in
      record {
        refs = λ q. ground (arith, h.refs q, nat_eq.same_iff r q, count-release r q held);
        cleaned = λ q. ground (
          arith,
          h.cleaned q,
          h.refs r,
          some_ref,
          nat_eq.same_iff r q,
          nat_eq.same_iff (s.lives r).refs 0,
          nat_eq.same_iff ((s.lives r).refs - 1) 0,
          count-append q r s.cleaned,
        );
        present = λ k q f.
            let found : lookup k s.records ≡ some q = ap (lookup k) (sym (records-unpin r s)) ∙ f in
            ground (arith, h.present k q found, nat_eq.same_iff r q);
      }
