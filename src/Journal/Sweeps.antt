-- ===== src/Journal/Sweeps.antt =====
-- What holds through a loop that may raise, and through the removals of a compaction.
use predictive_autoscaler.Prelude.{
  bind-ok, ℕ, ◌≡◌, subst, inl, inr, arith, Bool, true, Bool-cases, some, List, [], ◌∷◌, ◌++◌,
  nat_eq, string_eq, filterb, String, Dict, lookup, Result, ok, All, All-append, All-insert,
  All-lookup, Option-cases,
}
use predictive_autoscaler.Journal.Types.{
  StoreError, Issuance, Outcome, Retained, Database, StoreSettings, Codec,
}
use predictive_autoscaler.Journal.Reads.{find, row_to_issuance}
use predictive_autoscaler.Journal.Compact.{
  Removed, Item, each, below, Gathered, or_empty, complete, place, outcomes_of, delete_outcomes,
  delete_issuance, Sweep, gather_one, gather, remove_item, remove_epoch, retain, or_new,
  drop_observations, raise_horizon, compacted,
}

pub All-every {ℓ} : {A : Type 0} (P : A → Type ℓ) → ((x : A) → P x) → (xs : List A) → All P xs
All-every P h [] = tt
All-every P h (x ∷ xs) = (h x, All-every P h xs)

pub All-map2 {ℓ κ ρ} :
    {A : Type 0} (P : A → Type ℓ) (Q : A → Type κ) (R : A → Type ρ)
    → ((x : A) → P x → Q x → R x)
    → (xs : List A) → All P xs
    → All Q xs
    → All R xs
All-map2 P Q R f [] p q = tt
All-map2 P Q R f (x ∷ xs) p q = (f x p.0 q.0, All-map2 P Q R f xs p.1 q.1)

pub find-All :
    {A : Type 0} (P : A → Type 0) (p : A → Bool) (xs : List A) (x : A)
    → All P xs
    → find p xs ≡ some x
    → P x × (p x ≡ true)
unfolding find
find-All P p [] x h e = absurd (ground (arith, e))
find-All P p (y ∷ ys) x h e = elim (Bool-cases (p y)) [
  | inl t ↦
      let found : some y ≡ some x = rw t at e in
      let same : y ≡ x = cc in (subst P same h.0, subst (λ z. p z ≡ true) same t)
  | inr f ↦ find-All P p ys x h.1 (rw f at e)
]

pub each-keeps :
    {A S : Type 0} (Q : A → Type 0) (P : S → Type 0) (f : A → S → Result StoreError S)
    → ((x : A) (s t : S) → Q x → P s → f x s ≡ ok t → P t)
    → (xs : List A) (s t : S) → All Q xs
    → P s
    → each f xs s ≡ ok t
    → P t
unfolding each
each-keeps Q P f h [] s t q p e = let same : s ≡ t = ground (arith, e) in subst P same p
each-keeps Q P f h (x ∷ xs) s t q p e =
    let (mid, e1, e2) = bind-ok (f x s) (λ after. each f xs after) t e in
    each-keeps Q P f h xs mid t q.1 (h x s mid q.0 p e1) e2

module _ {J F : Type 0} (cx : Codec J) (Q : Item → Type 0) (P : Database F → Type 0)
    (removing : (it : Item) (d d1 d2 : Database F)
      → Q it
      → P d
      → delete_outcomes it.0.issuance_id d ≡ ok d1
      → delete_issuance it.0.issuance_id d1 ≡ ok d2
      → P d2)
    (retaining : (r : Dict String Retained) (d : Database F)
      → P d
      → P (record d { retention = r })) where
  remove_item-keeps :
      (it : Item) (s t : Sweep F) → Q it → P s.db → remove_item cx it s ≡ ok t → P t.db
  unfolding remove_item
  remove_item-keeps it s t q p e =
      let (d1, e1, e2) = bind-ok (delete_outcomes it.0.issuance_id s.db) _ t e in
      let (d2, e3, e4) = bind-ok (delete_issuance it.0.issuance_id d1) _ t e2 in
      let same : d2 ≡ t.db = cc in subst P same (removing it s.db d1 d2 q p e1 e3)

  remove_epoch-keeps :
      (horizon : ℕ) (x : String × List Item) (s t : Sweep F)
      → All Q x.1
      → P s.db
      → remove_epoch cx horizon x s ≡ ok t
      → P t.db
  unfolding remove_epoch retain
  remove_epoch-keeps horizon (evidence, items) s t q p e =
      let start = record s { tally = or_new cx (lookup evidence s.db.retention) } in
      let (swept, e1, e2) = bind-ok (each (remove_item cx) items start) _ t e in
      let kept =
        each-keeps Q (λ (w : Sweep F). P w.db) (remove_item cx) remove_item-keeps items start swept
          q p e1 in
      let same : (retain evidence horizon swept).db ≡ t.db = cc in
      subst P same (retaining _ swept.db kept)

module _ (Q : Item → Type 0) where
  All-or_empty :
      (k : String) (d : Dict String (List Item))
      → All (λ (e : String × List Item). All Q e.1) d
      → All Q (or_empty (lookup k d))
  All-or_empty k d h = elim (Option-cases (lookup k d)) [
    | inl e ↦ rw e tt
    | inr (items, e) ↦ rw e (All-lookup (λ (e : String × List Item). All Q e.1) k items d e h)
  ]

  place-keeps :
      (covered : Dict String ℕ) (i : Issuance) (outs : List Outcome) (g : Gathered)
      → (complete covered i outs ≡ true → Q (i, outs))
      → All (λ (e : String × List Item). All Q e.1) g.epochs
      → All (λ (e : String × List Item). All Q e.1) (place covered i outs g).epochs
  unfolding place
  place-keeps covered i outs g q h = elim (Bool-cases (complete covered i outs)) [
    | inl c ↦ rw c (
        All-insert (λ (e : String × List Item). All Q e.1) i.key.evidence_key
          (or_empty (lookup i.key.evidence_key g.epochs) ++ (i, outs) ∷ []) g.epochs
          (All-append Q _ ((i, outs) ∷ []) (All-or_empty i.key.evidence_key g.epochs h) (q c, tt))
          h)
    | inr c ↦ rw c h
  ]

module _ {J F : Type 0} (cx : Codec J) (Q : Item → Type 0) (R : Issuance → Type 0)
    (covered : Dict String ℕ) (db : Database F)
    (gathers : (row i : Issuance)
      → R row
      → row_to_issuance cx row ≡ ok i
      → complete covered i (outcomes_of i.issuance_id db) ≡ true
      → Q (i, outcomes_of i.issuance_id db)) where
  gather-keeps :
      (horizon : ℕ) (g : Gathered)
      → All R (filterb (below horizon) db.issuances)
      → gather cx covered horizon db ≡ ok g
      → All (λ (e : String × List Item). All Q e.1) g.epochs
  unfolding gather gather_one
  gather-keeps horizon g r e =
      each-keeps R (λ (g : Gathered). All (λ (e : String × List Item). All Q e.1) g.epochs)
        (gather_one cx covered db)
        (λ row s t rr p e1.
          let (i, e2, e3) = bind-ok (row_to_issuance cx row) _ t e1 in
          let same : place covered i (outcomes_of i.issuance_id db) s ≡ t = cc in
          subst (λ (g : Gathered). All (λ (e : String × List Item). All Q e.1) g.epochs) same
            (place-keeps Q covered i (outcomes_of i.issuance_id db) s (gathers row i rr e2) p))
        (filterb (below horizon) db.issuances) (record { epochs = []; kept = 0 }) g r tt e

module _ {J F : Type 0} (cx : Codec J) (st : StoreSettings) (Q : Item → Type 0)
    (R : Issuance → Type 0) (P : Database F → Type 0) (covered : Dict String ℕ) (horizon : ℕ)
    (d : Database F)
    (gathers : (row i : Issuance)
      → R row
      → row_to_issuance cx row ≡ ok i
      → complete covered i (outcomes_of i.issuance_id (raise_horizon horizon d)) ≡ true
      → Q (i, outcomes_of i.issuance_id (raise_horizon horizon d)))
    (removing : (it : Item) (d d1 d2 : Database F)
      → Q it
      → P d
      → delete_outcomes it.0.issuance_id d ≡ ok d1
      → delete_issuance it.0.issuance_id d1 ≡ ok d2
      → P d2)
    (retaining : (r : Dict String Retained) (d : Database F) → P d → P (record d { retention = r }))
    (dropping : (d : Database F) → P d → P (drop_observations st horizon d)) where
  -- What the removals keep holds after a compaction.
  pub compacted-keeps :
      (n : Removed) (after : Database F)
      → All R (filterb (below horizon) (raise_horizon horizon d).issuances)
      → P (raise_horizon horizon d)
      → compacted cx st covered horizon d ≡ ok (n, after)
      → P after
  unfolding compacted
  compacted-keeps n after r p e =
      let raised = raise_horizon horizon d in
      let (g, e1, e2) = bind-ok (gather cx covered horizon raised) _ (n, after) e in
      let (s, e3, e4) = bind-ok (each (remove_epoch cx horizon) g.epochs _) _ (n, after) e2 in
      let items = gather-keeps cx Q R covered raised gathers horizon g r e1 in
      let kept =
        each-keeps (λ (x : String × List Item). All Q x.1) (λ (w : Sweep F). P w.db)
          (remove_epoch cx horizon) (remove_epoch-keeps cx Q P removing retaining horizon) g.epochs
          _ s items p e3 in
      let same : drop_observations st horizon s.db ≡ after = cc in subst P same (dropping s.db kept)
