-- ===== src/Admission/Slots.antt =====
-- The slots of admission.py are never lost and never exceeded.
use predictive_autoscaler.Prelude.{
  ℕ, zero, suc, ◌+◌, ◌≤◌, ◌≡◌, ◌↔◌, refl, Bool, true, false, List, [], ◌∷◌, any, length, ◌==◌,
  nat_eq, arith, ok,
}
use predictive_autoscaler.Admission.{
  Admission, busy, new_admission, submit, take_slot, run, without, done,
}

-- The admissions that calls, refused or not, and finished jobs can make from a new one.
pub data Reached (slots : ℕ) : Admission → Type 0 where
  started : {a : Admission} → new_admission slots ≡ ok a → Reached slots a
  called :
      (takes : Bool) (job : ℕ) {a : Admission} → Reached slots a → Reached slots (run takes job a).1
  finished :
      (job : ℕ) {a : Admission}
      → Reached slots a
      → any (λ j. j == job) a.running ≡ true
      → Reached slots (done job a)

abbrev Balanced : ℕ → Admission → Type 0
Balanced slots a = a.free + length a.running ≡ slots

take_slot-Balanced :
    (slots : ℕ) (takes : Bool) (job free : ℕ) (a : Admission)
    → a.free ≡ free
    → Balanced slots a
    → Balanced slots (take_slot takes job free a).1
unfolding submit
take_slot-Balanced slots takes job zero a e h = h
take_slot-Balanced slots true job (suc free) a e h = omega (arith, e, h)
take_slot-Balanced slots false job (suc free) a e h = omega (arith, e, h)

length-without :
    (job : ℕ) (js : List ℕ)
    → any (λ j. j == job) js ≡ true
    → length js ≡ suc (length (without job js))
length-without job [] e = cc
length-without job (j ∷ js) e = ground (arith, length-without job js, e)

Reached-Balanced : (slots : ℕ) (a : Admission) → Reached slots a → Balanced slots a
unfolding run done new_admission
Reached-Balanced slots a (started e) = ground (arith, e)
Reached-Balanced slots a (called takes job {a = b} h) =
    take_slot-Balanced slots takes job b.free b refl (Reached-Balanced slots b h)
Reached-Balanced slots a (finished job {a = b} h e) =
    omega (arith, Reached-Balanced slots b h, length-without job b.running e)

busy-zero :
    (takes : Bool) (job free : ℕ) (a : Admission)
    → ((take_slot takes job free a).0 ≡ busy) ↔ (free ≡ 0)
unfolding submit
busy-zero takes job zero a = (λ p. refl, λ p. refl)
busy-zero true job (suc free) a = (λ p. cc, λ p. cc)
busy-zero false job (suc free) a = (λ p. cc, λ p. cc)

-- However calls, failed submissions and finished jobs follow one another, no slot leaks and no more jobs
-- run than there are slots; and a call is refused exactly when as many jobs run as there are slots.
pub Reached-slots :
    (slots : ℕ) (a : Admission)
    → Reached slots a
    → (length a.running ≤ slots)
      × (a.free + length a.running ≡ slots)
      × ((takes : Bool) (job : ℕ) → ((run takes job a).0 ≡ busy) ↔ (length a.running ≡ slots))
unfolding run
Reached-slots slots a h =
    let e = Reached-Balanced slots a h in
    (
      omega (arith, e),
      e,
      λ takes job.
          let full = busy-zero takes job a.free a in
          (λ p. omega (arith, e, full.0 p), λ p. full.1 (omega (arith, e, p))),
    )
