-- ===== src/Admission.antt =====
-- Admission slots of the services (ml-engine/api/admission.py). A job is a number; the semaphore is its
-- free slots. Whether the executor takes a job is an argument, since the executor is the library's.
pub mod Slots
use predictive_autoscaler.Prelude.{
  ℕ, zero, suc, ◌+◌, Bool, true, false, List, [], ◌∷◌, ltb, ◌==◌, nat_eq, if◌then◌else◌, Result, ok,
  err, raise_if, ◌>>=◌, ◌>>◌,
}

pub data AdmissionError : Type 0 where
  no_slots : AdmissionError

-- How a call of `run` goes on: refused at once, failed on submission, or submitted.
pub data Admitted : Type 0 where
  busy not_submitted submitted : Admitted

pub record Admission : Type 0 where
  pub slots : ℕ
  pub free : ℕ
  pub running : List ℕ

unfoldable pub new_admission : ℕ → Result AdmissionError Admission
new_admission slots = do
  raise_if (ltb slots 1) no_slots
  ok (record { slots = slots; free = slots; running = [] })

-- `release` of the semaphore.
unfoldable pub release : Admission → Admission
release a = record a { free = a.free + 1 }

-- After the slot was taken: a job that was not submitted gives it back.
unfoldable pub submit : Bool → ℕ → Admission → Admitted × Admission
unfolding release
submit true job a = (submitted, record a { running = job ∷ a.running })
submit false job a = (not_submitted, release a)

abbrev pub take_slot : Bool → ℕ → ℕ → Admission → Admitted × Admission
take_slot takes job zero a = (busy, a)
take_slot takes job (suc free) a = submit takes job (record a { free = free })

-- `run`, up to the await of the job.
unfoldable pub run : Bool → ℕ → Admission → Admitted × Admission
unfolding submit
run takes job a = take_slot takes job a.free a

abbrev pub without : ℕ → List ℕ → List ℕ
without job [] = []
without job (j ∷ js) = if j == job then js else j ∷ without job js

-- The done callback of a job that was submitted.
unfoldable pub done : ℕ → Admission → Admission
unfolding release
done job a = release (record a { running = without job a.running })
