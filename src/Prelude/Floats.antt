-- ===== src/Prelude/Floats.antt =====
-- The program's floating-point numbers, as an interface: a type with the operations and the test
-- that the code uses. The laws that a theorem needs are hypotheses of that theorem.
use Prim.Native.Nat.{ℕ}
use mathlib.Core.Bool.{Bool, not}
use predictive_autoscaler.Prelude.Tests.{if◌then◌else◌}

pub record Float (F : Type 0) : Type 0 where
  pub of_int : ℕ → F
  pub add : F → F → F
  pub sub : F → F → F
  pub mul : F → F → F
  pub div : F → F → F
  pub le : F → F → Bool
  pub abs : F → F
  pub is_finite : F → Bool

infixl 65 ◌⊕◌ ◌⊖◌
infixl 70 ◌⊗◌ ◌⊘◌
infix 50 ◌≤?◌ ◌<?◌
abbrev pub ◌⊕◌ : {F : Type 0} ⦃fl : Float F⦄ → F → F → F
◌⊕◌ ⦃fl⦄ = fl.add

abbrev pub ◌⊖◌ : {F : Type 0} ⦃fl : Float F⦄ → F → F → F
◌⊖◌ ⦃fl⦄ = fl.sub

abbrev pub ◌⊗◌ : {F : Type 0} ⦃fl : Float F⦄ → F → F → F
◌⊗◌ ⦃fl⦄ = fl.mul

abbrev pub ◌⊘◌ : {F : Type 0} ⦃fl : Float F⦄ → F → F → F
◌⊘◌ ⦃fl⦄ = fl.div

abbrev pub ◌≤?◌ : {F : Type 0} ⦃fl : Float F⦄ → F → F → Bool
◌≤?◌ ⦃fl⦄ = fl.le

-- `a < b`; no number of the model is a NaN, since the code refuses one where a value enters.
abbrev pub ◌<?◌ : {F : Type 0} ⦃fl : Float F⦄ → F → F → Bool
a <? b = not (b ≤? a)

-- `max(a, b)` keeps the first argument on a tie.
abbrev pub fmax : {F : Type 0} ⦃fl : Float F⦄ → F → F → F
fmax a b = if a <? b then b else a
