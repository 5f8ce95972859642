-- ===== src/Base/Equality.antt =====
-- Python's `==` on the keys of the program's dictionaries, as an instance argument.
use Prim.Native.Nat.{ℕ}
use Prim.Native.String.{String}
use mathlib.Core.Path.{◌≡◌, refl}
use mathlib.Core.Logic.{◌↔◌, inl, inr}
use mathlib.Core.Bool.{Bool, true, false, ◌&&◌}
use mathlib.Core.Option.{Option, none, some}
use native.Mathlib.Omega.{arith}
use text.Mathlib.Text.{◌==◌ as str_eq}
use text.Mathlib.TextEquality.{eq_iff}
use paper_rag.Base.Tests.{nat_beq, nat_beq_iff, Bool-cases}

-- A type whose values can be the keys of a dictionary.
pub record Key (T : Type 0) : Type 0 where
  pub equal : T → T → Bool
  pub equal_iff : (x y : T) → (equal x y ≡ true) ↔ (x ≡ y)

infix 50 ◌==◌
abbrev pub ◌==◌ : {T : Type 0} ⦃key : Key T⦄ → T → T → Bool
◌==◌ ⦃key⦄ x y = key.equal x y

pub ==_iff : {A : Type 0} ⦃e : Key A⦄ (a b : A) → ((a == b) ≡ true) ↔ (a ≡ b)
==_iff ⦃e⦄ a b = e.equal_iff a b

pub ==_refl : {A : Type 0} ⦃e : Key A⦄ (a : A) → (a == a) ≡ true
==_refl ⦃e⦄ a = (e.equal_iff a a).1 refl

instance abbrev pub nat_eq : Key ℕ
nat_eq = record { equal = nat_beq; equal_iff = nat_beq_iff }

instance abbrev pub string_eq : Key String
string_eq = record { equal = str_eq; equal_iff = eq_iff }

module _ {A : Type 0} ⦃e : Key A⦄ where
  abbrev pub option_beq : Option A → Option A → Bool
  option_beq none none = true
  option_beq none (some b) = false
  option_beq (some a) none = false
  option_beq (some a) (some b) = a == b

  pub option_beq_iff : (a b : Option A) → (option_beq a b ≡ true) ↔ (a ≡ b)
  option_beq_iff none none = (λ _. refl, λ _. refl)
  option_beq_iff none (some b) = (λ h. cc, λ h. cc)
  option_beq_iff (some a) none = (λ h. cc, λ h. cc)
  option_beq_iff (some a) (some b) =
      (λ h. cc ((e.equal_iff a b).0 h), λ h. (e.equal_iff a b).1 (cc))

module _ {A B : Type 0} ⦃e : Key A⦄ ⦃f : Key B⦄ where
  abbrev pub pair_beq : A × B → A × B → Bool
  pair_beq (a, b) (c, d) = a == c && b == d

  pub pair_beq_iff : (p q : A × B) → (pair_beq p q ≡ true) ↔ (p ≡ q)
  pair_beq_iff (a, b) (c, d) = ground (arith, e.equal_iff a c, f.equal_iff b d)

instance abbrev pub option_eq : {A : Type 0} ⦃e : Key A⦄ → Key (Option A)
option_eq = record { equal = option_beq; equal_iff = option_beq_iff }

instance abbrev pub pair_eq : {A B : Type 0} ⦃e : Key A⦄ ⦃f : Key B⦄ → Key (A × B)
pair_eq = record { equal = pair_beq; equal_iff = pair_beq_iff }

pub string_discrete : Discrete String
string_discrete a b = elim (Bool-cases (str_eq a b)) [
  | inl h ↦ yes ((eq_iff a b).0 h)
  | inr h ↦ no (λ e. cc ((eq_iff a b).1 e))
]
