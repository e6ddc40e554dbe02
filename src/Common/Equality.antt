-- ===== src/Common/Equality.antt =====
-- Boolean equality of keys, as an instance: numbers, texts, and pairs.
use Prim.Native.Nat.{ℕ}
use Prim.Native.String.{String}
use mathlib.Core.Path.{◌≡◌, refl}
use mathlib.Core.Logic.{◌↔◌}
use mathlib.Core.Bool.{Bool, true, ◌&&◌}
use native.Mathlib.Omega.{arith}
use text.Mathlib.Text.{◌==◌ as str_eq}
use text.Mathlib.TextEquality.{eq_iff}
use browserkit.Common.Tests.{eqb, eqb_iff}

-- A type whose values can be the keys of a map.
pub record Key {κ} (K : Type κ) : Type κ where
  pub beq : K → K → Bool
  pub beq_iff : (j k : K) → (beq j k ≡ true) ↔ (j ≡ k)

module _ {κ} {K : Type κ} ⦃key : Key K⦄ where
  infix 50 ◌==◌
  abbrev pub ◌==◌ : K → K → Bool
  ◌==◌ = key.beq

  pub beq_refl : (k : K) → key.beq k k ≡ true
  beq_refl k = (key.beq_iff k k).1 refl

instance abbrev pub string_eq : Key String
string_eq = record { beq_iff = eq_iff; beq = str_eq }

instance abbrev pub nat_eq : Key ℕ
nat_eq = record { beq_iff = eqb_iff; beq = eqb }

module _ {κ μ} {K : Type κ} {J : Type μ} ⦃first : Key K⦄ ⦃second : Key J⦄ where
  abbrev pub pair_beq : K × J → K × J → Bool
  pair_beq (a, b) (c, d) = first.beq a c && second.beq b d

  pub pair_beq_iff : (p q : K × J) → (pair_beq p q ≡ true) ↔ (p ≡ q)
  pair_beq_iff (a, b) (c, d) = (
    λ h. ground (arith, first.beq_iff a c, second.beq_iff b d),
    λ h. ground (arith, first.beq_iff a c, second.beq_iff b d),
  )

  instance abbrev pub pair_eq : Key (K × J)
  pair_eq = record { beq_iff = pair_beq_iff; beq = pair_beq }
