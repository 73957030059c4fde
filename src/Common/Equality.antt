-- ===== src/Common/Equality.antt =====
-- Go's `==` as an interface, with its instances: texts, byte strings, numbers.
use Prim.Native.Nat.{ℕ}
use Prim.Native.String.{String}
use mathlib.Core.Path.{◌≡◌, refl}
use mathlib.Core.Logic.{◌↔◌}
use mathlib.Core.Bool.{Bool, true, false, ◌&&◌}
use mathlib.Core.List.{List, [], ◌∷◌}
use native.Mathlib.Omega.{arith}
use text.Mathlib.Text
use text.Mathlib.TextEquality
use relaybaton.Common.Tests.{◌=ℕ◌, =ℕ_iff}

abbrev pub bytes_beq : List ℕ → List ℕ → Bool
bytes_beq [] [] = true
bytes_beq [] (y ∷ ys) = false
bytes_beq (x ∷ xs) [] = false
bytes_beq (x ∷ xs) (y ∷ ys) = (x =ℕ y) && bytes_beq xs ys

pub bytes_beq_iff : (xs ys : List ℕ) → (bytes_beq xs ys ≡ true) ↔ (xs ≡ ys)
bytes_beq_iff [] [] = (λ _. refl, λ _. refl)
bytes_beq_iff [] (y ∷ ys) = (λ h. cc, λ h. cc)
bytes_beq_iff (x ∷ xs) [] = (λ h. cc, λ h. cc)
bytes_beq_iff (x ∷ xs) (y ∷ ys) = ground (arith, bytes_beq_iff xs ys)

pub record Comparable {κ} (K : Type κ) : Type κ where
  pub same : K → K → Bool
  pub same_iff : (j k : K) → (same j k ≡ true) ↔ (j ≡ k)

instance abbrev pub same_string : Comparable String
same_string = record { same_iff = TextEquality.eq_iff; same = Text.◌==◌ }

instance abbrev pub same_bytes : Comparable (List ℕ)
same_bytes = record { same_iff = bytes_beq_iff; same = bytes_beq }

instance abbrev pub same_nat : Comparable ℕ
same_nat = record { same_iff = =ℕ_iff; same = ◌=ℕ◌ }

module _ {κ} {K : Type κ} ⦃c : Comparable K⦄ where
  infix 50 ◌==◌
  abbrev pub ◌==◌ : K → K → Bool
  j == k = c.same j k

  pub eq_self : (k : K) → (k == k) ≡ true
  eq_self k = (c.same_iff k k).1 refl
