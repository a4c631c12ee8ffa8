-- ===== src/Base/Eq.antt =====
-- Boolean equality as an interface: what a key of a `HashMap` or a compared field offers.
use Prim.Native.Nat.{ℕ}
use Prim.Native.String.{String}
use mathlib.Core.Path.{◌≡◌, refl, ap, sym}
use mathlib.Core.Logic.{◌↔◌, ◌≢◌}
use mathlib.Core.Bool.{Bool, true, false}
use mathlib.Core.Option.{Option, none, some}
use native.Mathlib.Omega.{arith}
use text.Mathlib.Text.{◌==◌ as str_eq}
use text.Mathlib.TextEquality.{eq_iff}
use eva.Base.Tests.{nat_eq}

pub nat_eq_iff : (m n : ℕ) → (nat_eq m n ≡ true) ↔ (m ≡ n)
nat_eq_iff m n = (λ h. ground arith, λ h. ground arith)

-- A test that decides equality.
pub record Eq {ℓ} (K : Type ℓ) : Type ℓ where
  pub same : K → K → Bool
  pub decides : (j k : K) → (same j k ≡ true) ↔ (j ≡ k)

instance abbrev pub string-Eq : Eq String
string-Eq = record { same = str_eq; decides = eq_iff }

instance abbrev pub nat-Eq : Eq ℕ
nat-Eq = record { same = nat_eq; decides = nat_eq_iff }

infix 50 ◌==◌
abbrev pub ◌==◌ {ℓ} : {K : Type ℓ} ⦃e : Eq K⦄ → K → K → Bool
◌==◌ ⦃e⦄ j k = e.same j k

module _ {ℓ} {A : Type ℓ} ⦃e : Eq A⦄ where
  abbrev pub option_eq : Option A → Option A → Bool
  option_eq none none = true
  option_eq (some a) (some b) = e.same a b
  option_eq _ _ = false

  pub option_eq_iff : (a b : Option A) → (option_eq a b ≡ true) ↔ (a ≡ b)
  option_eq_iff none none = (λ h. refl, λ h. refl)
  option_eq_iff none (some b) = (λ h. cc, λ h. cc)
  option_eq_iff (some a) none = (λ h. cc, λ h. cc)
  option_eq_iff (some a) (some b) =
      (λ h. ap some ((e.decides a b).0 h), λ h. (e.decides a b).1 (cc))

  instance abbrev pub option-Eq : Eq (Option A)
  option-Eq = record { same = option_eq; decides = option_eq_iff }

  pub beq_refl : (a : A) → (a == a) ≡ true
  beq_refl a = (e.decides a a).1 refl

  pub beq→≡ : (a b : A) → (a == b) ≡ true → a ≡ b
  beq→≡ a b h = (e.decides a b).0 h

  pub ne→beq : (a b : A) → a ≢ b → (a == b) ≡ false
  ne→beq a b h = go (a == b) (λ t. h (beq→≡ a b t))
    where
      go : (t : Bool) → ¬ (t ≡ true) → t ≡ false
      go true n = absurd (n refl)
      go false n = refl

  pub beq→ne : (a b : A) → (a == b) ≡ false → a ≢ b
  beq→ne a b h p = cc ((e.decides a b).1 p)

  pub beq-sym : (a b : A) → (a == b) ≡ false → (b == a) ≡ false
  beq-sym a b h = ne→beq b a (λ p. beq→ne a b h (sym p))
