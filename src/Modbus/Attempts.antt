-- ===== src/Modbus/Attempts.antt =====
-- svc/controller-modbus/src/modbus.rs: the attempts of `set`.
use eva.Base.{
  ℕ, zero, suc, ◌≤◌, Option, Bool, true, ◌≡◌, refl, ◌∙◌, ◌⊎◌, inl, inr, EResult, ok, err, Error,
  arith,
}
use eva.Modbus.Types.{Sdk, ModbusType, Register}
use eva.Modbus.Client.{Link, M, bus_set, attempt, or_again, set, acceptable}

-- the state of the link before the attempt `k`, the first being 0
abbrev pub before : {W A : Type 0} → M W A → ℕ → W → W
before m zero w = w
before m (suc k) w = before m k (m w).0

-- the first `k` attempts fail
abbrev pub AllFail : {W A : Type 0} → M W A → ℕ → W → Type 0
AllFail m zero w = Unit
AllFail m (suc k) w = ((e : Error) × ((m w).1 ≡ err e)) × AllFail m k (m w).0

abbrev pub IsOk : {A : Type 0} → EResult A → Type 0
IsOk (ok a) = Unit
IsOk (err e) = ⊥

module _ ⦃k : Sdk⦄ {W : Type 0} (link : Link W) where
  open k use {Value}

  or_again-ok :
      {A : Type 0} (again : M W A) (r : W × EResult A) → IsOk r.1 → or_again link again r ≡ r
  or_again-ok again (w, ok a) h = refl
  or_again-ok again (w, err e) h = absurd h

  or_again-err :
      {A : Type 0} (again : M W A) (r : W × EResult A) {e : Error}
      → r.1 ≡ err e
      → or_again link again r ≡ again r.0
  or_again-err again (w, ok a) h = cc
  or_again-err again (w, err e) h = refl

  attempt-eq :
      {A : Type 0} (n i : ℕ) (m : M W A) (w : W)
      → i ≤ n
      → AllFail m i w
      → IsOk (m (before m i w)).1 ⊎ (i ≡ n)
      → attempt link n m w ≡ m (before m i w)
  unfolding attempt
  attempt-eq zero zero m w l f h = refl
  attempt-eq (suc n) zero m w l f (inl h) = or_again-ok (attempt link n m) (m w) h
  attempt-eq (suc n) zero m w l f (inr h) = absurd (omega (arith, h))
  attempt-eq zero (suc i) m w l f h = absurd (omega (arith, l))
  attempt-eq (suc n) (suc i) m w l f h =
      or_again-err (attempt link n m) (m w) f.0.1
      ∙ attempt-eq n i m (m w).0 (omega (arith, l)) f.1 (earlier h)
    where
      earlier :
          IsOk (m (before m (suc i) w)).1 ⊎ (suc i ≡ suc n)
          → IsOk (m (before m i (m w).0)).1 ⊎ (i ≡ n)
      earlier (inl a) = inl a
      earlier (inr e) = inr (omega (arith, e))

  -- Where the value may be written, set answers with the first attempt that succeeds, if it is
  -- among the first and the retries, each made on the link as the failed ones before have left it,
  -- and with the last one if none does.
  pub set_lem :
      (unit : ℕ) (reg : Register) (value : Value) (tp : Option ModbusType) (b : Option ℕ)
      (verify : Bool) (retries i : ℕ) (w : W)
      → acceptable link value ≡ true
      → i ≤ retries
      → AllFail (bus_set link unit reg value tp b verify) i w
      → (IsOk
          (bus_set link unit reg value tp b verify
            (before (bus_set link unit reg value tp b verify) i w)).1)
        ⊎ (i ≡ retries)
      → set link unit reg value tp b verify retries w
        ≡ bus_set link unit reg value tp b verify
            (before (bus_set link unit reg value tp b verify) i w)
  unfolding set
  set_lem unit reg value tp b verify retries i w a l f h =
      rw a (attempt-eq retries i (bus_set link unit reg value tp b verify) w l f h)
