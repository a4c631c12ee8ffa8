-- ===== src/Modbus/Register.antt =====
-- svc/controller-modbus/src/types.rs: registers as texts.
use eva.Base.{
  ℕ, zero, suc, ◌+◌, ◌*◌, ◌/◌, ◌%◌, ◌≤◌, ◌<◌, ltb, ◌≡◌, refl, ok, arith, List, [], ◌∷◌, Bool-cases,
  inl, inr, ◌∙◌,
}
use eva.Modbus.Types.{
  RegisterKind, Register, from_char, as_char, digits, to_text, parse_digits, parse_unsigned,
  parse_register,
}

parse_digits-digit :
    (bound acc d n : ℕ) (rest : List ℕ)
    → d < 10
    → acc * 10 + d ≡ n
    → n < bound
    → parse_digits bound acc ((b'0' + d) ∷ rest) ≡ parse_digits bound n rest
unfolding parse_digits
parse_digits-digit bound acc d n rest h e b = ground arith

abbrev pow10 : ℕ → ℕ
pow10 zero = 1
pow10 (suc n) = 10 * pow10 n

-- reading what was printed is reading on from the number
parse_digits-digits :
    (bound fuel n : ℕ) (rest : List ℕ)
    → n < pow10 fuel
    → n < bound
    → parse_digits bound 0 (digits fuel n rest) ≡ parse_digits bound n rest
unfolding digits
parse_digits-digits bound zero n rest h b = let e : n ≡ 0 = omega arith in rw e refl
parse_digits-digits bound (suc fuel) n rest h b = elim (Bool-cases (ltb n 10)) [
  | inl y ↦ rw y (parse_digits-digit bound 0 n n rest (ground arith) (omega arith) b)
  | inr m ↦ rw m (
      parse_digits-digits bound fuel (n / 10) ((b'0' + n % 10) ∷ rest) (omega arith) (omega arith)
      ∙ parse_digits-digit bound (n / 10) (n % 10) n rest (omega arith) (omega arith) b)
]

-- a text that starts with a digit
abbrev StartsWithDigit : List ℕ → Type 0
StartsWithDigit [] = ⊥
StartsWithDigit (c ∷ _) = b'0' ≤ c

digits-StartsWithDigit :
    (fuel n : ℕ) (rest : List ℕ) → StartsWithDigit rest → StartsWithDigit (digits fuel n rest)
unfolding digits
digits-StartsWithDigit zero n rest s = s
digits-StartsWithDigit (suc fuel) n rest s = elim (Bool-cases (ltb n 10)) [
  | inl y ↦ rw y (omega arith)
  | inr m ↦ rw m (digits-StartsWithDigit fuel (n / 10) ((b'0' + n % 10) ∷ rest) (omega arith))
]

printed-StartsWithDigit : (fuel n : ℕ) → StartsWithDigit (digits (suc fuel) n [])
unfolding digits
printed-StartsWithDigit fuel n = elim (Bool-cases (ltb n 10)) [
  | inl y ↦ rw y (omega arith)
  | inr m ↦ rw m (digits-StartsWithDigit fuel (n / 10) ((b'0' + n % 10) ∷ []) (omega arith))
]

parse_unsigned-eq :
    (bound : ℕ) (text : List ℕ)
    → StartsWithDigit text
    → parse_unsigned bound text ≡ parse_digits bound 0 text
unfolding parse_unsigned
parse_unsigned-eq bound [] s = absurd s
parse_unsigned-eq bound (c ∷ []) s = ground arith
parse_unsigned-eq bound (c ∷ d ∷ rest) s = ground arith

from_char-as_char : (kind : RegisterKind) → from_char (as_char kind) ≡ ok kind
unfolding from_char as_char
from_char-as_char RegisterKind.coil = refl
from_char-as_char RegisterKind.discrete = refl
from_char-as_char RegisterKind.input = refl
from_char-as_char RegisterKind.holding = refl

-- A register whose number is below 65536 is read back from its text.
pub parse_register-to_text : (r : Register) → r.number < 65536 → parse_register (to_text r) ≡ ok r
unfolding parse_register to_text
parse_register-to_text r h =
    rw
      (
        from_char-as_char r.kind,
        parse_unsigned-eq 65536 (digits 5 r.number []) (printed-StartsWithDigit 4 r.number),
        parse_digits-digits 65536 5 r.number [] (omega arith) h,
      )
      (unfold parse_digits in refl)
