-- ===== src/Examples/Modbus.antt =====
-- The Modbus controller over values that are numbers, and a device that has one register.
use eva.Base.{
  ℕ, zero, suc, ◌+◌, ◌*◌, ◌/◌, ◌%◌, ◌<◌, Bool, true, false, if◌then◌else◌, ltb, nat_eq, none, some,
  ◌≡◌, refl, ok, err, invalid_params, invalid_data, inl, List, [], ◌∷◌, ◌++◌, arith,
}
use eva.Modbus.Types.{
  Sdk, ModbusType, RegisterKind, Register, num_of, parse_register, to_text, parse_offset,
}
use eva.Modbus.Block.{words_of, parse_block_value}
use eva.Modbus.Client.{Link, bus_set, set_reg, set}
use eva.Modbus.Config.{PullTask, PullReg, init_pull, init_unit}
use eva.Modbus.Register.{parse_register-to_text}
use eva.Modbus.Words.{parse_block_value-words_of}
use eva.Modbus.Bits.{BitLaws, set_reg_bit_lem}
use eva.Modbus.Mapping.{AllMapped, init_pull-AllMapped}
use eva.Modbus.Attempts.{set_lem}

abbrev get_bit : ℕ → ℕ → Bool
get_bit n zero = nat_eq (n % 2) 1
get_bit n (suc b) = get_bit (n / 2) b

abbrev with_bit : ℕ → ℕ → Bool → ℕ
with_bit n zero v = n / 2 * 2 + (if v then 1 else 0)
with_bit n (suc b) v = with_bit (n / 2) b v * 2 + n % 2

instance abbrev numbers : Sdk
numbers = record {
  Value = ℕ;
  value_eq = nat_eq;
  as_bool = λ n. if ltb n 2 then some (nat_eq n 1) else none;
  is_string = λ _. false;
  is_numeric = λ _. true;
  to_num = λ _ n. ok n;
  of_num = λ _ n. n;
  is_finite = λ _ _. true;
  get_bit = get_bit;
  with_bit = with_bit;
}

halved : (m b : ℕ) → b < 2 → (m * 2 + b) / 2 ≡ m
halved m b h = omega arith

last : (m b : ℕ) → b < 2 → (m * 2 + b) % 2 ≡ b
last m b h = omega arith

get-with :
    (n b c : ℕ) (v : Bool) → get_bit (with_bit n b v) c ≡ (if nat_eq b c then v else get_bit n c)
get-with n zero zero v = ground arith
get-with n zero (suc c) v = rw (halved (n / 2) (if v then 1 else 0) (ground arith)) (ground arith)
get-with n (suc b) zero v = rw (last (with_bit (n / 2) b v) (n % 2) (omega arith)) (ground arith)
get-with n (suc b) (suc c) v =
    rw (halved (with_bit (n / 2) b v) (n % 2) (omega arith))
      (ground (arith, get-with (n / 2) b c v))

get_zero : (c : ℕ) → get_bit 0 c ≡ false
get_zero zero = refl
get_zero (suc c) = get_zero c

get_small : (n c : ℕ) → n < 2 → 0 < c → c < 16 → get_bit n c ≡ false
get_small n zero l p m = absurd (omega arith)
get_small n (suc c) l p m = let h : n / 2 ≡ 0 = omega arith in rw h (get_zero c)

abbrev laws : BitLaws
laws = record {
  get-with = λ n b c v _ _. get-with n b c v;
  get_small = get_small;
  widen = λ n h. refl;
}

abbrev write : List ℕ → ℕ → ℕ
write [] w = w
write (x ∷ _) w = x

abbrev device : Link ℕ
device = record {
  get_bool = λ unit reg n w. (w, err invalid_data);
  set_bool = λ unit reg v w. (w, err invalid_data);
  get_u16 = λ unit reg n w. (w, ok (w ∷ []));
  set_u16_bulk = λ unit reg vals w. (write vals w, ok tt);
  left = λ w. ok tt;
  pause = λ w. w;
}

abbrev h7 : Register
h7 = record { kind = RegisterKind.holding; number = 7 }

parse_register-to_text_example : parse_register (to_text h7) ≡ ok h7
parse_register-to_text_example = parse_register-to_text h7 (omega arith)

parse_block_value-words_of_example :
    parse_block_value (9 ∷ (words_of ModbusType.uint32 70000 ++ (5 ∷ []))) 1 ModbusType.uint32 none
    ≡ ok 70000
unfolding num_of
parse_block_value-words_of_example =
    parse_block_value-words_of ModbusType.uint32 70000 (9 ∷ []) (5 ∷ []) none refl (omega arith)
      (λ h. refl) (omega arith)

-- the register holds 12; bit 0 is set
set_reg_bit_lem_example :
    (x : ℕ) × (set_reg device 1 RegisterKind.holding 7 1 ModbusType.bit (some 0) 12 ≡ (x, ok tt))
    × ((c : ℕ) → 0 < c → c < 16 → nat_eq 0 c ≡ false → get_bit x c ≡ false)
set_reg_bit_lem_example =
    set_reg_bit_lem laws device 1 7 0 12 [] 1 true 12 12 refl (omega arith) (omega arith) refl refl
      refl

abbrev task : PullTask
task = record {
  offset = record { offset = 12; bit = none; absolute = true };
  has_value_delta = false;
  tp = ModbusType.uint16;
  block_offset = 0;
}

abbrev pull : PullReg
pull = record { reg = h7; count = 10; unit = 0; map = task ∷ [] }

abbrev pull_ready : PullReg
pull_ready = record pull { unit = 3; map = record task { block_offset = 5 } ∷ [] }

init_pull_run : init_pull pull (some 3) ≡ ok pull_ready
unfolding init_pull
init_pull_run = refl

init_pull-AllMapped_example :
    AllMapped h7 pull_ready.map × (h7 ≡ h7) × (ok 3 ≡ init_unit 0 (some 3))
init_pull-AllMapped_example = init_pull-AllMapped pull (some 3) pull_ready init_pull_run

parse_register_too_large :
    parse_register (b'h' ∷ b'6' ∷ b'5' ∷ b'5' ∷ b'3' ∷ b'6' ∷ []) ≡ err invalid_params
unfolding parse_register
parse_register_too_large = refl

parse_offset_sum :
    parse_offset (b'=' ∷ b'1' ∷ b'0' ∷ b'+' ∷ b'2' ∷ b'/' ∷ b'3' ∷ [])
    ≡ ok (record { offset = 12; bit = some 3; absolute = true })
unfolding parse_offset
parse_offset_sum = refl

-- a device that takes no write before the second one
abbrev flaky : Link ℕ
flaky = record device {
  set_u16_bulk = λ unit reg vals w. (w + 1, if ltb w 1 then err invalid_data else ok tt);
}

set_lem_example :
    set flaky 1 h7 300 (some ModbusType.uint16) none false 2 0
    ≡ bus_set flaky 1 h7 300 (some ModbusType.uint16) none false 1
unfolding bus_set
set_lem_example =
    set_lem flaky 1 h7 300 (some ModbusType.uint16) none false 2 1 0 refl (omega arith)
      ((invalid_data, refl), tt) (inl tt)
