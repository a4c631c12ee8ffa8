-- ===== src/Modbus/Bits.antt =====
-- svc/controller-modbus/src/modbus.rs: what the write of one bit of a holding register does to its
-- other bits.
use eva.Base.{
  ℕ, ◌+◌, ◌-◌, ◌%◌, ◌<◌, none, some, Bool, false, if◌then◌else◌, nat_eq, ◌≡◌, refl, ok, arith, List,
  [], ◌∷◌,
}
use eva.Modbus.Types.{Sdk, Num, ModbusType, RegisterKind, Register, size}
use eva.Modbus.Block.{get_word, parse_block_value}
use eva.Modbus.Client.{
  Link, bit_of, bus_get, words_to_write, set_reg, values_of_block, bit_values, get_count,
}

module _ ⦃k : Sdk⦄ where
  open k use {Value, as_bool, to_num, of_num, get_bit, with_bit}

  -- What the code relies on: a bit of a word that is set, the bits of 0 and 1, and that a `u8` is a
  -- `u16`.
  pub record BitLaws : Type 0 where
    pub get-with :
        (n b c : ℕ) (v : Bool)
        → b < 16
        → c < 16
        → get_bit (with_bit n b v) c ≡ (if nat_eq b c then v else get_bit n c)
    pub get_small : (n c : ℕ) → n < 2 → 0 < c → c < 16 → get_bit n c ≡ false
    pub widen : (n : ℕ) → n < 2 → to_num Num.u16 (of_num Num.u8 n) ≡ ok n

  abbrev pub low_bit : ℕ → ℕ
  low_bit n = if get_bit n 0 then 1 else 0

  low_bit-lt : (n : ℕ) → low_bit n < 2
  low_bit-lt n = ground arith

  module _ (laws : BitLaws) {W : Type 0} (link : Link W) (unit number b old : ℕ) (rest : List ℕ)
      (value : Value) (v : Bool) (w w' : W) where
    abbrev reg : Register
    reg = record { kind = RegisterKind.holding; number = number }

    block_value :
        values_of_block reg ModbusType.bit none 1 (old ∷ rest)
        ≡ ok (record { register = reg; bit = some 0; value = of_num Num.u8 (low_bit old) } ∷ [])
    unfolding values_of_block bit_values parse_block_value get_word
    block_value =
        let e : ((number + 65536 - number) % 65536 + 0) % 65536 ≡ 0 = omega arith in
        rw (get_word, e) refl

    bit_of-bool : as_bool value ≡ some v → bit_of value ≡ ok v
    unfolding bit_of
    bit_of-bool h = rw (h, bit_of) refl

    bits :
        b < 16
        → (c : ℕ) → 0 < c
        → c < 16
        → nat_eq b c ≡ false
        → get_bit (with_bit (low_bit old) b v) c ≡ false
    bits h c p q d =
        rw (laws.get-with (low_bit old) b c v h q, d)
          (laws.get_small (low_bit old) c (low_bit-lt old) p q)

    -- Where bits are set and tested as documented, the link has time left and the register is
    -- read, writing a bit of a holding register, below the sixteenth and given as a Boolean, sends
    -- a word in which every other bit but the lowest is clear, whatever the register held.
    pub set_reg_bit_lem :
        as_bool value ≡ some v
        → number < 65536
        → b < 16
        → link.left w ≡ ok tt
        → link.get_u16 unit reg 1 w ≡ (w', ok (old ∷ rest))
        → link.left w' ≡ ok tt
        → (x : ℕ) × (set_reg link unit RegisterKind.holding number value ModbusType.bit (some b) w
            ≡ link.set_u16_bulk unit reg (x ∷ []) w')
          × ((c : ℕ) → 0 < c → c < 16 → nat_eq b c ≡ false → get_bit x c ≡ false)
    unfolding set_reg words_to_write bus_get get_count size
    set_reg_bit_lem h n c l g l' = (
      with_bit (low_bit old) b v,
      ground
          (arith, bit_of-bool h, l, g, block_value, laws.widen (low_bit old) (low_bit-lt old), l'),
      bits c,
    )
