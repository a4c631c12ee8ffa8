-- ===== src/Modbus/Words.antt =====
-- svc/controller-modbus/src/modbus.rs: values of several registers, written and read.
use eva.Base.{
  ℕ, suc, ◌+◌, ◌/◌, ◌%◌, ◌≤◌, ◌<◌, Option, Bool, true, false, ◌≡◌, refl, ok, ok_or, invalid_data,
  arith, List, [], ◌∷◌, ◌++◌,
}
use eva.Base.Lists.{length}
use eva.Modbus.Types.{Sdk, Num, ModbusType, is_bit, num_of}
use eva.Modbus.Block.{
  get_elem?, word, words32, words64, words32_low_first, words64_low_first, words_of, from_words32,
  from_words64, get_word, get_words32, get_words64, parse_block_value,
}

from_words32-words32 :
    (n : ℕ)
    → n < 4294967296
    → from_words32 (word (n / 16777216 % 256) (n / 65536 % 256)) (word (n / 256 % 256) (n % 256))
      ≡ n
unfolding from_words32
from_words32-words32 n h = omega arith

from_words64-words64 :
    (n : ℕ)
    → n < 18446744073709551616
    → from_words64
        (word (n / 72057594037927936 % 256) (n / 281474976710656 % 256))
        (word (n / 1099511627776 % 256) (n / 4294967296 % 256))
        (word (n / 16777216 % 256) (n / 65536 % 256))
        (word (n / 256 % 256) (n % 256))
      ≡ n
unfolding from_words64
from_words64-words64 n h = omega arith

get_elem?-append :
    (before xs : List ℕ) (i : ℕ) → get_elem? (before ++ xs) (length before + i) ≡ get_elem? xs i
get_elem?-append [] xs i = let e : 0 + i ≡ i = omega arith in rw e refl
get_elem?-append (b ∷ before) xs i =
    let e : suc (length before) + i ≡ suc (length before + i) = omega arith in
    rw e (get_elem?-append before xs i)

get_word-append :
    (before xs : List ℕ) (i : ℕ)
    → length before + i < 65536
    → get_word (before ++ xs) (length before) i ≡ ok_or (get_elem? xs i) invalid_data
unfolding get_word
get_word-append before xs i h =
    let e : (length before + i) % 65536 ≡ length before + i = omega arith in
    rw (e, get_elem?-append before xs i) refl

get_words32-append :
    (before : List ℕ) (v1 v2 : ℕ) (after : List ℕ)
    → length before + 4 ≤ 65536
    → get_words32 (before ++ (v1 ∷ v2 ∷ after)) (length before) ≡ ok (v1, v2)
unfolding get_words32
get_words32-append before v1 v2 after h =
    rw
      (
        get_word-append before (v1 ∷ v2 ∷ after) 0 (omega arith),
        get_word-append before (v1 ∷ v2 ∷ after) 1 (omega arith),
      )
      refl

get_words64-append :
    (before : List ℕ) (v1 v2 v3 v4 : ℕ) (after : List ℕ)
    → length before + 4 ≤ 65536
    → get_words64 (before ++ (v1 ∷ v2 ∷ v3 ∷ v4 ∷ after)) (length before) ≡ ok (v1, v2, v3, v4)
unfolding get_words64
get_words64-append before v1 v2 v3 v4 after h =
    rw
      (
        get_word-append before (v1 ∷ v2 ∷ v3 ∷ v4 ∷ after) 0 (omega arith),
        get_word-append before (v1 ∷ v2 ∷ v3 ∷ v4 ∷ after) 1 (omega arith),
        get_word-append before (v1 ∷ v2 ∷ v3 ∷ v4 ∷ after) 2 (omega arith),
        get_word-append before (v1 ∷ v2 ∷ v3 ∷ v4 ∷ after) 3 (omega arith),
      )
      refl

-- the numbers of a kind are below
abbrev pub limit : Num → ℕ
limit Num.u8 = 256
limit Num.u16 = 65536
limit Num.i16 = 65536
limit Num.u32 = 4294967296
limit Num.i32 = 4294967296
limit Num.f32 = 4294967296
limit Num.u64 = 18446744073709551616
limit Num.i64 = 18446744073709551616
limit Num.f64 = 18446744073709551616

abbrev pub is_real : Num → Bool
is_real Num.f32 = true
is_real Num.f64 = true
is_real _ = false

module _ ⦃k : Sdk⦄ where
  open k use {Value, of_num, is_finite}

  -- For every type but bits, the value that is read from a block at the place of the words written
  -- for a number is that number in its type, whatever stands before and after; the block before
  -- leaves room below 65536, the number fits the type, and a float is finite.
  pub parse_block_value-words_of :
      (tp : ModbusType) (n : ℕ) (before after : List ℕ) (b : Option ℕ)
      → is_bit tp ≡ false
      → n < limit (num_of tp)
      → (is_real (num_of tp) ≡ true → is_finite (num_of tp) n ≡ true)
      → length before + 4 ≤ 65536
      → parse_block_value (before ++ (words_of tp n ++ after)) (length before) tp b
        ≡ ok (of_num (num_of tp) n)
  unfolding parse_block_value words_of num_of words32 words64 words32_low_first words64_low_first
  parse_block_value-words_of ModbusType.bit n before after b t h f l = cc
  parse_block_value-words_of ModbusType.uint16 n before after b t h f l =
      rw (get_word-append before (n ∷ after) 0 (omega arith)) refl
  parse_block_value-words_of ModbusType.int16 n before after b t h f l =
      rw (get_word-append before (n ∷ after) 0 (omega arith)) refl
  parse_block_value-words_of ModbusType.uint32 n before after b t h f l =
      rw
        (
          get_words32-append before (word (n / 16777216 % 256) (n / 65536 % 256))
              (word (n / 256 % 256) (n % 256)) after l,
          from_words32-words32 n h,
        )
        refl
  parse_block_value-words_of ModbusType.int32 n before after b t h f l =
      rw
        (
          get_words32-append before (word (n / 16777216 % 256) (n / 65536 % 256))
              (word (n / 256 % 256) (n % 256)) after l,
          from_words32-words32 n h,
        )
        refl
  parse_block_value-words_of ModbusType.uint64 n before after b t h f l =
      rw
        (
          get_words64-append before (word (n / 72057594037927936 % 256) (n / 281474976710656 % 256))
              (word (n / 1099511627776 % 256) (n / 4294967296 % 256))
              (word (n / 16777216 % 256) (n / 65536 % 256)) (word (n / 256 % 256) (n % 256)) after
              l,
          from_words64-words64 n h,
        )
        refl
  parse_block_value-words_of ModbusType.int64 n before after b t h f l =
      rw
        (
          get_words64-append before (word (n / 72057594037927936 % 256) (n / 281474976710656 % 256))
              (word (n / 1099511627776 % 256) (n / 4294967296 % 256))
              (word (n / 16777216 % 256) (n / 65536 % 256)) (word (n / 256 % 256) (n % 256)) after
              l,
          from_words64-words64 n h,
        )
        refl
  parse_block_value-words_of ModbusType.uint32w n before after b t h f l =
      rw
        (
          get_words32-append before (word (n / 256 % 256) (n % 256))
              (word (n / 16777216 % 256) (n / 65536 % 256)) after l,
          from_words32-words32 n h,
        )
        refl
  parse_block_value-words_of ModbusType.int32w n before after b t h f l =
      rw
        (
          get_words32-append before (word (n / 256 % 256) (n % 256))
              (word (n / 16777216 % 256) (n / 65536 % 256)) after l,
          from_words32-words32 n h,
        )
        refl
  parse_block_value-words_of ModbusType.uint64w n before after b t h f l =
      rw
        (
          get_words64-append before (word (n / 256 % 256) (n % 256))
              (word (n / 16777216 % 256) (n / 65536 % 256))
              (word (n / 1099511627776 % 256) (n / 4294967296 % 256))
              (word (n / 72057594037927936 % 256) (n / 281474976710656 % 256)) after l,
          from_words64-words64 n h,
        )
        refl
  parse_block_value-words_of ModbusType.int64w n before after b t h f l =
      rw
        (
          get_words64-append before (word (n / 256 % 256) (n % 256))
              (word (n / 16777216 % 256) (n / 65536 % 256))
              (word (n / 1099511627776 % 256) (n / 4294967296 % 256))
              (word (n / 72057594037927936 % 256) (n / 281474976710656 % 256)) after l,
          from_words64-words64 n h,
        )
        refl
  parse_block_value-words_of ModbusType.real32 n before after b t h f l =
      rw
        (
          get_words32-append before (word (n / 256 % 256) (n % 256))
              (word (n / 16777216 % 256) (n / 65536 % 256)) after l,
          from_words32-words32 n h,
          f refl,
        )
        refl
  parse_block_value-words_of ModbusType.real64 n before after b t h f l =
      rw
        (
          get_words64-append before (word (n / 256 % 256) (n % 256))
              (word (n / 16777216 % 256) (n / 65536 % 256))
              (word (n / 1099511627776 % 256) (n / 4294967296 % 256))
              (word (n / 72057594037927936 % 256) (n / 281474976710656 % 256)) after l,
          from_words64-words64 n h,
          f refl,
        )
        refl
  parse_block_value-words_of ModbusType.real32b n before after b t h f l =
      rw
        (
          get_words32-append before (word (n / 16777216 % 256) (n / 65536 % 256))
              (word (n / 256 % 256) (n % 256)) after l,
          from_words32-words32 n h,
          f refl,
        )
        refl
  parse_block_value-words_of ModbusType.real64b n before after b t h f l =
      rw
        (
          get_words64-append before (word (n / 72057594037927936 % 256) (n / 281474976710656 % 256))
              (word (n / 1099511627776 % 256) (n / 4294967296 % 256))
              (word (n / 16777216 % 256) (n / 65536 % 256)) (word (n / 256 % 256) (n % 256)) after
              l,
          from_words64-words64 n h,
          f refl,
        )
        refl
