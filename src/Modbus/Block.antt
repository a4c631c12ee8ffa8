-- ===== src/Modbus/Block.antt =====
-- svc/controller-modbus/src/modbus.rs: `parse_block_value`, and the words that `set_reg` makes of a
-- number.
use eva.Base.{
  ℕ, zero, suc, ◌+◌, ◌*◌, ◌/◌, ◌%◌, Option, none, some, if◌then◌else◌, EResult, ok, err, ◌>>=◌,
  ok_or, invalid_params, invalid_data, List, [], ◌∷◌,
}
use eva.Modbus.Types.{Sdk, Num, ModbusType}

abbrev pub get_elem? {ℓ} : {A : Type ℓ} → List A → ℕ → Option A
get_elem? [] i = none
get_elem? (x ∷ xs) zero = some x
get_elem? (x ∷ xs) (suc i) = get_elem? xs i

-- `(u16::from(hi) << 8) + u16::from(lo)`
abbrev pub word : ℕ → ℕ → ℕ
word hi lo = hi * 256 + lo

-- `to_be_bytes` of a `u32` and of a `u64`, and the words that the code forms of them, the high word first
unfoldable pub words32 : ℕ → List ℕ
words32 n = word (n / 16777216 % 256) (n / 65536 % 256) ∷ word (n / 256 % 256) (n % 256) ∷ []

unfoldable pub words64 : ℕ → List ℕ
words64 n =
    word (n / 72057594037927936 % 256) (n / 281474976710656 % 256)
    ∷ word (n / 1099511627776 % 256) (n / 4294967296 % 256)
    ∷ word (n / 16777216 % 256) (n / 65536 % 256)
    ∷ word (n / 256 % 256) (n % 256)
    ∷ []

unfoldable pub words32_low_first : ℕ → List ℕ
words32_low_first n =
    word (n / 256 % 256) (n % 256) ∷ word (n / 16777216 % 256) (n / 65536 % 256) ∷ []

unfoldable pub words64_low_first : ℕ → List ℕ
words64_low_first n =
    word (n / 256 % 256) (n % 256)
    ∷ word (n / 16777216 % 256) (n / 65536 % 256)
    ∷ word (n / 1099511627776 % 256) (n / 4294967296 % 256)
    ∷ word (n / 72057594037927936 % 256) (n / 281474976710656 % 256)
    ∷ []

-- the match on the type in `set_reg`, for all types but bits
unfoldable pub words_of : ModbusType → ℕ → List ℕ
unfolding words32 words64 words32_low_first words64_low_first
words_of ModbusType.bit n = n ∷ []
words_of ModbusType.uint16 n = n ∷ []
words_of ModbusType.int16 n = n ∷ []
words_of ModbusType.uint32 n = words32 n
words_of ModbusType.int32 n = words32 n
words_of ModbusType.uint64 n = words64 n
words_of ModbusType.int64 n = words64 n
words_of ModbusType.uint32w n = words32_low_first n
words_of ModbusType.int32w n = words32_low_first n
words_of ModbusType.uint64w n = words64_low_first n
words_of ModbusType.int64w n = words64_low_first n
words_of ModbusType.real32 n = words32_low_first n
words_of ModbusType.real64 n = words64_low_first n
words_of ModbusType.real32b n = words32 n
words_of ModbusType.real64b n = words64 n

-- `from_be_bytes` of the bytes of words, the high word first
unfoldable pub from_words32 : ℕ → ℕ → ℕ
from_words32 v1 v2 = v1 / 256 % 256 * 16777216 + v1 % 256 * 65536 + v2 / 256 % 256 * 256 + v2 % 256

unfoldable pub from_words64 : ℕ → ℕ → ℕ → ℕ → ℕ
from_words64 v1 v2 v3 v4 =
    v1 / 256 % 256 * 72057594037927936
    + v1 % 256 * 281474976710656
    + v2 / 256 % 256 * 1099511627776
    + v2 % 256 * 4294967296
    + v3 / 256 % 256 * 16777216
    + v3 % 256 * 65536
    + v4 / 256 % 256 * 256
    + v4 % 256

-- `get!`: the offset is a `u16`, whose addition wraps where the build does not check it
unfoldable pub get_word : List ℕ → ℕ → ℕ → EResult ℕ
get_word block offset i = ok_or (get_elem? block ((offset + i) % 65536)) invalid_data

unfoldable pub get_words32 : List ℕ → ℕ → EResult (ℕ × ℕ)
unfolding get_word
get_words32 block offset =
    get_word block offset 0 >>= λ v1. get_word block offset 1 >>= λ v2. ok (v1, v2)

unfoldable pub get_words64 : List ℕ → ℕ → EResult (ℕ × ℕ × ℕ × ℕ)
unfolding get_word
get_words64 block offset = get_word block offset 0 >>= λ v1. get_word block offset 1 >>= λ v2.
    get_word block offset 2 >>= λ v3. get_word block offset 3 >>= λ v4. ok (v1, v2, v3, v4)

module _ ⦃k : Sdk⦄ where
  open k use {Value, of_num, is_finite, get_bit}

  abbrev bit_value : ℕ → Option ℕ → EResult Value
  bit_value reg none = err invalid_params
  bit_value reg (some b) = ok (of_num Num.u8 (if get_bit reg b then 1 else 0))

  abbrev finite : Num → ℕ → EResult Value
  finite num n = if is_finite num n then ok (of_num num n) else err invalid_data

  abbrev pub high_first32 : ℕ × ℕ → ℕ
  high_first32 (v1, v2) = from_words32 v1 v2

  abbrev pub low_first32 : ℕ × ℕ → ℕ
  low_first32 (v1, v2) = from_words32 v2 v1

  abbrev pub high_first64 : ℕ × ℕ × ℕ × ℕ → ℕ
  high_first64 (v1, v2, v3, v4) = from_words64 v1 v2 v3 v4

  abbrev pub low_first64 : ℕ × ℕ × ℕ × ℕ → ℕ
  low_first64 (v1, v2, v3, v4) = from_words64 v4 v3 v2 v1

  unfoldable pub parse_block_value : List ℕ → ℕ → ModbusType → Option ℕ → EResult Value
  unfolding get_word get_words32 get_words64 from_words32 from_words64
  parse_block_value block offset ModbusType.bit b =
      get_word block offset 0 >>= λ reg. bit_value reg b
  parse_block_value block offset ModbusType.uint16 b =
      get_word block offset 0 >>= λ v. ok (of_num Num.u16 v)
  parse_block_value block offset ModbusType.int16 b =
      get_word block offset 0 >>= λ v. ok (of_num Num.i16 v)
  parse_block_value block offset ModbusType.uint32 b =
      get_words32 block offset >>= λ v. ok (of_num Num.u32 (high_first32 v))
  parse_block_value block offset ModbusType.int32 b =
      get_words32 block offset >>= λ v. ok (of_num Num.i32 (high_first32 v))
  parse_block_value block offset ModbusType.uint64 b =
      get_words64 block offset >>= λ v. ok (of_num Num.u64 (high_first64 v))
  parse_block_value block offset ModbusType.int64 b =
      get_words64 block offset >>= λ v. ok (of_num Num.i64 (high_first64 v))
  parse_block_value block offset ModbusType.uint32w b =
      get_words32 block offset >>= λ v. ok (of_num Num.u32 (low_first32 v))
  parse_block_value block offset ModbusType.int32w b =
      get_words32 block offset >>= λ v. ok (of_num Num.i32 (low_first32 v))
  parse_block_value block offset ModbusType.uint64w b =
      get_words64 block offset >>= λ v. ok (of_num Num.u64 (low_first64 v))
  parse_block_value block offset ModbusType.int64w b =
      get_words64 block offset >>= λ v. ok (of_num Num.i64 (low_first64 v))
  parse_block_value block offset ModbusType.real32 b =
      get_words32 block offset >>= λ v. finite Num.f32 (low_first32 v)
  parse_block_value block offset ModbusType.real64 b =
      get_words64 block offset >>= λ v. finite Num.f64 (low_first64 v)
  parse_block_value block offset ModbusType.real32b b =
      get_words32 block offset >>= λ v. finite Num.f32 (high_first32 v)
  parse_block_value block offset ModbusType.real64b b =
      get_words64 block offset >>= λ v. finite Num.f64 (high_first64 v)
