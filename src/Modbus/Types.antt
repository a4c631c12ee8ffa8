-- ===== src/Modbus/Types.antt =====
-- svc/controller-modbus/src/types.rs: kinds of values, registers and offsets, and how they are read
-- from texts; and what the controller takes from eva_common and eva_sdk.
use eva.Base.{
  ℕ, zero, suc, ◌+◌, ◌-◌, ◌*◌, ◌/◌, ◌%◌, Option, none, some, Bool, true, false, ◌&&◌, if◌then◌else◌,
  ltb, leb, nat_eq, EResult, ok, err, ◌>>=◌, invalid_params, List, [], ◌∷◌,
}

-- The numbers that a value is converted to and made of, as `TryInto` and the constructors of
-- `eva_common::value::Value` have them. A number is its bit pattern, signed ones in two's complement
-- and floats as IEEE 754 lays them out.
pub data Num : Type 0 where
  u8 u16 i16 u32 i32 u64 i64 f32 f64 : Num

pub record Sdk : Type 1 where
  pub Value : Type 0
  pub value_eq : Value → Value → Bool
  pub as_bool : Value → Option Bool
  pub is_string : Value → Bool
  pub is_numeric : Value → Bool
  pub to_num : Num → Value → EResult ℕ
  pub of_num : Num → ℕ → Value
  -- f32::is_finite and f64::is_finite of a bit pattern
  pub is_finite : Num → ℕ → Bool
  -- eva_sdk::bitman::BitMan for u16
  pub get_bit : ℕ → ℕ → Bool
  pub with_bit : ℕ → ℕ → Bool → ℕ

pub data ModbusType : Type 0 where
  bit uint16 int16 uint32 int32 uint64 int64 uint32w int32w uint64w int64w : ModbusType
  real32 real64 real32b real64b : ModbusType

abbrev pub is_bit : ModbusType → Bool
is_bit bit = true
is_bit _ = false

unfoldable pub size : ModbusType → ℕ
size bit = 1
size uint16 = 1
size int16 = 1
size uint32 = 2
size int32 = 2
size uint32w = 2
size int32w = 2
size real32 = 2
size real32b = 2
size uint64 = 4
size int64 = 4
size uint64w = 4
size int64w = 4
size real64 = 4
size real64b = 4

unfoldable pub num_of : ModbusType → Num
num_of bit = u8
num_of uint16 = u16
num_of int16 = i16
num_of uint32 = u32
num_of uint32w = u32
num_of int32 = i32
num_of int32w = i32
num_of uint64 = u64
num_of uint64w = u64
num_of int64 = i64
num_of int64w = i64
num_of real32 = f32
num_of real32b = f32
num_of real64 = f64
num_of real64b = f64

module _ ⦃k : Sdk⦄ where
  open k use {Value, to_num, of_num}

  unfoldable pub normalize_value : ModbusType → Value → EResult Value
  unfolding num_of
  normalize_value tp value = to_num (num_of tp) value >>= λ n. ok (of_num (num_of tp) n)

pub data RegisterKind : Type 0 where
  coil discrete input holding : RegisterKind

unfoldable pub from_char : ℕ → EResult RegisterKind
from_char ch =
    if nat_eq ch b'c'
    then ok coil
    else if nat_eq ch b'd'
    then ok discrete
    else if nat_eq ch b'i'
    then ok input
    else if nat_eq ch b'h'
    then ok holding
    else err invalid_params

unfoldable pub as_char : RegisterKind → ℕ
as_char coil = b'c'
as_char discrete = b'd'
as_char holding = b'h'
as_char input = b'i'

abbrev pub is_bit_reg : RegisterKind → Bool
is_bit_reg coil = true
is_bit_reg discrete = true
is_bit_reg _ = false

pub record Register : Type 0 where
  pub kind : RegisterKind
  pub number : ℕ

-- `{}` of a `u16`, at most five digits before `rest`
unfoldable pub digits : ℕ → ℕ → List ℕ → List ℕ
digits zero n rest = rest
digits (suc more) n rest =
    if ltb n 10 then (b'0' + n) ∷ rest else digits more (n / 10) ((b'0' + n % 10) ∷ rest)

-- `Display for Register`
unfoldable pub to_text : Register → List ℕ
unfolding as_char digits
to_text r = as_char r.kind ∷ digits 5 r.number []

-- `str::parse` to an unsigned number below `bound`
unfoldable pub parse_digits : ℕ → ℕ → List ℕ → EResult ℕ
parse_digits bound acc [] = ok acc
parse_digits bound acc (c ∷ rest) =
    if leb b'0' c && leb c b'9' && ltb (acc * 10 + (c - b'0')) bound
    then parse_digits bound (acc * 10 + (c - b'0')) rest
    else err invalid_params

-- an empty text is refused, and so is a sign alone
unfoldable pub parse_unsigned : ℕ → List ℕ → EResult ℕ
unfolding parse_digits
parse_unsigned bound [] = err invalid_params
parse_unsigned bound (c ∷ []) =
    if nat_eq c b'+' then err invalid_params else parse_digits bound 0 (c ∷ [])
parse_unsigned bound (c ∷ d ∷ rest) =
    parse_digits bound 0 (if nat_eq c b'+' then d ∷ rest else c ∷ d ∷ rest)

-- `Deserialize for Register`, for a string
unfoldable pub parse_register : List ℕ → EResult Register
unfolding from_char parse_unsigned
parse_register [] = err invalid_params
parse_register (c ∷ rest) = from_char c >>= λ kind.
    parse_unsigned 65536 rest >>= λ n. ok (record { kind = kind; number = n })

pub record Offset : Type 0 where
  pub offset : ℕ
  pub bit : Option ℕ
  pub absolute : Bool

-- `str::split`, here at one character
unfoldable pub split_on : ℕ → List ℕ → List (List ℕ)
split_on sep [] = [] ∷ []
split_on sep (c ∷ rest) =
    let parts = split_on sep rest in
    if nat_eq c sep then [] ∷ parts else elim parts [ [] ↦ (c ∷ []) ∷ [] | p ∷ ps ↦ (c ∷ p) ∷ ps ]

-- the sum of the parts; `+=` on a `u16` wraps where the build does not check it
unfoldable pub sum_parts : ℕ → List (List ℕ) → EResult ℕ
unfolding parse_unsigned
sum_parts acc [] = ok acc
sum_parts acc (p ∷ ps) = parse_unsigned 65536 p >>= λ n. sum_parts ((acc + n) % 65536) ps

abbrev parse_bit : List (List ℕ) → EResult (Option ℕ)
parse_bit [] = ok none
parse_bit (b ∷ _) = parse_unsigned 256 b >>= λ n. ok (some n)

abbrev first_part : List (List ℕ) → List ℕ × List (List ℕ)
first_part [] = ([], [])
first_part (p ∷ ps) = (p, ps)

abbrev strip_absolute : List ℕ → List ℕ × Bool
strip_absolute [] = ([], false)
strip_absolute (c ∷ rest) = if nat_eq c b'=' then (rest, true) else (c ∷ rest, false)

-- `Deserialize for Offset`, for a string
unfoldable pub parse_offset : List ℕ → EResult Offset
unfolding split_on sum_parts parse_unsigned
parse_offset text =
    let (val, absolute) = strip_absolute text in
    let (s, bits) = first_part (split_on b'/' val) in
    parse_bit bits >>= λ bit. sum_parts 0 (split_on b'+' s) >>= λ offset.
    ok (record { offset = offset; bit = bit; absolute = absolute })
