-- ===== src/Modbus/Client.antt =====
-- svc/controller-modbus/src/modbus.rs: `set`, `get` and the requests of which they are made. The
-- device and everything between is a `Link`: what a request does to it, and what it answers.
use eva.Base.{
  ℕ, zero, suc, ◌+◌, ◌-◌, ◌*◌, ◌/◌, ◌%◌, Option, none, some, Bool, true, false, not, ◌||◌, ◌&&◌,
  if◌then◌else◌, ltb, EResult, ok, err, ◌>>=◌, ok_or, or_else, invalid_params, invalid_data, failed,
  access, List, [], ◌∷◌, is_some,
}
use eva.Modbus.Types.{
  Sdk, Num, ModbusType, RegisterKind, Register, is_bit, is_bit_reg, size, num_of, normalize_value,
}
use eva.Modbus.Block.{words_of, parse_block_value}

pub record Link (W : Type 0) : Type 0 where
  pub get_bool : ℕ → Register → ℕ → W → W × EResult (List Bool)
  pub set_bool : ℕ → Register → Bool → W → W × EResult (Unit {0})
  pub get_u16 : ℕ → Register → ℕ → W → W × EResult (List ℕ)
  pub set_u16_bulk : ℕ → Register → List ℕ → W → W × EResult (Unit {0})
  -- `op.timeout()?`, for the operation in course
  pub left : W → EResult (Unit {0})
  -- the pause before a verification, if one is configured
  pub pause : W → W

-- a step that may fail and leaves the link in some state
abbrev pub M : Type 0 → Type 0 → Type 0
M W A = W → W × EResult A

abbrev pub continue : {W A B : Type 0} → (A → M W B) → W × EResult A → W × EResult B
continue f (w, ok a) = f a w
continue f (w, err e) = (w, err e)

abbrev pub bind : {W A B : Type 0} → M W A → (A → M W B) → M W B
bind m f w = continue f (m w)

abbrev pub lift : {W A : Type 0} → EResult A → M W A
lift r w = (w, r)

module _ ⦃k : Sdk⦄ where
  open k use {Value, value_eq, as_bool, is_string, is_numeric, to_num, of_num, get_bit, with_bit}

  pub record RegisterValue : Type 0 where
    pub register : Register
    pub bit : Option ℕ
    pub value : Value

  abbrev default_type : Register → Option ModbusType → Option ℕ → ModbusType
  default_type reg (some tp) b = tp
  default_type reg none b =
      if is_some b || is_bit_reg reg.kind then ModbusType.bit else ModbusType.uint16

  -- the value of a bit: a Boolean, or a number that is not zero
  unfoldable pub bit_of : Value → EResult Bool
  bit_of value = elim (as_bool value) [
    | some v ↦ ok v
    | none ↦ to_num Num.u64 value >>= λ n. ok (ltb 0 n)
  ]

  -- the loop of `bus_get` over the answer of coils
  unfoldable pub coil_values : RegisterKind → ℕ → List Bool → List RegisterValue
  coil_values kind rn [] = []
  coil_values kind rn (v ∷ rest) =
      let more = coil_values kind (rn + 1) rest in
      if ltb 65535 rn
      then []
      else record {
        register = record { kind = kind; number = rn };
        bit = none;
        value = of_num Num.u8 (if v then 1 else 0);
      }
        ∷ more

  -- the loop over bits, with the bit and the register at which it stands
  unfoldable pub bit_values : RegisterKind → List ℕ → ℕ → ℕ → ℕ → ℕ → EResult (List RegisterValue)
  unfolding parse_block_value
  bit_values kind block reg_no zero bit_no rn = ok []
  bit_values kind block reg_no (suc count) bit_no rn =
      parse_block_value block ((rn + 65536 - reg_no) % 65536) ModbusType.bit (some bit_no)
      >>= λ val.
          bit_values kind block reg_no count (if ltb 15 bit_no then 0 else bit_no + 1)
            (if ltb 15 bit_no then (rn + 1) % 65536 else rn)
          >>= λ rest. ok (
              record {
                register = record { kind = kind; number = rn };
                bit = some bit_no;
                value = val;
              }
              ∷ rest)

  -- the loop over values of other types, from the `i`-th
  unfoldable pub word_values :
      RegisterKind → List ℕ → ℕ → ModbusType → ℕ → ℕ → EResult (List RegisterValue)
  unfolding parse_block_value
  word_values kind block reg_no tp zero i = ok []
  word_values kind block reg_no tp (suc count) i =
      parse_block_value block (i * size tp % 65536) tp none >>= λ val.
      word_values kind block reg_no tp count (i + 1) >>= λ rest. ok (
        record {
          register = record { kind = kind; number = (reg_no + i * size tp) % 65536 };
          bit = none;
          value = val;
        }
        ∷ rest)

  -- the count of registers that hold so many bits, or so many values: `(count / 8.0).ceil()`
  unfoldable pub get_count : ModbusType → ℕ → ℕ
  get_count tp count = if is_bit tp then (count + 7) / 8 else count

  unfoldable pub values_of_block :
      Register → ModbusType → Option ℕ → ℕ → List ℕ → EResult (List RegisterValue)
  unfolding bit_values word_values
  values_of_block reg tp b count block =
      if is_bit tp
      then (if ltb 15 (or_else b 0)
          then err invalid_params
          else bit_values reg.kind block reg.number count (or_else b 0) reg.number)
      else word_values reg.kind block reg.number tp count 0

  module _ {W : Type 0} (link : Link W) where
    get_coils : ℕ → Register → Option ℕ → ModbusType → M W (List RegisterValue)
    get_coils unit reg count tp =
        if is_bit tp
        then bind (link.get_bool unit reg (or_else count 1))
            (λ vals. lift (ok (coil_values reg.kind reg.number vals)))
        else lift (err invalid_params)

    get_block : ℕ → Register → ℕ → ModbusType → Option ℕ → M W (List RegisterValue)
    unfolding values_of_block get_count size
    get_block unit reg count tp b =
        if ltb 65535 (get_count tp count * size tp)
        then lift (err invalid_params)
        else bind (link.get_u16 unit reg (get_count tp count * size tp))
            (λ block. lift (values_of_block reg tp b count block))

    unfoldable pub bus_get :
        ℕ → Register → Option ℕ → ModbusType → Option ℕ → M W (List RegisterValue)
    unfolding get_coils get_block
    bus_get unit reg count tp b = elim (is_bit_reg reg.kind) [
      | true ↦ get_coils unit reg count tp
      | false ↦ get_block unit reg (or_else count 1) tp b
    ]

    abbrev pub first_value : List RegisterValue → EResult Value
    first_value [] = err invalid_data
    first_value (v ∷ _) = ok v.value

    -- the words that `set_reg` writes to a holding register
    unfoldable pub words_to_write : ℕ → Register → Value → ModbusType → Option ℕ → M W (List ℕ)
    unfolding bus_get bit_of words_of num_of
    words_to_write unit reg value ModbusType.bit b = bind (lift (ok_or b invalid_params)) (λ bit_no.
        bind (lift (bit_of value)) (λ val.
          bind (λ w. lift (link.left w) w)
            (λ _. bind (bus_get unit reg none ModbusType.bit none) (λ seen.
              bind (lift (first_value seen >>= to_num Num.u16))
                (λ n. lift (ok (with_bit n bit_no val ∷ [])))))))
    words_to_write unit reg value tp b = lift (to_num (num_of tp) value >>= λ n. ok (words_of tp n))

    abbrev timely : {A : Type 0} → M W A → M W A
    timely m = bind (λ w. lift (link.left w) w) (λ _. m)

    unfoldable pub set_reg : ℕ → RegisterKind → ℕ → Value → ModbusType → Option ℕ → M W (Unit {0})
    unfolding words_to_write bit_of
    set_reg unit RegisterKind.input number value tp b = lift (err access)
    set_reg unit RegisterKind.discrete number value tp b = lift (err access)
    set_reg unit RegisterKind.coil number value tp b =
        if is_bit tp
        then bind (lift (bit_of value)) (λ val.
          timely (link.set_bool unit (record { kind = RegisterKind.coil; number = number }) val))
        else lift (err invalid_params)
    set_reg unit RegisterKind.holding number value tp b =
        let reg : Register = record { kind = RegisterKind.holding; number = number } in
        bind (words_to_write unit reg value tp b) (λ vals. timely (link.set_u16_bulk unit reg vals))

    abbrev pub compared : Value → Value → M W (Unit {0})
    compared wanted val = lift (if value_eq val wanted then ok tt else err failed)

    -- the verification that follows a write
    unfoldable pub verified : ℕ → Register → ModbusType → Option ℕ → Value → M W (Unit {0})
    unfolding bus_get
    verified unit reg tp b wanted w =
        timely
          (bind (bus_get unit reg none tp b)
            (λ seen. bind (lift (first_value seen)) (compared wanted)))
          (link.pause w)

    unfoldable pub bus_set :
        ℕ → Register → Value → Option ModbusType → Option ℕ → Bool → M W (Unit {0})
    unfolding set_reg verified normalize_value
    bus_set unit reg value tp b false =
        set_reg unit reg.kind reg.number value (default_type reg tp b) b
    bus_set unit reg value tp b true =
        bind (lift (normalize_value (default_type reg tp b) value)) (λ wanted.
          bind (set_reg unit reg.kind reg.number value (default_type reg tp b) b)
            (λ _. verified unit reg (default_type reg tp b) b wanted))

    -- `for _ in 0..=retries`, until the first success
    abbrev pub or_again : {A : Type 0} → M W A → W × EResult A → W × EResult A
    or_again again (w, ok a) = (w, ok a)
    or_again again (w, err e) = again w

    unfoldable pub attempt : {A : Type 0} → ℕ → M W A → M W A
    attempt zero m w = m w
    attempt (suc more) m w = or_again (attempt more m) (m w)

    abbrev pub acceptable : Value → Bool
    acceptable value = is_some (as_bool value) || (not (is_string value) && is_numeric value)

    unfoldable pub set :
        ℕ → Register → Value → Option ModbusType → Option ℕ → Bool → ℕ → M W (Unit {0})
    unfolding bus_set attempt
    set unit reg value tp b verify retries =
        if acceptable value
        then attempt retries (bus_set unit reg value tp b verify)
        else lift (err invalid_params)

    -- `get`: here the end of the time is not retried
    get_attempt : {A : Type 0} → ℕ → M W A → M W A
    get_attempt zero m w = timely m w
    get_attempt (suc more) m w = elim (link.left w) [
      | err e ↦ (w, err e)
      | ok _ ↦ or_again (get_attempt more m) (m w)
    ]

    unfoldable pub get :
        ℕ → Register → Option ℕ → Option ModbusType → Option ℕ → ℕ → M W (List RegisterValue)
    unfolding bus_get get_attempt
    get unit reg count tp b retries =
        get_attempt retries (bus_get unit reg count (default_type reg tp b) b)
