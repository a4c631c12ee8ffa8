-- ===== src/Modbus/Config.antt =====
-- svc/controller-modbus/src/common.rs: the checks of action maps and of the registers to pull.
use eva.Base.{
  ℕ, ◌-◌, Option, Bool, not, ◌||◌, if◌then◌else◌, ltb, nat_eq, EResult, ok, err, ◌>>=◌, ◌>>◌, ok_or,
  invalid_params, invalid_data, List, [], ◌∷◌, is_some,
}
use eva.Modbus.Types.{ModbusType, RegisterKind, Register, Offset, is_bit}

-- the transformation of a value, and its test for a delta, are left out
pub record ActionMap : Type 0 where
  pub reg : Register
  pub tp : ModbusType
  pub bit : Option ℕ
  pub unit : ℕ

-- A type and a bit fit the kind of the register: bits of coils, and bits of words with their number.
unfoldable pub check_action : RegisterKind → ModbusType → Option ℕ → EResult (Unit {0})
check_action RegisterKind.coil tp b = if is_bit tp then ok tt else err invalid_data
check_action RegisterKind.discrete tp b = if is_bit tp then ok tt else err invalid_data
check_action RegisterKind.holding tp b =
    if is_bit tp
    then (if is_some b then ok tt else err invalid_data)
    else if is_some b
    then err invalid_data
    else ok tt
check_action RegisterKind.input tp b =
    if is_bit tp
    then (if is_some b then ok tt else err invalid_data)
    else if is_some b
    then err invalid_data
    else ok tt

unfoldable pub init_unit : ℕ → Option ℕ → EResult ℕ
init_unit unit default_unit = if nat_eq unit 0 then ok_or default_unit invalid_params else ok unit

-- `ActionMap::init`
unfoldable pub init_action : ActionMap → Option ℕ → EResult ActionMap
unfolding init_unit check_action
init_action m default_unit = init_unit m.unit default_unit >>= λ unit.
    check_action m.reg.kind m.tp m.bit >> ok (record m { unit = unit })

pub record PullTask : Type 0 where
  pub offset : Offset
  pub has_value_delta : Bool
  pub tp : ModbusType
  pub block_offset : ℕ

pub record PullReg : Type 0 where
  pub reg : Register
  pub count : ℕ
  pub unit : ℕ
  pub map : List PullTask

unfoldable pub init_block_offset : ℕ → Offset → EResult ℕ
init_block_offset reg_no o =
    if o.absolute
    then (if ltb o.offset reg_no then err invalid_data else ok (o.offset - reg_no))
    else ok o.offset

unfoldable pub check_pull : RegisterKind → PullTask → EResult (Unit {0})
check_pull RegisterKind.coil task =
    if not (is_bit task.tp) || task.has_value_delta then err invalid_data else ok tt
check_pull RegisterKind.discrete task =
    if not (is_bit task.tp) || task.has_value_delta then err invalid_data else ok tt
check_pull RegisterKind.holding task =
    if is_bit task.tp
    then (if is_some task.offset.bit then ok tt else err invalid_data)
    else if is_some task.offset.bit
    then err invalid_data
    else ok tt
check_pull RegisterKind.input task =
    if is_bit task.tp
    then (if is_some task.offset.bit then ok tt else err invalid_data)
    else if is_some task.offset.bit
    then err invalid_data
    else ok tt

unfoldable pub init_task : Register → PullTask → EResult PullTask
unfolding init_block_offset check_pull
init_task reg task = init_block_offset reg.number task.offset >>= λ o.
    check_pull reg.kind task >> ok (record task { block_offset = o })

-- the loop over the tasks
unfoldable pub init_tasks : Register → List PullTask → EResult (List PullTask)
unfolding init_task
init_tasks reg [] = ok []
init_tasks reg (task ∷ rest) = init_task reg task >>= λ t. init_tasks reg rest >>= λ ts. ok (t ∷ ts)

-- `PullReg::init`
unfoldable pub init_pull : PullReg → Option ℕ → EResult PullReg
unfolding init_unit init_tasks
init_pull p default_unit = init_unit p.unit default_unit >>= λ unit.
    init_tasks p.reg p.map >>= λ map. ok (record p { unit = unit; map = map })
