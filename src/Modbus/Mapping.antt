-- ===== src/Modbus/Mapping.antt =====
-- svc/controller-modbus/src/common.rs: the tasks of a block that passes its checks.
use eva.Base.{
  ℕ, ◌+◌, Option, true, false, if◌then◌else◌, ◌≡◌, refl, sym, subst, EResult, ok, err, ◌>>=◌, arith,
  List, [], ◌∷◌, is_some, ap, ◌∙◌,
}
use eva.Modbus.Types.{RegisterKind, Register, Offset, is_bit, is_bit_reg}
use eva.Modbus.Config.{
  PullTask, PullReg, init_unit, init_block_offset, check_pull, init_task, init_tasks, init_pull,
}

-- The offset in the block is that of the task, and its type and bit fit the register.
pub record IsMapped (reg : Register) (task : PullTask) : Type 0 where
  pub place :
      (if task.offset.absolute then task.block_offset + reg.number else task.block_offset)
      ≡ task.offset.offset
  pub bits : is_bit_reg reg.kind ≡ true → (is_bit task.tp ≡ true) × (task.has_value_delta ≡ false)
  pub words : is_bit_reg reg.kind ≡ false → is_bit task.tp ≡ is_some task.offset.bit

abbrev pub AllMapped : Register → List PullTask → Type 0
AllMapped reg [] = Unit
AllMapped reg (t ∷ ts) = IsMapped reg t × AllMapped reg ts

init_block_offset-place :
    (n : ℕ) (o : Offset) {b : ℕ}
    → init_block_offset n o ≡ ok b
    → (if o.absolute then b + n else b) ≡ o.offset
unfolding init_block_offset
init_block_offset-place n o h = ground arith

check_pull-bits :
    (kind : RegisterKind) (t : PullTask)
    → check_pull kind t ≡ ok tt
    → (is_bit_reg kind ≡ true → (is_bit t.tp ≡ true) × (t.has_value_delta ≡ false))
      × (is_bit_reg kind ≡ false → is_bit t.tp ≡ is_some t.offset.bit)
unfolding check_pull
check_pull-bits RegisterKind.coil t h = (λ e. ground arith, λ e. cc)
check_pull-bits RegisterKind.discrete t h = (λ e. ground arith, λ e. cc)
check_pull-bits RegisterKind.holding t h = (λ e. cc, λ e. ground arith)
check_pull-bits RegisterKind.input t h = (λ e. cc, λ e. ground arith)

>>=-eq-ok :
    {A B : Type 0} {y : B} (next : A → EResult B) (r : EResult A)
    → (r >>= next) ≡ ok y
    → (x : A) × (next x ≡ ok y) × (r ≡ ok x)
>>=-eq-ok next (ok x) p = (x, p, refl)
>>=-eq-ok next (err _) p = cc

init_task-IsMapped :
    (reg : Register) (t : PullTask) {t' : PullTask} → init_task reg t ≡ ok t' → IsMapped reg t'
unfolding init_task
init_task-IsMapped reg t {t'} h =
    let (b, rest, p) = >>=-eq-ok _ (init_block_offset reg.number t.offset) h in
    let (u, e, q) = >>=-eq-ok _ (check_pull reg.kind t) rest in
    let same : record t { block_offset = b } ≡ t' = ground arith in
    subst (IsMapped reg) same (record {
      place = init_block_offset-place reg.number t.offset p;
      bits = (check_pull-bits reg.kind t q).0;
      words = (check_pull-bits reg.kind t q).1;
    })

init_tasks-AllMapped :
    (reg : Register) (ts : List PullTask) {ts' : List PullTask}
    → init_tasks reg ts ≡ ok ts'
    → AllMapped reg ts'
unfolding init_tasks
init_tasks-AllMapped reg [] {ts'} h = let e : [] ≡ ts' = ground arith in subst (AllMapped reg) e tt
init_tasks-AllMapped reg (t ∷ ts) {ts'} h =
    let (t', rest, p) = >>=-eq-ok _ (init_task reg t) h in
    let (more, last, q) = >>=-eq-ok _ (init_tasks reg ts) rest in
    let e : t' ∷ more ≡ ts' = ground arith in
    subst (AllMapped reg) e (init_task-IsMapped reg t p, init_tasks-AllMapped reg ts q)

-- After the set-up of a register to pull succeeds, each task reads at its offset, which a task
-- that is absolute counts from the number of the register; tasks of coils and discrete inputs are
-- bits without a delta, and those of words name a bit exactly if they are of type bit; the
-- register is the given one, and the unit its own or the default.
pub init_pull-AllMapped :
    (p : PullReg) (default_unit : Option ℕ) (p' : PullReg)
    → init_pull p default_unit ≡ ok p'
    → AllMapped p.reg p'.map × (p'.reg ≡ p.reg) × (ok p'.unit ≡ init_unit p.unit default_unit)
unfolding init_pull
init_pull-AllMapped p default_unit p' h =
    let (u, rest, q) = >>=-eq-ok _ (init_unit p.unit default_unit) h in
    let (ts, last, r) = >>=-eq-ok _ (init_tasks p.reg p.map) rest in
    let e : record p { unit = u; map = ts } ≡ p' = ground arith in
    (
      subst (λ (x : PullReg). AllMapped p.reg x.map) e (init_tasks-AllMapped p.reg p.map r),
      sym (ap (λ (x : PullReg). x.reg) e),
      sym (q ∙ ap (λ (x : PullReg). ok x.unit) e),
    )
