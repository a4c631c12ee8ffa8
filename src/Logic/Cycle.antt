-- ===== src/Logic/Cycle.antt =====
-- svc/controller-lm/src/cycle.rs: a macro that is run at an interval, and the calls that start, stop
-- and reset it. The task of a cycle goes on in steps between which other calls may come.
pub mod Steps
use eva.Common.{Common}
use eva.Base.{
  ℕ, ◌+◌, ◌-◌, ◌%◌, ◌^◌, Option, none, some, Bool, true, false, if◌then◌else◌, ltb, nat_eq, EResult,
  ok, err, Error, List, [], ◌∷◌, ◌++◌,
}

pub data CycleStatus : Type 0 where
  stopped starting running stopping : CycleStatus

abbrev pub is_stopped : CycleStatus → Bool
is_stopped stopped = true
is_stopped _ = false

abbrev pub is_running : CycleStatus → Bool
is_running running = true
is_running _ = false

-- `CycleStatus::from_u8`, and the numbers of the states
abbrev pub code_of : CycleStatus → ℕ
code_of stopped = 0
code_of starting = 1
code_of running = 255
code_of stopping = 2

unfoldable pub from_u8 : ℕ → CycleStatus
from_u8 s =
    if nat_eq s 1
    then starting
    else if nat_eq s 255
    then running
    else if nat_eq s 2
    then stopping
    else stopped

-- `fetch_add(1)` on an `AtomicU64`
abbrev pub added : ℕ → ℕ
added n = (n + 1) % 2 ^ 64

-- where `run` stands: not begun, before the test of the loop, before the tick, and in the call of
-- the macro; with the instant of the last tick
pub data Phase : Type 0 where
  spawned : Phase
  testing : Option ℕ → Phase
  ticking : Option ℕ → Phase
  calling : ℕ → Phase

-- what the task waits for: the instant of the tick, and whether the macro succeeds
pub record Answer : Type 0 where
  pub tick : ℕ
  pub success : Bool

abbrev pub is_late : ℕ → Option ℕ → ℕ → Bool
is_late interval none t = false
is_late interval (some last) t = ltb interval (t - last)

module _ ⦃c : Common⦄ where
  open c use {OID}

  pub record Cycle : Type 0 where
    pub interval : ℕ
    pub macro_oid : OID
    pub on_error : Option OID
    pub iters_ok : ℕ
    pub timed_out : ℕ
    pub iters_err : ℕ
    pub status : CycleStatus

  -- `start`, between whose load and store of the state other calls and the task may come: `seen` is
  -- what the load gave, the cycle that at the store. The new state, and whether `run` is spawned.
  unfoldable pub start : CycleStatus → Cycle → Cycle × Bool × EResult (Unit {0})
  start seen cy =
      if is_stopped seen
      then (record cy { status = starting }, true, ok tt)
      else (cy, false, err Error.busy)

  -- `stop`, with what its load gave, on the cycle at its store
  unfoldable pub stop : CycleStatus → Cycle → Cycle
  stop seen cy = if is_stopped seen then cy else record cy { status = stopping }

  unfoldable pub reset : Cycle → Cycle
  reset cy = record cy { iters_ok = 0; timed_out = 0; iters_err = 0 }

  pub data Call : Type 0 where
    run_macro : OID → Call
    run_err_macro : OID → Call

  abbrev pub error_call : Option OID → List Call
  error_call none = []
  error_call (some oid) = run_err_macro oid ∷ []

  -- one step of `Cycle::run`: the state, where the task stands then, if it goes on, and the calls
  unfoldable pub run_step : Cycle → Phase → Answer → Cycle × Option Phase × List Call
  run_step cy spawned a = (record cy { status = running }, some (testing none), [])
  run_step cy (testing last) a =
      if is_running cy.status
      then (cy, some (ticking last), [])
      else (record cy { status = stopped }, none, [])
  run_step cy (ticking last) a =
      if is_late cy.interval last a.tick
      then (
        record cy { timed_out = added cy.timed_out },
        some (calling a.tick),
        error_call cy.on_error ++ run_macro cy.macro_oid ∷ [],
      )
      else (cy, some (calling a.tick), run_macro cy.macro_oid ∷ [])
  run_step cy (calling t) a =
      if a.success
      then (record cy { iters_ok = added cy.iters_ok }, some (testing (some t)), [])
      else (
        record cy { iters_err = added cy.iters_err },
        some (testing (some t)),
        error_call cy.on_error,
      )
