-- ===== src/Actions/Lifecycle.antt =====
-- eva/src/actmgr.rs: the life of one action, its status and its triggers.
use eva.Base.{ℕ, ◌≤◌, if◌then◌else◌, leb, ◌≡◌, arith}
use eva.Base.Eq.{nat-Eq}
use eva.Common.{Common}
use eva.Actions.{
  StatusCodes, Uuid, Action, ActionArgs, ActionEvent, create, mark_failed, mark_accepted, raise,
  apply_event,
}

module _ ⦃c : Common⦄ (codes : StatusCodes) where
  open c use {Value, F64}

  -- The triggers of an action have fired once if it has finished, and never before.
  pub record FiresOnce (a : Action) : Type 0 where
    pub waiter : a.completed ≡ (if leb codes.completed a.status then 1 else 0)
    pub core : a.core_completed ≡ (if leb codes.completed a.status then 1 else 0)

  pub create-FiresOnce :
      (args : ActionArgs) (fresh : Uuid) (at : ℕ) (now : F64)
      → FiresOnce (create codes args fresh at now)
  unfolding create
  create-FiresOnce args fresh at now = record {
    waiter =
        ground
          (arith, codes.created_lt_accepted, codes.accepted_lt_running, codes.running_lt_completed);
    core =
        ground
          (arith, codes.created_lt_accepted, codes.accepted_lt_running, codes.running_lt_completed);
  }

  module _ (a : Action) (v : FiresOnce a) where
    pub mark_failed-FiresOnce : (e : Value) (now : F64) → FiresOnce (mark_failed codes a e now)
    unfolding mark_failed
    mark_failed-FiresOnce e now = record {
      waiter = ground (arith, v.waiter, codes.completed_lt_failed);
      core = ground (arith, v.core, codes.completed_lt_failed);
    }

    pub mark_accepted-FiresOnce : (now : F64) → FiresOnce (mark_accepted codes a now)
    unfolding mark_accepted
    mark_accepted-FiresOnce now = record {
      waiter = ground (arith, v.waiter, codes.accepted_lt_running, codes.running_lt_completed);
      core = ground (arith, v.core, codes.accepted_lt_running, codes.running_lt_completed);
    }

    pub apply_event-FiresOnce :
        (event : ActionEvent) (now : F64) → FiresOnce (apply_event codes a event now)
    unfolding apply_event raise
    apply_event-FiresOnce event now = record {
      waiter = ground (arith, v.waiter);
      core = ground (arith, v.core);
    }

  -- An event never lowers the status of an action, and leaves it at the status of the event or
  -- above.
  status-apply_event :
      (a : Action) (event : ActionEvent) (now : F64)
      → (a.status ≤ (apply_event codes a event now).status)
        × (event.status ≤ (apply_event codes a event now).status)
  unfolding apply_event raise
  status-apply_event a event now = ground arith

  pub status-mark_failed :
      (a : Action) (e : Value) (now : F64) → a.status ≤ (mark_failed codes a e now).status
  unfolding mark_failed
  status-mark_failed a e now = ground (arith, codes.completed_lt_failed)

  pub status-mark_accepted :
      (a : Action) (now : F64) → a.status ≤ (mark_accepted codes a now).status
  unfolding mark_accepted
  status-mark_accepted a now = ground arith

  -- An event whose status is not above that of the action changes neither its status, its results
  -- nor the number of times that its trigger has fired.
  apply_event_late :
      (a : Action) (event : ActionEvent) (now : F64)
      → event.status ≤ a.status
      → let b = apply_event codes a event now in
        (b.status ≡ a.status)
        × (b.out ≡ a.out)
        × (b.error_value ≡ a.error_value)
        × (b.exitcode ≡ a.exitcode)
        × (b.completed ≡ a.completed)
  unfolding apply_event raise
  apply_event_late a event now h = ground arith

  -- After a time-out or a failed launch an action has finished; one that had finished before stays
  -- as it was.
  mark_failed_lem :
      (a : Action) (e : Value) (now : F64)
      → (codes.completed ≤ (mark_failed codes a e now).status)
        × (codes.completed ≤ a.status → mark_failed codes a e now ≡ a)
  unfolding mark_failed
  mark_failed_lem a e now = (ground (arith, codes.completed_lt_failed), λ h. ground arith)
