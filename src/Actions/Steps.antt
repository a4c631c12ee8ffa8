-- ===== src/Actions/Steps.antt =====
-- eva/src/actmgr.rs: the manager over time, as steps in any order.
use eva.Base.{ℕ, Option, none, some, ◌≡◌, EResult, ok, Error, []}
use eva.Base.Dict.{get, insert, Distinct}
use eva.Base.Eq.{nat-Eq}
use eva.Common.{Common}
use eva.Actions.{
  StatusCodes, Uuid, Action, ActionArgs, ActionEvent, Manager, create, process_event, launch_begin,
  launch_end, launch_end_remote, mark_action_timed_out, cleanup_action_history,
}
use eva.Actions.Lifecycle.{FiresOnce}

module _ ⦃c : Common⦄ where
  -- the manager before any action
  abbrev pub idle : ℕ → Manager
  idle keep_for = record { actions = []; remote_actions = []; keep_for = keep_for }

module _ ⦃c : Common⦄ (codes : StatusCodes) (shown : Error → c.Value) where
  open c use {Value, F64}

  -- One step of the manager. An action that is launched has a UUID that is not in use; whatever
  -- another service does may come at any time.
  pub data Step : Manager → Manager → Type 0 where
    launch :
        (m : Manager) (args : ActionArgs) (fresh : Uuid) (at : ℕ) (now : F64) {m' : Manager}
        → ((u : Uuid) → (create codes args fresh at now).uuid ≡ some u → get u m.actions ≡ none)
        → launch_begin codes m (create codes args fresh at now) ≡ ok m'
        → Step m m'
    event : (m : Manager) (ev : ActionEvent) (now : F64) → Step m (process_event codes m ev now).0
    answer :
        (m : Manager) (u : Uuid) (reply : EResult (Unit {0})) (now : F64)
        → Step m (launch_end codes m u reply shown now).0
    answer_remote :
        (m : Manager) (a : Action) (reply : EResult Uuid) (at : ℕ)
        → Step m (launch_end_remote codes m a reply at).0
    time_out :
        (m : Manager) (u : Uuid) (e : Value) (now : F64)
        → Step m (mark_action_timed_out codes m u e now)
    clean : (m : Manager) (t : ℕ) → Step m (cleanup_action_history codes m t)

  pub data Reach (s : Manager) : Manager → Type 0 where
    start : Reach s s
    next : {m m' : Manager} → Reach s m → Step m m' → Reach s m'

  -- every stored action fires its triggers once, and no UUID stands twice
  pub record IsSound (m : Manager) : Type 0 where
    pub fires : (u : Uuid) (a : Action) → get u m.actions ≡ some a → FiresOnce codes a
    pub distinct : Distinct m.actions

  -- the table after an update of one entry, if it is there
  abbrev updated : Manager → Uuid → (Action → Action) → Option Action → Manager
  updated m u g none = m
  updated m u g (some a) = record m { actions = insert u (g a) m.actions }
