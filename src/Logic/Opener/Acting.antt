-- ===== src/Logic/Opener/Acting.antt =====
-- svc/controller-lm/src/opener.rs: what is made of a plan: sequences of actions on ports, and the
-- actions on the unit that start them.
use eva.Base.{
  ℕ, Option, none, some, Bool, true, false, if◌then◌else◌, EResult, ok, err, or_else, not_found,
  aborted, List, [], ◌∷◌, ◌++◌, map,
}
use eva.Base.Eq.{nat-Eq}
use eva.Base.Int.{ℤ, pos, negsuc}
use eva.Base.Dict.{Dict, get, insert, remove}
use eva.Common.{Common, oid-Eq}
use eva.Actions.{Uuid}
use eva.Seq.{multi, SequenceEntry, delay, actions, Sequence}
use eva.Logic.Opener.{
  is_ac, Command, port_on, port_off, dport_on, dport_off, wait, PlanConfig, Plan, generate,
}

module _ ⦃c : Common⦄ where
  open c use {OID, Value}

  pub record Opener : Type 0 where
    pub oid : OID
    pub break_on_status_error : Bool
    pub port : List OID
    pub dport : List OID
    pub plan_config : PlanConfig
    pub set_state : Bool
    pub port_timeout : Option ℕ

  -- eva_robots::SequenceAction::new_unit, with a value of 1 or 0
  pub record UnitAction : Type 0 where
    pub i : OID
    pub value : ℕ
    pub wait_for : ℕ

  abbrev pub actions_of : List OID → ℕ → ℕ → List UnitAction
  actions_of [] v t = []
  actions_of (oid ∷ rest) v t = record { i = oid; value = v; wait_for = t } ∷ actions_of rest v t

  -- the loop of `execute` over the plan; `t` is the time of a port
  unfoldable pub entry_of : Opener → ℕ → Command → SequenceEntry UnitAction
  entry_of o t port_on = actions (multi (actions_of o.port 1 t))
  entry_of o t port_off = actions (multi (actions_of o.port 0 t))
  entry_of o t dport_on = actions (multi (actions_of o.dport 1 t))
  entry_of o t dport_off = actions (multi (actions_of o.dport 0 t))
  entry_of o t (wait d) = delay d

  unfoldable pub abort_actions : Opener → ℕ → List UnitAction
  abort_actions o t =
      actions_of o.port 0 t ++ (if is_ac o.plan_config.logic then [] else actions_of o.dport 0 t)

  -- the sequence that `execute` sends; the time to abort is that of eva_robots
  unfoldable pub sequence_of : Opener → ℕ → ℕ → Uuid → ℕ → List Command → Sequence UnitAction
  unfolding entry_of abort_actions
  sequence_of o timeout abort_timeout u default_timeout plan =
      let t = or_else o.port_timeout default_timeout in
      record {
        u = u;
        seq = map (entry_of o t) plan;
        timeout = timeout;
        abort_timeout = abort_timeout;
        on_abort = some (multi (abort_actions o t));
      }

  pub record ActiveOpeners : Type 0 where
    pub by_oid : Dict OID Uuid
    pub by_action_uuid : Dict Uuid Uuid

  unfoldable pub register : ActiveOpeners → OID → Uuid → Uuid → ActiveOpeners
  register a oid action_uuid seq_uuid = record {
    by_oid = insert ⦃e = oid-Eq⦄ oid seq_uuid a.by_oid;
    by_action_uuid = insert ⦃e = nat-Eq⦄ action_uuid seq_uuid a.by_action_uuid;
  }

  unfoldable pub unregister : ActiveOpeners → OID → Uuid → ActiveOpeners
  unregister a oid action_uuid = record {
    by_oid = remove ⦃e = oid-Eq⦄ oid a.by_oid;
    by_action_uuid = remove ⦃e = nat-Eq⦄ action_uuid a.by_action_uuid;
  }

  abbrev pub sent :
      (Sequence UnitAction → EResult (Unit {0}))
      → (List Command → Sequence UnitAction)
      → ActiveOpeners
      → ActiveOpeners
      → Plan
      → Option (ActiveOpeners × EResult (Unit {0}))
  sent call build active after none = none
  sent call build active after (some (err e)) = some (active, err e)
  sent call build active after (some (ok commands)) = some (after, call (build commands))

  -- `execute`: `call` is the answer of the core to the sequence, and the sequence is registered until
  -- then; `requested` is the position that is asked for
  unfoldable pub execute :
      ℕ
      → (Sequence UnitAction → EResult (Unit {0}))
      → (List Command → Sequence UnitAction)
      → ActiveOpeners
      → Opener
      → Uuid
      → Uuid
      → EResult ℤ
      → ℤ
      → Option (ActiveOpeners × EResult (Unit {0}))
  unfolding generate register unregister
  execute fuel call build active o action_uuid seq_uuid (err e) current = some (active, err e)
  execute fuel call build active o action_uuid seq_uuid (ok requested) current =
      sent call build active
        (unregister (register active o.oid action_uuid seq_uuid) o.oid action_uuid)
        (generate fuel o.plan_config current requested o.break_on_status_error)

  -- the sequence that `terminate` and `kill` ask the core to terminate
  abbrev pub active_or_not : Option Uuid → EResult Uuid
  active_or_not none = err not_found
  active_or_not (some u) = ok u

  unfoldable pub terminate : ActiveOpeners → Uuid → EResult Uuid
  terminate a u = active_or_not (get ⦃e = nat-Eq⦄ u a.by_action_uuid)

  unfoldable pub kill : ActiveOpeners → OID → EResult Uuid
  kill a oid = active_or_not (get ⦃e = oid-Eq⦄ oid a.by_oid)

  -- `run_action`: a position that is not known is -1
  unfoldable pub known_or_unknown : EResult ℤ → ℤ
  known_or_unknown (ok p) = p
  known_or_unknown (err e) = negsuc 0

  -- the messages of `handle_action`, on the topics of the action and of the state
  pub data Message : Type 0 where
    event_canceled event_running event_completed event_terminated : Message
    event_failed : ℤ → Message
    raw_state : Value → Message

  abbrev pub concluded : Bool → Value → EResult (Unit {0}) → List Message
  concluded set_state v (ok _) =
      if set_state then raw_state v ∷ event_completed ∷ [] else event_completed ∷ []
  concluded set_state v (err aborted) = event_terminated ∷ []
  concluded set_state v (err e) = event_failed (pos 1) ∷ []

  abbrev pub performed : Bool → Option Value → (Value → EResult (Unit {0})) → List Message
  performed set_state none run_action = event_failed (negsuc 0) ∷ []
  performed set_state (some v) run_action = concluded set_state v (run_action v)

  -- `handle_action`: whether the action is still wanted, the value of its parameters, and what
  -- `run_action` answers
  unfoldable pub handle_action :
      Opener → EResult Bool → Option Value → (Value → EResult (Unit {0})) → EResult (List Message)
  handle_action o (err e) params run_action = err e
  handle_action o (ok false) params run_action = ok (event_canceled ∷ [])
  handle_action o (ok true) params run_action =
      ok (event_running ∷ performed o.set_state params run_action)
