-- ===== src/Actions.antt =====
-- eva/src/actmgr.rs: the action manager. A status is its code; a time, a UUID and an instant are
-- numbers; a trigger is the number of times that it was fired. `now` is the time that the code reads
-- from the clock, `at` the instant. What another service answers is an argument.
pub mod Lifecycle
pub mod History
pub mod Retained
pub mod Steps
use eva.Base.{
  ℕ, zero, suc, ◌+◌, ◌-◌, ◌≤◌, ◌<◌, String, Option, none, some, Bool, true, false, not, ◌&&◌, ◌||◌,
  if◌then◌else◌, ltb, leb, nat_eq, EResult, ok, err, Error, not_found, failed, core_error,
  invalid_data, or_else, List, [], ◌∷◌, is_some, str_eq,
}
use eva.Base.Eq.{nat-Eq}
use eva.Base.Dict.{Dict, get, insert, remove, values}
use eva.Base.Lists.{length, drop, retain}
use eva.Common.{Common}

abbrev pub Uuid : Type 0
Uuid = ℕ

-- eva_common::actions::Status as its `u8` codes, ordered as the code relies on.
pub record StatusCodes : Type 0 where
  pub is_valid : ℕ → Bool
  pub created : ℕ
  pub accepted : ℕ
  pub running : ℕ
  pub completed : ℕ
  pub failed : ℕ
  pub created_lt_accepted : created < accepted
  pub accepted_lt_running : accepted < running
  pub running_lt_completed : running < completed
  pub completed_lt_failed : completed < failed

-- DEFAULT_FILTER_LIMIT
abbrev pub default_filter_limit : ℕ
default_filter_limit = 50

pub data StatusQuery : Type 0 where
  waiting running completed failed_query finished : StatusQuery

-- `HashMap::retain` by the values
unfoldable pub retain_values {ℓ} : {V : Type ℓ} → (V → Bool) → Dict Uuid V → Dict Uuid V
retain_values p m = retain (λ e. p e.1) m

module _ ⦃c : Common⦄ (codes : StatusCodes) where
  open c use {OID, Value, F64, OIDMask, mask_matches, f64_lt, f64_sub, f64_of_nat}

  unfoldable pub status_matches : StatusQuery → ℕ → Bool
  status_matches waiting s = ltb s codes.running
  status_matches running s = nat_eq s codes.running
  status_matches completed s = nat_eq s codes.completed
  status_matches failed_query s = leb codes.failed s
  status_matches finished s = leb codes.completed s

module _ ⦃c : Common⦄ where
  open c use {OID, Value, F64, OIDMask, mask_matches, f64_lt, f64_sub, f64_of_nat}

  -- eva_common::actions::Params
  pub data Params : Type 0 where
    unit_params : Value → Params
    lmacro_params : Value → Params

  pub record Action : Type 0 where
    pub uuid : Option Uuid
    pub i : OID
    pub status : ℕ
    pub started : ℕ
    pub time : Dict ℕ F64
    pub timeout : Option ℕ
    pub priority : ℕ
    pub params : Params
    pub config : Option Value
    pub node : Option String
    pub out : Option Value
    pub error_value : Option Value
    pub exitcode : Option ℕ
    pub completed : ℕ
    pub core_completed : ℕ
    pub target : String
    pub wait : Option ℕ

  pub record ActionArgs : Type 0 where
    pub uuid : Option Uuid
    pub oid : OID
    pub params : Params
    pub timeout : Option ℕ
    pub priority : ℕ
    pub config : Option Value
    pub node : Option String
    pub target : String
    pub wait : Option ℕ

  -- eva_common::actions::ActionEvent
  pub record ActionEvent : Type 0 where
    pub uuid : Uuid
    pub status : ℕ
    pub out : Option Value
    pub error_value : Option Value
    pub exitcode : Option ℕ

  pub record RemoteActionData : Type 0 where
    pub node : String
    pub svc : String
    pub oid : OID
    pub started : ℕ

  pub record Filter : Type 0 where
    pub i : Option OIDMask
    pub sq : Option StatusQuery
    pub svc : Option String
    pub time : Option ℕ
    pub limit : Option ℕ

  pub record Manager : Type 0 where
    pub actions : Dict Uuid Action
    pub remote_actions : Dict Uuid RemoteActionData
    pub keep_for : ℕ

  -- a stable sort by `started`, as that of `ActionInfo`
  unfoldable pub place : Action → List Action → List Action
  place a [] = a ∷ []
  place a (b ∷ bs) = if leb a.started b.started then a ∷ b ∷ bs else b ∷ place a bs

  unfoldable pub sort : List Action → List Action
  unfolding place
  sort [] = []
  sort (a ∷ rest) = place a (sort rest)

  unfoldable pub latest : ℕ → List Action → List Action
  latest limit result =
      if ltb limit (length result) then drop (length result - limit) result else result

module _ ⦃c : Common⦄ (codes : StatusCodes) where
  open c use {OID, Value, F64, OIDMask, mask_matches, f64_lt, f64_sub, f64_of_nat}

  abbrev uuid_for : Option Uuid → Option String → Uuid → Option Uuid
  uuid_for (some u) _ fresh = some u
  uuid_for none (some _) fresh = none
  uuid_for none none fresh = some fresh

  -- `fresh` is what `Uuid::new_v4` gives
  unfoldable pub create : ActionArgs → Uuid → ℕ → F64 → Action
  create args fresh at now = record {
    uuid = uuid_for args.uuid args.node fresh;
    i = args.oid;
    status = codes.created;
    started = at;
    time = insert codes.created now [];
    timeout = args.timeout;
    priority = args.priority;
    params = args.params;
    config = args.config;
    node = args.node;
    out = none;
    error_value = none;
    exitcode = none;
    completed = 0;
    core_completed = 0;
    target = args.target;
    wait = if is_some args.node then args.wait else none;
  }

  unfoldable pub mark_failed : Action → Value → F64 → Action
  mark_failed a e now =
      if ltb a.status codes.completed
      then record a {
        status = codes.failed;
        error_value = some e;
        time = insert codes.failed now a.time;
        completed = a.completed + 1;
        core_completed = a.core_completed + 1;
      }
      else a

  unfoldable pub mark_accepted : Action → F64 → Action
  mark_accepted a now = record a {
    status = if ltb a.status codes.accepted then codes.accepted else a.status;
    time = insert codes.accepted now a.time;
  }

  -- the body of `process_event` for an action that is found, with a status that is valid
  unfoldable pub raise : Action → ActionEvent → Action
  raise a event =
      if ltb a.status event.status
      then (let fired : ℕ =
            (if leb codes.completed event.status && ltb a.status codes.completed then 1 else 0) in
          record a {
            status = event.status;
            out = event.out;
            error_value = event.error_value;
            exitcode = event.exitcode;
            completed = a.completed + fired;
            core_completed = a.core_completed + fired;
          })
      else a

  unfoldable pub apply_event : Action → ActionEvent → F64 → Action
  apply_event a event now =
      let a' = raise a event in record a' { time = insert event.status now a'.time }

  unfoldable pub process_event : Manager → ActionEvent → F64 → Manager × EResult (Unit {0})
  process_event m event now = elim (get event.uuid m.actions) [
    | none ↦ (m, ok tt)
    | some a ↦
        if codes.is_valid event.status
        then (record m { actions = insert event.uuid (apply_event a event now) m.actions }, ok tt)
        else (m, err invalid_data)
  ]

  -- the service to ask for termination
  unfoldable pub termination_target : Manager → Uuid → EResult String
  termination_target m uuid = elim (get uuid m.actions) [
    | none ↦ err not_found
    | some a ↦ if leb codes.completed a.status then err failed else ok a.target
  ]

  -- `launch_action` up to the call of the service: a local action is stored
  unfoldable pub launch_begin : Manager → Action → EResult Manager
  launch_begin m a = elim a.node [
    | some _ ↦ ok m
    | none ↦ elim a.uuid [
      | none ↦ err core_error
      | some u ↦ ok (record m { actions = insert u a m.actions })
    ]
  ]

  abbrev launched : Action → EResult (Unit {0}) → (Error → Value) → F64 → Action
  launched a (ok _) shown now = mark_accepted a now
  launched a (err e) shown now = mark_failed a (shown e) now

  -- `launch_action` after the call, for a local action: `reply` is what the service answered, and
  -- `shown` is `Error::to_string`
  unfoldable pub launch_end :
      Manager → Uuid → EResult (Unit {0}) → (Error → Value) → F64 → Manager × EResult (Unit {0})
  launch_end m uuid reply shown now = elim (get uuid m.actions) [
    | none ↦ (m, err core_error)
    | some a ↦ (record m { actions = insert uuid (launched a reply shown now) m.actions }, ok tt)
  ]

  -- `launch_action` after the call, for a remote action: the replication service gave the UUID
  unfoldable pub launch_end_remote : Manager → Action → EResult Uuid → ℕ → Manager × EResult Uuid
  launch_end_remote m a reply at = elim reply [
    | err e ↦ (m, err e)
    | ok uuid ↦ elim a.node [
      | none ↦ (m, err core_error)
      | some n ↦ (
        record m {
          remote_actions =
              insert uuid (record { node = n; svc = a.target; oid = a.i; started = at })
                m.remote_actions;
        },
        ok uuid,
      )
    ]
  ]

  unfoldable pub mark_action_timed_out : Manager → Uuid → Value → F64 → Manager
  mark_action_timed_out m uuid timeout_error now = elim (get uuid m.actions) [
    | none ↦ m
    | some a ↦ record m { actions = insert uuid (mark_failed a timeout_error now) m.actions }
  ]

  -- `must_be_completed`: the answer, and whether termination is requested
  unfoldable pub must_be_completed : Manager → Uuid → Bool × Bool
  must_be_completed m uuid = elim (get uuid m.actions) [
    | none ↦ (false, false)
    | some a ↦
        if nat_eq a.status codes.completed
        then (true, false)
        else (false, ltb a.status codes.completed)
  ]

  abbrev test_field {ℓ} : {A : Type ℓ} → (A → Bool) → Option A → Bool
  test_field p none = true
  test_field p (some a) = p a

  abbrev recent_enough : F64 → Option F64 → ℕ → Bool
  recent_enough now none time = true
  recent_enough now (some created) time = not (f64_lt created (f64_sub now (f64_of_nat time)))

  -- `Filter::matches`
  unfoldable pub matches : Filter → Action → F64 → Bool
  matches f a now =
      if not (test_field (λ mask. mask_matches mask a.i) f.i)
      then false
      else if not (test_field (λ sq. status_matches codes sq a.status) f.sq)
      then false
      else if not (test_field (λ svc. str_eq svc a.target) f.svc)
      then false
      else test_field (recent_enough now (get codes.created a.time)) f.time

  -- `get_actions_filtered_serialized`, up to the serialization
  unfoldable pub get_actions_filtered : Manager → Filter → F64 → List Action
  get_actions_filtered m f now =
      latest (or_else f.limit default_filter_limit)
        (sort (retain (λ a. matches f a now) (values m.actions)))

  -- `cleanup_action_history` at the instant `t`
  unfoldable pub cleanup_action_history : Manager → ℕ → Manager
  unfolding retain_values
  cleanup_action_history m t = record m {
    actions =
        retain_values (λ a. ltb t (a.started + m.keep_for) || ltb a.status codes.completed)
          m.actions;
    remote_actions = retain_values (λ a. ltb t (a.started + m.keep_for)) m.remote_actions;
  }
