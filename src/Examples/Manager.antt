-- ===== src/Examples/Manager.antt =====
-- The action manager: one action that is launched, accepted and completed.
use eva.Base.{ltb, if◌then◌else◌, ◌⊎◌, ◌≤◌, none, some, true, leb, ◌≡◌, refl, [], ◌∷◌, arith}
use eva.Base.Dict.{get, values}
use eva.Base.Eq.{nat-Eq}
use eva.Base.Lists.{In, length, retain}
use eva.Common.{ItemKind}
use eva.Actions.{
  StatusCodes, Uuid, Action, ActionArgs, ActionEvent, Filter, Manager, Params, create, apply_event,
  matches, get_actions_filtered, process_event,
}
use eva.Actions.History.{IsOldestFirst, get_actions_filtered_sound}
use eva.Examples.Sample.{sample}

abbrev codes : StatusCodes
codes = record {
  is_valid = λ s. leb s 130;
  created = 0;
  accepted = 2;
  running = 8;
  completed = 15;
  failed = 128;
  created_lt_accepted = omega arith;
  accepted_lt_running = omega arith;
  running_lt_completed = omega arith;
  completed_lt_failed = omega arith;
}

abbrev args : ActionArgs
args = record {
  uuid = none;
  oid = (ItemKind.unit, "room/lamp");
  params = Params.unit_params (some 1);
  timeout = none;
  priority = 100;
  config = none;
  node = none;
  target = "eva.controller.lamp";
  wait = none;
}

abbrev lamp : Action
lamp = create codes args 77 5 5

abbrev done : ActionEvent
done = record { uuid = 77; status = 15; out = some (some 1); error_value = none; exitcode = some 0 }

abbrev launched : Manager
launched = record { actions = (77, lamp) ∷ []; remote_actions = []; keep_for = 60 }

abbrev finished : Manager
finished = (process_event codes launched done 6).0

abbrev over : Action
over = apply_event codes lamp done 6

abbrev everything : Filter
everything = record { i = none; sq = none; svc = none; time = none; limit = some 10 }

get_actions_filtered_sound_example :
    let result = get_actions_filtered codes launched everything 9 in
    let found = length (retain (λ a. matches codes everything a 9) (values launched.actions)) in
    (length result ≡ (if ltb 10 found then 10 else found))
    × IsOldestFirst result
    × ((a : Action)
        → In a result
        → ((u : Uuid) × (get u launched.actions ≡ some a)) × (matches codes everything a 9 ≡ true))
    × ((u : Uuid) (a : Action)
        → get u launched.actions ≡ some a
        → matches codes everything a 9 ≡ true
        → In a result ⊎ ((b : Action) → In b result → a.started ≤ b.started))
unfolding get
get_actions_filtered_sound_example =
    get_actions_filtered_sound codes launched everything 9 (refl, tt)
