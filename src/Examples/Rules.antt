-- ===== src/Examples/Rules.antt =====
-- A rule of the logic manager that runs a macro when a sensor is too warm, and a cycle.
use eva.Base.{
  ℕ, ◌/◌, ◌%◌, true, false, none, some, is_some, not, if◌then◌else◌, leb, nat_eq, ◌≡◌, refl, ok, [],
  ◌∷◌, arith, sym, ap, ◌∙◌, inl, inr, ◌&&◌,
}
use eva.Base.Eq.{nat-Eq, option_eq_iff}
use eva.Base.Int.{pos, negsuc}
use eva.Base.Dict.{get, insert}
use eva.Base.Lists.{here, In-cons_inv, not-In_nil}
use eva.Common.{ItemKind}
use eva.Examples.Sample.{Oid, sample}
use eva.Logic.{
  StateX, source_of, Rule, Sdk, ParamsRun, idle, run_macro, spawn_macro, start_timer, need_process,
  matches, process_chillout, resume, value_prop, process_initial, sort, params_for, prop_matches,
  prop_changed, Chillouts,
}
use eva.Logic.Edges.{RespectsEq, is_wanted, process-is_wanted}
use eva.Logic.Chill.{Seen, fires, observe, latest, observe_lem}
use eva.Logic.Reached.{is_reached, step, run_rules, process_rules_lem}
use eva.Logic.Ranked.{HasNoTies}
use eva.Logic.Opener.{
  PlanConfig, rdc, dport_on, dport_off, port_on, port_off, wait, generate, go_up, go_down, take,
  rev, sum,
}
use eva.Logic.Opener.Routes.{plan, is_conflict, generate-ends}
use eva.Logic.Opener.Safe.{IsCarriedOut, generate-IsCarriedOut}
use eva.Logic.Cycle.{Cycle, starting, start, stopped, stopping, is_stopped, stop, spawned, Answer}
use eva.Logic.Cycle.Steps.{
  System, Reach, here as no_step, step as more, start_load, start_store, stop_load, stop_store,
  IsSingle, IsStuck, Reach-IsSingle, Reach-IsStuck, advance_all, is_spawned, stop-ends,
}

abbrev sdk : Sdk
sdk = record {
  matches_any = λ r. false;
  matches_value = λ r v. elim v [ none ↦ false | some n ↦ leb n r ];
  to_u64 = λ v. v;
  get_bit = λ v n. nat_eq ((v / 2) % 2) 1;
  f64_of_int = λ n. elim n [ pos k ↦ k | negsuc k ↦ 0 ];
  to_value = λ s. ok s.value;
  Payload = ParamsRun;
  pack = λ p. ok p;
  timeout = 5;
}

sdk-RespectsEq : RespectsEq sdk
sdk-RespectsEq = record {
  conditions = λ r v w h. ap (sdk.matches_value r) ((option_eq_iff ⦃e = nat-Eq⦄ v w).0 h);
  numbers = λ v w h. (option_eq_iff ⦃e = nat-Eq⦄ v w).0 h;
}

abbrev cold : Rule
cold = record {
  id = "cold";
  oid = (some ItemKind.sensor, none);
  prop = value_prop;
  condition = 5;
  initial = process_initial;
  block = false;
  bit = none;
  brk = true;
  chillout_time = some 60;
  run = (ItemKind.lmacro, "heat");
  args = none;
  kwargs = none;
  priority = 1;
}

abbrev frost : Rule
frost = record cold { id = "frost"; condition = 0; brk = false; priority = 0 }

abbrev value_of : ℕ → StateX
value_of n = record { status = pos 1; value = some n; act = none }

abbrev probe : Oid
probe = (ItemKind.sensor, "hall/t1")

process-is_wanted_example :
    (need_process sdk cold (value_of 4) (some (value_of 9)) && matches sdk cold (value_of 4))
    ≡ is_wanted sdk cold (value_of 4) (some (value_of 9))
process-is_wanted_example =
    process-is_wanted sdk cold (value_of 4) (some (value_of 9)) sdk-RespectsEq

abbrev seen : ℕ → ℕ → ℕ → Seen
seen at before after = record {
  oid = probe;
  state = value_of after;
  prev = some (value_of before);
  at = at;
}

abbrev heat : ParamsRun
heat = record {
  i = (ItemKind.lmacro, "heat");
  args = none;
  kwargs = some (("source", some 4) ∷ []);
  wait = 5;
}

cold_fires : fires sdk cold (seen 100 9 4) ≡ true
unfolding need_process matches prop_matches prop_changed
cold_fires = refl

heat_params : params_for sdk cold (source_of probe (value_of 4)) ≡ ok heat
unfolding params_for insert
heat_params = refl

observe_lem_example :
    ((observe sdk cold (seen 100 9 4 ∷ seen 110 9 3 ∷ seen 120 3 8 ∷ []) idle).1
      ≡ (if cold.block then run_macro heat else spawn_macro heat) ∷ start_timer 60 ∷ [])
    × (process_chillout sdk cold
          (observe sdk cold (seen 100 9 4 ∷ seen 110 9 3 ∷ seen 120 3 8 ∷ []) idle).0
        ≡ (idle, resume sdk cold (latest sdk cold none (seen 110 9 3 ∷ seen 120 3 8 ∷ []))))
observe_lem_example =
    observe_lem sdk cold (seen 100 9 4) (seen 110 9 3 ∷ seen 120 3 8 ∷ []) 60 refl cold_fires
      heat_params

abbrev quiet : Chillouts sdk
quiet n = idle

apart : HasNoTies sdk (cold ∷ frost ∷ [])
apart = (
  λ q h e. elim (In-cons_inv h) [
    | inl f ↦ absurd (one-ne-zero (e ∙ sym (ap (λ (r : Rule). r.priority) f)))
    | inr m ↦ absurd (not-In_nil m)
  ],
  (λ q h. absurd (not-In_nil h), tt),
)
  where
    one-ne-zero : ◌≡◌ {A = ℕ} 1 0 → ⊥
    one-ne-zero h = omega arith

process_rules_lem_example :
    ((run_rules sdk probe
          (value_of 4)
          (some (value_of 9))
          (λ n. 100)
          (sort sdk (cold ∷ frost ∷ []))
          quiet).0
        1
      ≡ (if is_reached sdk probe
            (value_of 4)
            (some (value_of 9))
            (λ n. 100)
            cold
            (cold ∷ frost ∷ [])
            quiet
          then (step sdk probe (value_of 4) (some (value_of 9)) (λ n. 100) cold idle).0
          else idle))
    × (get 1
          (run_rules sdk probe
            (value_of 4)
            (some (value_of 9))
            (λ n. 100)
            (sort sdk (cold ∷ frost ∷ []))
            quiet).1
        ≡ (if is_reached sdk probe
              (value_of 4)
              (some (value_of 9))
              (λ n. 100)
              cold
              (cold ∷ frost ∷ [])
              quiet
            then some (step sdk probe (value_of 4) (some (value_of 9)) (λ n. 100) cold idle).1.0
            else none))
process_rules_lem_example =
    process_rules_lem sdk probe (value_of 4) (some (value_of 9)) (λ n. 100) (cold ∷ frost ∷ [])
      quiet cold apart (here refl)

abbrev cycle : Cycle
cycle = record {
  interval = 10;
  macro_oid = (ItemKind.lmacro, "poll");
  on_error = none;
  iters_ok = 0;
  timed_out = 0;
  iters_err = 0;
  status = stopped;
}

abbrev answer : Answer
answer = record { tick = 50; success = true }

abbrev at_rest : System
at_rest = record { cycle = cycle; tasks = []; start_seen = none; stops = [] }

-- A start in its two steps, and a stop that comes before the task has begun.
abbrev begun : System
begun = record {
  cycle = record cycle { status = starting };
  tasks = spawned ∷ [];
  start_seen = none;
  stops = [];
}

started : Reach at_rest begun
unfolding start
started = more (more no_step (start_load at_rest refl)) (start_store _ stopped refl)

was_told : Reach at_rest (record begun { cycle = record begun.cycle { status = stopping } })
unfolding stop
was_told = more (more started (stop_load begun)) (stop_store _ [] [] starting refl)

Reach-IsSingle_example :
    IsSingle (record begun { cycle = record begun.cycle { status = stopping } })
Reach-IsSingle_example = Reach-IsSingle {s = at_rest} refl was_told

abbrev dead : System
dead = record at_rest { cycle = record cycle { status = stopping } }

called : Reach dead dead
unfolding start
called = more (more no_step (start_load dead refl)) (start_store _ stopping refl)

Reach-IsStuck_example : IsStuck dead
Reach-IsStuck_example = Reach-IsStuck {s = dead} (refl, refl, refl) called

stop-ends_example :
    is_stopped
      (advance_all
        (answer ∷ answer ∷ answer ∷ [])
        (stop starting begun.cycle, some spawned)).0.status
    ≡ not (is_spawned spawned)
stop-ends_example = stop-ends starting begun.cycle spawned answer answer answer refl

-- a gate with three steps, whose middle positions are reached by way of the end from below
abbrev gate : PlanConfig
gate = record {
  logic = rdc;
  steps = 10 ∷ 20 ∷ 30 ∷ [];
  warmup_open = some 3;
  warmup_close = none;
  tuning = some 1;
  ts = none;
  te = some (pos 1);
}

gate-plan :
    plan gate true 2 0 1
    ≡ some (
        ok (
          dport_off
          ∷ port_on
          ∷ wait 64
          ∷ port_off
          ∷ port_off
          ∷ dport_on
          ∷ wait 50
          ∷ dport_off
          ∷ []))
unfolding generate go_up go_down take rev sum
gate-plan = refl

generate-IsCarriedOut_example :
    IsCarriedOut gate 0 1 (record { port = false; dport = false }) (plan gate true 2 0 1)
generate-IsCarriedOut_example =
    generate-IsCarriedOut gate true 0 0 1 (record { port = false; dport = false }) (omega arith)
      (omega arith) (omega arith) refl refl

-- one that is to be approached from both limits at once
abbrev stuck_gate : PlanConfig
stuck_gate = record gate { ts = some (pos 2) }

generate-ends_example : is_some (plan stuck_gate true 2 0 1) ≡ not (is_conflict stuck_gate 1)
generate-ends_example =
    generate-ends stuck_gate true (omega arith) 0 0 1 (omega arith) (omega arith) zero-ne-one
  where
    zero-ne-one : ◌≡◌ {A = ℕ} 0 1 → ⊥
    zero-ne-one h = omega arith
