-- ===== src/Logic.antt =====
-- svc/controller-lm: the rules of the logic manager (src/rule.rs), the handler of states that runs
-- them (src/main.rs) and the call of a macro (src/common.rs). An instant is a number, a macro that is
-- run or a timer that is started is an effect. The conditions and numbers of eva_common, and the
-- serialization, are parameters.
pub mod Edges
pub mod Chill
pub mod Ranked
pub mod Reached
pub mod Cycle
pub mod Opener
pub mod Parsers
use eva.Base.{
  ℕ, String, Option, none, some, Bool, true, false, not, ◌&&◌, ◌||◌, if◌then◌else◌, ltb, leb, ◌-◌,
  ◌+◌, is_some, EResult, ok, err, Error, ◌>>=◌, nat_eq, not_found, List, [], ◌∷◌, ◌++◌,
}
use eva.Base.Eq.{nat-Eq, string-Eq, option_eq}
use eva.Base.Int.{ℤ, int_eq}
use eva.Base.Dict.{Dict, get, insert}
use eva.Base.Lists.{retain}
use eva.Common.{Common, oid-Eq}

pub data InitialKind : Type 0 where
  process_initial skip_initial only_initial : InitialKind

-- eva_sdk::types::StatePropExt
pub data StateProp : Type 0 where
  status_prop value_prop act_prop : StateProp

module _ ⦃c : Common⦄ where
  open c use {F64, f64_of_nat, Value, value_eq, Range, range_matches, OID, OIDMask, mask_matches}

  pub record StateX : Type 0 where
    pub status : ℤ
    pub value : Value
    pub act : Option ℕ

  -- `Source` and `SourceOwned`
  pub record Source : Type 0 where
    pub oid : OID
    pub status : ℤ
    pub value : Value
    pub act : Option ℕ

  abbrev pub source_of : OID → StateX → Source
  source_of oid st = record { oid = oid; status = st.status; value = st.value; act = st.act }

  pub record ParamsRun : Type 0 where
    pub i : OID
    pub args : Option (List Value)
    pub kwargs : Option (Dict String Value)
    pub wait : ℕ

  pub record Chillout : Type 0 where
    pub active : Option ℕ
    pub event : Option Source

  abbrev pub idle : Chillout
  idle = record { active = none; event = none }

  pub record Rule : Type 0 where
    pub id : String
    pub oid : OIDMask
    pub prop : StateProp
    pub condition : Range
    pub initial : InitialKind
    pub block : Bool
    pub bit : Option ℕ
    pub brk : Bool
    pub chillout_time : Option ℕ
    pub run : OID
    pub args : Option (List Value)
    pub kwargs : Option (Dict String Value)
    pub priority : ℕ

  -- what the rules take from eva_common, eva_sdk and the serializer
  pub record Sdk : Type 1 where
    pub matches_any : Range → Bool
    pub matches_value : Range → Value → Bool
    pub to_u64 : Value → Option ℕ
    pub get_bit : ℕ → ℕ → Bool
    pub f64_of_int : ℤ → F64
    pub to_value : Source → EResult Value
    pub Payload : Type 0
    pub pack : ParamsRun → EResult Payload
    -- `TIMEOUT`
    pub timeout : ℕ

  abbrev pub or_no_kwargs : Option (Dict String Value) → Dict String Value
  or_no_kwargs none = []
  or_no_kwargs (some m) = m

  module _ (sdk : Sdk) where
    open sdk use {matches_any, matches_value, to_u64, get_bit, f64_of_int, to_value, Payload, pack}

    pub data Effect : Type 0 where
      -- a macro that is awaited, and one in a task of its own
      run_macro : Payload → Effect
      spawn_macro : Payload → Effect
      -- `process_chillout` in a task of its own, which sleeps for this long
      start_timer : ℕ → Effect

    abbrev bit_matches : Range → ℕ → Option ℕ → Bool
    bit_matches r n none = false
    bit_matches r n (some v) = range_matches r (f64_of_nat (if get_bit v n then 1 else 0))

    -- the match on the property in `matches`
    unfoldable pub prop_matches : Rule → StateProp → StateX → Bool
    prop_matches rule status_prop st = range_matches rule.condition (f64_of_int st.status)
    prop_matches rule value_prop st = elim rule.bit [
      | some n ↦ bit_matches rule.condition n (to_u64 st.value)
      | none ↦ matches_value rule.condition st.value
    ]
    prop_matches rule act_prop st = elim st.act [
      | some a ↦ range_matches rule.condition (f64_of_nat a)
      | none ↦ false
    ]

    unfoldable pub matches : Rule → StateX → Bool
    unfolding prop_matches
    matches rule st = matches_any rule.condition || prop_matches rule rule.prop st

    abbrev bit_left : Range → ℕ → Option ℕ → Bool
    bit_left r n none = true
    bit_left r n (some v) = not (range_matches r (f64_of_nat (if get_bit v n then 1 else 0)))

    -- the match on the property in `need_process`
    unfoldable pub prop_changed : Rule → StateProp → StateX → StateX → Bool
    prop_changed rule status_prop st prev =
        not (int_eq prev.status st.status)
        && not (range_matches rule.condition (f64_of_int prev.status))
    prop_changed rule value_prop st prev = not (value_eq prev.value st.value) && elim rule.bit [
      | some n ↦ bit_left rule.condition n (to_u64 prev.value)
      | none ↦ not (matches_value rule.condition prev.value)
    ]
    prop_changed rule act_prop st prev =
        not (option_eq ⦃e = nat-Eq⦄ prev.act st.act) && elim prev.act [
          | some a ↦ not (range_matches rule.condition (f64_of_nat a))
          | none ↦ true
        ]

    abbrev pub is_skip : InitialKind → Bool
    is_skip skip_initial = true
    is_skip _ = false

    abbrev pub is_only : InitialKind → Bool
    is_only only_initial = true
    is_only _ = false

    unfoldable pub need_process : Rule → StateX → Option StateX → Bool
    unfolding prop_changed
    need_process rule st none = not (is_skip rule.initial)
    need_process rule st (some prev) =
        if is_only rule.initial
        then false
        else matches_any rule.condition || prop_changed rule rule.prop st prev

    unfoldable pub params_for : Rule → Source → EResult Payload
    params_for rule source = to_value source >>= λ v. pack (record {
      i = rule.run;
      args = rule.args;
      kwargs = some (insert ⦃e = string-Eq⦄ "source" v (or_no_kwargs rule.kwargs));
      wait = sdk.timeout;
    })

    abbrev pub timer_of : Option ℕ → List Effect
    timer_of none = []
    timer_of (some t) = start_timer t ∷ []

    -- the macro, and the timer of the chill-out
    unfoldable pub launch : Rule → EResult Payload → List Effect × EResult Bool
    launch rule (err e) = ([], err e)
    launch rule (ok p) = (
      (if rule.block then run_macro p else spawn_macro p) ∷ timer_of rule.chillout_time,
      ok (not rule.brk),
    )

    abbrev pub chilled :
        Rule → Source → ℕ → Option ℕ → Chillout → Chillout × (List Effect × EResult Bool)
    chilled rule source now (some since) ch =
        (record ch { event = some source }, ([], ok (not rule.brk)))
    chilled rule source now none ch =
        (record ch { active = some now }, launch rule (params_for rule source))

    -- `Rule::process` at the instant `now`, on the chill-out of the rule
    unfoldable pub process :
        Rule → OID → StateX → Option StateX → ℕ → Chillout → Chillout × (List Effect × EResult Bool)
    unfolding matches need_process params_for launch
    process rule oid st prev now ch =
        if need_process rule st prev && matches rule st
        then (if is_some rule.chillout_time
            then chilled rule (source_of oid st) now ch.active ch
            else (ch, launch rule (params_for rule (source_of oid st))))
        else (ch, ([], ok true))

    abbrev pub resumed : EResult Payload → List Effect × EResult (Unit {0})
    resumed (ok p) = (run_macro p ∷ [], ok tt)
    resumed (err e) = ([], err e)

    abbrev pub resume : Rule → Option Source → List Effect × EResult (Unit {0})
    resume rule none = ([], ok tt)
    resume rule (some source) = resumed (params_for rule source)

    -- `process_chillout` after its sleep
    unfoldable pub process_chillout :
        Rule → Chillout → Chillout × (List Effect × EResult (Unit {0}))
    unfolding params_for
    process_chillout rule ch = (idle, resume rule ch.event)

    -- a stable sort by priority
    unfoldable pub place : Rule → List Rule → List Rule
    place r [] = r ∷ []
    place r (q ∷ qs) =
        let rest = place r qs in if leb r.priority q.priority then r ∷ q ∷ qs else q ∷ rest

    unfoldable pub sort : List Rule → List Rule
    unfolding place
    sort [] = []
    sort (r ∷ rs) = place r (sort rs)

    -- the chill-outs of the rules, which hold them behind an `Arc`: each rule has its priority
    abbrev pub Chillouts : Type 0
    Chillouts = ℕ → Chillout

    unfoldable pub put : ℕ → Chillout → Chillouts → Chillouts
    put n ch chs m = if nat_eq m n then ch else chs m

    -- what the rule with a priority has caused
    abbrev pub Entry : Type 0
    Entry = ℕ × List Effect

    abbrev pub continued :
        Entry → EResult Bool → Chillouts → Chillouts × List Entry → Chillouts × List Entry
    continued entry (ok false) chs more = (chs, entry ∷ [])
    continued entry (ok true) chs (chs', entries) = (chs', entry ∷ entries)
    continued entry (err e) chs (chs', entries) = (chs', entry ∷ entries)

    -- the loop over the rules; a rule with the priority n is processed at the instant `now n`
    unfoldable pub process_rules :
        OID → StateX → Option StateX → (ℕ → ℕ) → List Rule → Chillouts → Chillouts × List Entry
    unfolding process put
    process_rules oid st prev now [] chs = (chs, [])
    process_rules oid st prev now (r ∷ rest) chs =
        let n = r.priority in
        let (ch, (effects, answer)) = process r oid st prev (now n) (chs n) in
        let chs' = put n ch chs in
        continued (n, effects) answer chs' (process_rules oid st prev now rest chs')

    -- the chill-outs, `PREV_STATES`, and the parsers, which `on_state` tells of the state
    pub record Engine (P : Type 0) : Type 0 where
      pub chillouts : Chillouts
      pub prev_states : Dict OID StateX
      pub parsers : P

    -- `process_state` for a path and a payload that can be read, with the rules that subscribe to
    -- the path in the order of the hash set, and `on_state` where `RAW_PUB_TX` is set
    unfoldable pub process_state :
        {P : Type 0}
        → (OID → StateX → P → P)
        → Bool
        → List Rule
        → (ℕ → ℕ)
        → Option OID
        → Option StateX
        → Engine P
        → Engine P × List Entry
    unfolding process_rules sort
    process_state on_state publishing subscribers now none st en = (en, [])
    process_state on_state publishing subscribers now (some oid) none en = (en, [])
    process_state on_state publishing subscribers now (some oid) (some st) en =
        let (chs, entries) =
          process_rules oid st (get ⦃e = oid-Eq⦄ oid en.prev_states) now (sort subscribers)
            en.chillouts in
        (
          record {
            chillouts = chs;
            prev_states = insert ⦃e = oid-Eq⦄ oid st en.prev_states;
            parsers = if publishing then on_state oid st en.parsers else en.parsers;
          },
          entries,
        )

  -- `set_priority` in `main`: a rule has its place in the configuration
  unfoldable pub numbered : ℕ → List Rule → List Rule
  numbered i [] = []
  numbered i (r ∷ rest) = record r { priority = i } ∷ numbered (i + 1) rest
