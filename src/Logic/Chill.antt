-- ===== src/Logic/Chill.antt =====
-- svc/controller-lm/src/rule.rs: the chill-out of a rule over a row of states, up to its timer.
use eva.Base.{
  ℕ, Option, none, some, Bool, true, ◌&&◌, if◌then◌else◌, ◌≡◌, refl, Bool-cases, inl, inr, ok, List,
  [], ◌∷◌, ◌++◌,
}
use eva.Common.{Common}
use eva.Logic.{
  StateX, Source, source_of, Chillout, idle, Rule, Sdk, Effect, run_macro, spawn_macro, start_timer,
  matches, need_process, params_for, launch, process, resume, process_chillout,
}

module _ ⦃c : Common⦄ where
  open c use {OID}

  -- a state that reaches a rule, with the one before it
  pub record Seen : Type 0 where
    pub oid : OID
    pub state : StateX
    pub prev : Option StateX
    pub at : ℕ

  module _ (sdk : Sdk) (rule : Rule) where
    abbrev pub fires : Seen → Bool
    fires e = need_process sdk rule e.state e.prev && matches sdk rule e.state

    -- the states one after another: the chill-out at the end, and the effects
    unfoldable pub observe : List Seen → Chillout → Chillout × List (Effect sdk)
    observe [] ch = (ch, [])
    observe (e ∷ rest) ch =
        let (ch', (effects, _)) = process sdk rule e.oid e.state e.prev e.at ch in
        let (end, more) = observe rest ch' in (end, effects ++ more)

    -- the last state that fires, or what was kept before
    unfoldable pub latest : Option Source → List Seen → Option Source
    latest kept [] = kept
    latest kept (e ∷ rest) = latest (if fires e then some (source_of e.oid e.state) else kept) rest

    process-chilled :
        (e : Seen) (since t : ℕ) (kept : Option Source)
        → rule.chillout_time ≡ some t
        → (process sdk rule e.oid e.state e.prev e.at
            (record { active = some since; event = kept })).0
          ≡ record {
            active = some since;
            event = if fires e then some (source_of e.oid e.state) else kept;
          }
    unfolding process
    process-chilled e since t kept h = elim (Bool-cases (fires e)) [
      | inl y ↦ rw (y, h) refl
      | inr n ↦ rw n refl
    ]

    process-quiet :
        (e : Seen) (since t : ℕ) (kept : Option Source)
        → rule.chillout_time ≡ some t
        → (process sdk rule e.oid e.state e.prev e.at
            (record { active = some since; event = kept })).1.0
          ≡ []
    unfolding process
    process-quiet e since t kept h = elim (Bool-cases (fires e)) [
      | inl y ↦ rw (y, h) refl
      | inr n ↦ rw n refl
    ]

    observe-chilled :
        (es : List Seen) (since t : ℕ) (kept : Option Source)
        → rule.chillout_time ≡ some t
        → observe es (record { active = some since; event = kept })
          ≡ (record { active = some since; event = latest kept es }, [])
    unfolding observe latest
    observe-chilled [] since t kept h = refl
    observe-chilled (e ∷ es) since t kept h =
        rw (process-chilled e since t kept h, process-quiet e since t kept h)
          (observe-chilled es since t (if fires e then some (source_of e.oid e.state) else kept) h)

    -- For a rule with a chill-out at rest and macro parameters that can be packed, the first of a
    -- row of states that fires runs the macro and starts the timer; the others cause nothing, and
    -- when the timer ends the rule is at rest again and the macro is run for the last of them that
    -- fired, if any, where its parameters can be packed.
    pub observe_lem :
        (e : Seen) (es : List Seen) (t : ℕ) {p : sdk.Payload}
        → rule.chillout_time ≡ some t
        → fires e ≡ true
        → params_for sdk rule (source_of e.oid e.state) ≡ ok p
        → ((observe (e ∷ es) idle).1
            ≡ (if rule.block then run_macro p else spawn_macro p) ∷ start_timer t ∷ [])
          × (process_chillout sdk rule (observe (e ∷ es) idle).0
              ≡ (idle, resume sdk rule (latest none es)))
    unfolding observe process launch process_chillout latest
    observe_lem e es t h y ok_p = rw (y, h, ok_p, observe-chilled es e.at t none h) (refl, refl)
