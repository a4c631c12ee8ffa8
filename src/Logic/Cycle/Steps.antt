-- ===== src/Logic/Cycle/Steps.antt =====
-- svc/controller-lm/src/cycle.rs: the tasks of a cycle, whatever the order of their steps and of
-- the accesses of calls.
use eva.Base.{
  ℕ, Option, none, some, Bool, true, false, not, if◌then◌else◌, List, [], ◌∷◌, ◌++◌, ◌≡◌, refl, sym,
  ap, ◌∙◌, subst, inl, inr, Bool-cases,
}
use eva.Common.{Common}
use eva.Logic.Cycle.{
  CycleStatus, stopped, starting, running, stopping, is_stopped, is_running, is_late, added,
  from_u8, code_of, Cycle, start, stop, reset, Phase, spawned, testing, ticking, calling, Answer,
  run_step,
}

pub from_u8-code_of : (s : CycleStatus) → from_u8 (code_of s) ≡ s
unfolding from_u8
from_u8-code_of stopped = refl
from_u8-code_of starting = refl
from_u8-code_of running = refl
from_u8-code_of stopping = refl

abbrev pub listed : Option (Phase) → List (Phase)
listed none = []
listed (some p) = p ∷ []

abbrev pub is_spawned : Phase → Bool
is_spawned spawned = true
is_spawned _ = false

module _ ⦃c : Common⦄ where
  -- A cycle and its tasks, with what the calls of `start` and of `stop` that are between their two
  -- accesses have seen. A call of `start` comes only when no other is under way.
  pub record System : Type 0 where
    pub cycle : Cycle
    pub tasks : List Phase
    pub start_seen : Option CycleStatus
    pub stops : List CycleStatus

  pub data Step : System → System → Type 0 where
    start_load :
        (s : System) → s.start_seen ≡ none → Step s (record s { start_seen = some s.cycle.status })
    start_store :
        (s : System) (seen : CycleStatus)
        → s.start_seen ≡ some seen
        → Step s (record s {
          cycle = (start seen s.cycle).0;
          tasks = if (start seen s.cycle).1 then spawned ∷ s.tasks else s.tasks;
          start_seen = none;
        })
    stop_load : (s : System) → Step s (record s { stops = s.cycle.status ∷ s.stops })
    stop_store :
        (s : System) (before after : List CycleStatus) (seen : CycleStatus)
        → s.stops ≡ before ++ seen ∷ after
        → Step s (record s { cycle = stop seen s.cycle; stops = before ++ after })
    reset_call : (s : System) → Step s (record s { cycle = reset s.cycle })
    task_step :
        (s : System) (before after : List Phase) (p : Phase) (a : Answer)
        → s.tasks ≡ before ++ p ∷ after
        → Step s (record s {
          cycle = (run_step s.cycle p a).0;
          tasks = before ++ listed (run_step s.cycle p a).1 ++ after;
        })

  pub data Reach (s : System) : System → Type 0 where
    here : Reach s s
    step : {t u : System} → Reach s t → Step t u → Reach s u

  -- a start under way that will spawn a task
  abbrev pub may_start : Option CycleStatus → Bool
  may_start none = false
  may_start (some seen) = is_stopped seen

  abbrev pub is_over : CycleStatus → Bool
  is_over stopped = true
  is_over stopping = true
  is_over _ = false

  -- No task, and the cycle stopped or stopping; or one, the cycle not stopped and no start under
  -- way that will spawn another.
  abbrev pub SingleTask : CycleStatus → Option CycleStatus → List Phase → Type 0
  SingleTask status seen [] = is_over status ≡ true
  SingleTask status seen (p ∷ []) = (is_stopped status ≡ false) × (may_start seen ≡ false)
  SingleTask status seen (p ∷ q ∷ rest) = ⊥

  abbrev pub IsSingle : System → Type 0
  IsSingle s = SingleTask s.cycle.status s.start_seen s.tasks

  start_load-SingleTask :
      (status : CycleStatus) (tasks : List Phase)
      → SingleTask status none tasks
      → SingleTask status (some status) tasks
  start_load-SingleTask status [] i = i
  start_load-SingleTask status (p ∷ []) i = (i.0, i.0)
  start_load-SingleTask status (p ∷ q ∷ rest) i = i

  start-SingleTask :
      (cy : Cycle) (seen : CycleStatus) (tasks : List Phase)
      → SingleTask cy.status (some seen) tasks
      → SingleTask
          (start seen cy).0.status
          none
          (if (start seen cy).1 then spawned ∷ tasks else tasks)
  unfolding start
  start-SingleTask cy stopped [] i = (refl, refl)
  start-SingleTask cy starting [] i = i
  start-SingleTask cy running [] i = i
  start-SingleTask cy stopping [] i = i
  start-SingleTask cy seen (p ∷ []) i = rw (i.1) (i.0, refl)
  start-SingleTask cy seen (p ∷ q ∷ rest) i = absurd i

  stop-SingleTask :
      (cy : Cycle) (seen : CycleStatus) (now : Option CycleStatus) (tasks : List Phase)
      → SingleTask cy.status now tasks
      → SingleTask (stop seen cy).status now tasks
  unfolding stop
  stop-SingleTask cy seen now tasks i = elim (Bool-cases (is_stopped seen)) [
    | inl y ↦ rw y i
    | inr n ↦ rw n (told tasks i)
  ]
    where
      told : (ts : List Phase) → SingleTask cy.status now ts → SingleTask stopping now ts
      told [] j = refl
      told (p ∷ []) j = (refl, j.1)
      told (p ∷ q ∷ rest) j = j

  run_step-SingleTask :
      (cy : Cycle) (seen : Option CycleStatus) (p : Phase) (a : Answer)
      → is_stopped cy.status ≡ false
      → may_start seen ≡ false
      → SingleTask (run_step cy p a).0.status seen (listed (run_step cy p a).1)
  unfolding run_step
  run_step-SingleTask cy seen spawned a h m = (refl, m)
  run_step-SingleTask cy seen (testing last) a h m = elim (Bool-cases (is_running cy.status)) [
    | inl y ↦ rw y (h, m)
    | inr n ↦ rw n refl
  ]
  run_step-SingleTask cy seen (ticking last) a h m =
      elim (Bool-cases (is_late cy.interval last a.tick)) [
        | inl y ↦ rw y (h, m)
        | inr n ↦ rw n (h, m)
      ]
  run_step-SingleTask cy seen (calling t) a h m = elim (Bool-cases a.success) [
    | inl y ↦ rw y (h, m)
    | inr n ↦ rw n (h, m)
  ]

  listed-append : (o : Option Phase) → listed o ++ [] ≡ listed o
  listed-append none = refl
  listed-append (some p) = refl

  task_step-SingleTask :
      (cy : Cycle) (seen : Option CycleStatus) (before after : List Phase) (p : Phase) (a : Answer)
      → SingleTask cy.status seen (before ++ p ∷ after)
      → SingleTask (run_step cy p a).0.status seen (before ++ listed (run_step cy p a).1 ++ after)
  task_step-SingleTask cy seen [] [] p a i =
      subst (λ (ts : List Phase). SingleTask (run_step cy p a).0.status seen ts)
        (sym (listed-append (run_step cy p a).1)) (run_step-SingleTask cy seen p a i.0 i.1)
  task_step-SingleTask cy seen [] (q ∷ after) p a i = absurd i
  task_step-SingleTask cy seen (q ∷ []) after p a i = absurd i
  task_step-SingleTask cy seen (q ∷ r ∷ before) after p a i = absurd i

  Step-IsSingle : {s t : System} → IsSingle s → Step s t → IsSingle t
  unfolding reset
  Step-IsSingle i (start_load s h) = start_load-SingleTask s.cycle.status s.tasks (rw h at i)
  Step-IsSingle i (start_store s seen h) = start-SingleTask s.cycle seen s.tasks (rw h at i)
  Step-IsSingle i (stop_load s) = i
  Step-IsSingle i (stop_store s before after seen h) =
      stop-SingleTask s.cycle seen s.start_seen s.tasks i
  Step-IsSingle i (reset_call s) = i
  Step-IsSingle i (task_step s before after p a h) =
      task_step-SingleTask s.cycle s.start_seen before after p a (rw h at i)

  -- As long as no start is called while another is between its two accesses to the status, every
  -- order of the steps of the task, of resets, and of the accesses of that start and of any number
  -- of stops keeps this: there is no task and the cycle is stopped or stopping, or there is one
  -- task, the cycle is not stopped, and no start that goes on will spawn another.
  pub Reach-IsSingle : {s t : System} → IsSingle s → Reach s t → IsSingle t
  Reach-IsSingle i here = i
  Reach-IsSingle i (step r m) = Step-IsSingle (Reach-IsSingle i r) m

  -- No task and no start under way that will spawn one, and the cycle stopping.
  abbrev pub IsStuck : System → Type 0
  IsStuck s = (s.tasks ≡ []) × (s.cycle.status ≡ stopping) × (may_start s.start_seen ≡ false)

  not-cons : {A : Type 0} (x : A) (before after : List A) → [] ≡ before ++ x ∷ after → ⊥
  not-cons x [] after h = cc
  not-cons x (y ∷ before) after h = cc

  stop-stopping :
      (seen : CycleStatus) (cy : Cycle) → cy.status ≡ stopping → (stop seen cy).status ≡ stopping
  unfolding stop
  stop-stopping seen cy h = elim (Bool-cases (is_stopped seen)) [
    | inl y ↦ rw y h
    | inr n ↦ rw n refl
  ]

  Step-IsStuck : {s t : System} → IsStuck s → Step s t → IsStuck t
  unfolding start reset
  Step-IsStuck i (start_load s h) = (i.0, i.1, ap is_stopped i.1)
  Step-IsStuck i (start_store s seen h) =
      let n : is_stopped seen ≡ false = rw h at i.2 in rw n (i.0, i.1, refl)
  Step-IsStuck i (stop_load s) = i
  Step-IsStuck i (stop_store s before after seen h) = (i.0, stop-stopping seen s.cycle i.1, i.2)
  Step-IsStuck i (reset_call s) = i
  Step-IsStuck i (task_step s before after p a h) = absurd (not-cons p before after (sym i.0 ∙ h))

  -- A cycle that is stopping with no task, where no start goes on that will spawn one, stays so
  -- whatever is called: it never runs again.
  pub Reach-IsStuck : {s t : System} → IsStuck s → Reach s t → IsStuck t
  Reach-IsStuck i here = i
  Reach-IsStuck i (step r m) = Step-IsStuck (Reach-IsStuck i r) m

  -- the state and the task after a step of the task, if there is one
  abbrev pub advance : Cycle × Option Phase → Answer → Cycle × Option Phase
  advance (cy, none) a = (cy, none)
  advance (cy, some p) a = ((run_step cy p a).0, (run_step cy p a).1)

  -- enough steps to leave the iteration under way, if any
  abbrev pub advance_all : List Answer → Cycle × Option Phase → Cycle × Option Phase
  advance_all [] s = s
  advance_all (a ∷ rest) s = advance_all rest (advance s a)

  stop-running :
      (seen : CycleStatus) (cy : Cycle)
      → is_stopped seen ≡ false
      → stop seen cy ≡ record cy { status = stopping }
  unfolding stop
  stop-running seen cy h = rw h refl

  told-calling :
      (cy : Cycle) (t : ℕ) (a b : Answer)
      → is_stopped
          (advance_all (a ∷ b ∷ []) (record cy { status = stopping }, some (calling t))).0.status
        ≡ true
  unfolding run_step
  told-calling cy t a b = elim (Bool-cases a.success) [ inl y ↦ rw y refl | inr n ↦ rw n refl ]

  told-ends :
      (cy : Cycle) (p : Phase) (a b e : Answer)
      → is_stopped (advance_all (a ∷ b ∷ e ∷ []) (record cy { status = stopping }, some p)).0.status
        ≡ not (is_spawned p)
  unfolding run_step
  told-ends cy spawned a b e = refl
  told-ends cy (testing last) a b e = refl
  told-ends cy (ticking last) a b e = elim (Bool-cases (is_late cy.interval last a.tick)) [
    | inl y ↦ rw y (told-calling (record cy { timed_out = added cy.timed_out }) a.tick b e)
    | inr n ↦ rw n (told-calling cy a.tick b e)
  ]
  told-ends cy (calling t) a b e = elim (Bool-cases a.success) [
    | inl y ↦ rw y refl
    | inr n ↦ rw n refl
  ]

  -- A cycle that is told to stop, by a stop that has seen it not stopped, is stopped after at most
  -- three more steps of its task, whatever they answer, unless the task had not begun: then it is
  -- not stopped by them.
  pub stop-ends :
      (seen : CycleStatus) (cy : Cycle) (p : Phase) (a b e : Answer)
      → is_stopped seen ≡ false
      → is_stopped (advance_all (a ∷ b ∷ e ∷ []) (stop seen cy, some p)).0.status
        ≡ not (is_spawned p)
  unfolding stop
  stop-ends seen cy p a b e h =
      subst
        (λ (cy' : Cycle).
          is_stopped (advance_all (a ∷ b ∷ e ∷ []) (cy', some p)).0.status ≡ not (is_spawned p))
        (sym (stop-running seen cy h)) (told-ends cy p a b e)
