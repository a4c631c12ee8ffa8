-- ===== src/Seq.antt =====
-- eva/src/seq.rs: sequences of actions. What a launch, a batch of launches and a delay do to the
-- world, and what remains of the allowed time, are parameters.
pub mod Order
pub mod Ran
pub mod Table
use eva.Base.{
  ℕ, Option, none, some, Bool, true, false, ◌&&◌, if◌then◌else◌, ltb, EResult, ok, err, Error,
  failed, core_error, not_found, aborted, List, [], ◌∷◌,
}
use eva.Base.Eq.{nat-Eq}
use eva.Base.Dict.{Dict, get, insert, remove}
use eva.Actions.{Uuid}

-- core::ActionLaunchResult, without the contents
pub data ActionLaunchResult : Type 0 where
  state : Bool → ActionLaunchResult
  local_result remote_result : ActionLaunchResult

-- the answer of `launch_action_entry`
unfoldable pub entry_result : EResult ActionLaunchResult → EResult (Unit {0})
entry_result (err e) = err e
entry_result (ok (state true)) = ok tt
entry_result (ok (state false)) = err failed
entry_result (ok _) = err core_error

abbrev pub succeeded : EResult (Unit {0}) → Bool
succeeded (ok _) = true
succeeded (err _) = false

-- The loop over the tasks of `launch_action_sequence_batch`: the outer result is that of the task,
-- the inner one that of the launch.
unfoldable pub batch_result :
    Bool → List (EResult (EResult ActionLaunchResult)) → EResult (Unit {0})
batch_result so_far [] = if so_far then ok tt else err failed
batch_result so_far (err e ∷ rest) = err e
batch_result so_far (ok r ∷ rest) = batch_result (so_far && succeeded (entry_result r)) rest

-- eva_robots: the entries of a sequence, over the actions `A`
pub data ActionEntry (A : Type 0) : Type 0 where
  single : A → ActionEntry A
  multi : List A → ActionEntry A

pub data SequenceEntry (A : Type 0) : Type 0 where
  delay : ℕ → SequenceEntry A
  actions : ActionEntry A → SequenceEntry A

pub record Sequence (A : Type 0) : Type 0 where
  pub u : Uuid
  pub seq : List (SequenceEntry A)
  pub timeout : ℕ
  pub abort_timeout : ℕ
  pub on_abort : Option (ActionEntry A)

-- What the sequences take from the rest: `World` is the state of everything else, `Op` an operation
-- with its time limit, and `max_expected` that of eva_robots.
pub record Runtime (World Op A : Type 0) : Type 0 where
  pub launch : World → A → World × EResult ActionLaunchResult
  pub launch_all : World → List A → World × List (EResult (EResult ActionLaunchResult))
  pub sleep : World → ℕ → World
  pub new_op : World → ℕ → Op
  pub enough : Op → World → ℕ → EResult (Unit {0})
  pub wait_of : A → ℕ
  pub max_expected : Sequence A → ℕ

-- how the task of a sequence ended, for the one that waits: with its result, or stopped in a world
pub data Outcome (World : Type 0) : Type 0 where
  ended : Outcome World
  stopped : World → Outcome World

module _ {World Op A : Type 0} (rt : Runtime World Op A) where
  unfoldable pub launch_action_entry : World → A → World × EResult (Unit {0})
  launch_action_entry w a = let (w', r) = rt.launch w a in (w', entry_result r)

  unfoldable pub launch_action_sequence_batch : World → List A → World × EResult (Unit {0})
  launch_action_sequence_batch w batch =
      let (w', rs) = rt.launch_all w batch in (w', batch_result true rs)

  abbrev pub max_wait : List A → Option ℕ
  max_wait [] = none
  max_wait (a ∷ rest) = elim (max_wait rest) [
    | none ↦ some (rt.wait_of a)
    | some m ↦ some (if ltb (rt.wait_of a) m then m else rt.wait_of a)
  ]

  abbrev pub if_enough :
      EResult (Unit {0}) → World → (World → World × EResult (Unit {0})) → World × EResult (Unit {0})
  if_enough (err e) w go = (w, err e)
  if_enough (ok _) w go = go w

  abbrev pub within :
      Op → World → ℕ → (World → World × EResult (Unit {0})) → World × EResult (Unit {0})
  within op w d go = if_enough (rt.enough op w d) w go

  -- a batch that is not empty, within the time of its longest action
  abbrev pub launch_batch : Op → World → List A → Option ℕ → World × EResult (Unit {0})
  launch_batch op w batch none = (w, ok tt)
  launch_batch op w batch (some m) = within op w m (λ v. launch_action_sequence_batch v batch)

  -- one turn of the loop of `launch_action_sequence`
  unfoldable pub launch_entry : Op → World → SequenceEntry A → World × EResult (Unit {0})
  unfolding launch_action_entry launch_action_sequence_batch
  launch_entry op w (delay d) = within op w d (λ v. (rt.sleep v d, ok tt))
  launch_entry op w (actions (single a)) = within op w (rt.wait_of a) (λ v. launch_action_entry v a)
  launch_entry op w (actions (multi batch)) = launch_batch op w batch (max_wait batch)

  abbrev pub and_then :
      World × EResult (Unit {0}) → (World → World × EResult (Unit {0})) → World × EResult (Unit {0})
  and_then (w, err e) go = (w, err e)
  and_then (w, ok _) go = go w

  unfoldable pub launch_action_sequence :
      Op → World → List (SequenceEntry A) → World × EResult (Unit {0})
  unfolding launch_entry
  launch_action_sequence op w [] = (w, ok tt)
  launch_action_sequence op w (entry ∷ rest) =
      and_then (launch_entry op w entry) (λ v. launch_action_sequence op v rest)

  unfoldable pub abort : World → ActionEntry A → World × EResult (Unit {0})
  abort w (single a) = launch_action_entry w a
  abort w (multi batch) = launch_action_sequence_batch w batch

  abbrev pub abort_then : World → Option (ActionEntry A) → Error → World × EResult (Unit {0})
  abort_then w none e = (w, err e)
  abort_then w (some b) e = and_then (abort w b) (λ v. (v, err e))

  -- the match on the result in `execute`
  abbrev pub concluded :
      Sequence A → Outcome World → World × EResult (Unit {0}) → World × EResult (Unit {0})
  concluded s (stopped w) r = abort_then w s.on_abort aborted
  concluded s ended (w, ok _) = (w, ok tt)
  concluded s ended (w, err e) = abort_then w s.on_abort e

  -- `execute`, with the table of the sequences that run. A sequence that `terminate` stops is out of
  -- the table already when it concludes.
  unfoldable pub execute :
      Dict Uuid ℕ → World → Sequence A → Outcome World → Dict Uuid ℕ × World × EResult (Unit {0})
  unfolding launch_action_sequence abort
  execute futs w s outcome =
      if ltb s.timeout (rt.max_expected s)
      then (futs, w, err failed)
      else (let (w', r) =
            concluded s outcome (launch_action_sequence (rt.new_op w s.timeout) w s.seq) in
          (remove s.u (insert s.u s.abort_timeout futs), w', r))

-- `terminate`: the sequence leaves the table, and its task is stopped
unfoldable pub terminate : Dict Uuid ℕ → Uuid → Dict Uuid ℕ × EResult (Unit {0})
terminate futs u = elim (get u futs) [
  | none ↦ (futs, err not_found)
  | some _ ↦ (remove u futs, ok tt)
]

-- `shutdown`: the time to wait for the sequences that are stopped
unfoldable pub shutdown_wait : ℕ → Dict Uuid ℕ → ℕ
shutdown_wait longest [] = longest
shutdown_wait longest ((_, wait) ∷ rest) =
    shutdown_wait (if ltb longest wait then wait else longest) rest
