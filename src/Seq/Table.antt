-- ===== src/Seq/Table.antt =====
-- `execute` of eva/src/seq.rs: its answer, and the table of running sequences.
use eva.Base.{
  ℕ, Option, none, some, false, if◌then◌else◌, ltb, nat_eq, ◌≡◌, ◌≢◌, refl, EResult, ok, err, Error,
  arith, aborted,
}
use eva.Base.Eq.{nat-Eq}
use eva.Base.Dict.{Dict, get, insert, get-insert, get-remove}
use eva.Actions.{Uuid}
use eva.Seq.Ran.{Ran, launch_action_sequence-Ran}
use eva.Seq.{
  ActionEntry, Sequence, Runtime, Outcome, ended, stopped, abort, abort_then, and_then, concluded,
  execute,
}

module _ {World Op A : Type 0} (rt : Runtime World Op A) where
  never_ok : (w : World) (b : Option (ActionEntry A)) (e : Error) → (abort_then rt w b e).1 ≢ ok tt
  never_ok w none e h = cc
  never_ok w (some b) e h = go (abort rt w b) h
    where
      go : (r : World × EResult (Unit {0})) → (and_then rt r (λ v. (v, err e))).1 ≡ ok tt → ⊥
      go (v, err f) k = cc
      go (v, ok _) k = cc

  concluded_ok :
      (s : Sequence A) (o : Outcome World) (r : World × EResult (Unit {0}))
      → (concluded rt s o r).1 ≡ ok tt
      → (o ≡ ended) × (r.1 ≡ ok tt) × ((concluded rt s o r).0 ≡ r.0)
  concluded_ok s (stopped w) r h = absurd (never_ok w s.on_abort aborted h)
  concluded_ok s ended (w, ok _) h = (refl, h, refl)
  concluded_ok s ended (w, err e) h = absurd (never_ok w s.on_abort e h)

  -- A sequence that may take no longer than it is allowed to is out of the table of running
  -- sequences when it concludes, with no other entry changed, and it answers success only if
  -- nothing stopped it and its entries succeeded one after another, each in the world that the one
  -- before it left: for a delay or a launch there was time, for a batch there was time for an
  -- action that no other outlasts, each launch was answered with an action that has succeeded, and
  -- the last world is that of the answer.
  pub execute_lem :
      (futs : Dict Uuid ℕ) (w : World) (s : Sequence A) (o : Outcome World)
      → ltb s.timeout (rt.max_expected s) ≡ false
      → ((j : Uuid) → get j (execute rt futs w s o).0 ≡ (if nat_eq s.u j then none else get j futs))
        × ((execute rt futs w s o).2 ≡ ok tt
            → (o ≡ ended) × Ran rt (rt.new_op w s.timeout) w s.seq (execute rt futs w s o).1)
  unfolding execute
  execute_lem futs w s o h = rw h (
    λ j. ground (
      arith,
      get-remove s.u j (insert s.u s.abort_timeout futs),
      get-insert s.u j s.abort_timeout futs,
    ),
    λ k.
        let (e, q, same) = concluded_ok s o _ k in
        (e, rw same (launch_action_sequence-Ran rt (rt.new_op w s.timeout) w s.seq q)),
  )
