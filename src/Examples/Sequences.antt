-- ===== src/Examples/Sequences.antt =====
-- Sequences over a runtime whose world is the time; an action is its duration, and succeeds if that
-- is short.
use eva.Base.{
  ℕ, ◌+◌, true, if◌then◌else◌, ltb, leb, nat_eq, none, some, ◌≡◌, refl, ok, err, timed_out, [], ◌∷◌,
}
use eva.Base.Dict.{get}
use eva.Base.Eq.{nat-Eq}
use eva.Actions.{Uuid}
use eva.Seq.{state, Sequence, Runtime, Outcome, ended, execute, delay, actions, single}
use eva.Seq.Ran.{Ran}
use eva.Seq.Table.{execute_lem}

abbrev clockwork : Runtime ℕ ℕ ℕ
clockwork = record {
  launch = λ w a. (w + a, ok (state (ltb a 50)));
  launch_all = λ w batch. (w + 1, ok (ok (state true)) ∷ []);
  sleep = λ w d. w + d;
  new_op = λ w t. w + t;
  enough = λ op w d. if leb (w + d) op then ok tt else err timed_out;
  wait_of = λ a. a;
  max_expected = λ s. 10;
}

abbrev blink : Sequence ℕ
blink = record {
  u = 5;
  seq = actions (single 3) ∷ delay 2 ∷ actions (single 3) ∷ [];
  timeout = 20;
  abort_timeout = 1;
  on_abort = some (single 1);
}

execute_lem_example :
    ((j : Uuid)
      → get j (execute clockwork [] 0 blink ended).0 ≡ (if nat_eq 5 j then none else get j []))
    × ((execute clockwork [] 0 blink ended).2 ≡ ok tt
        → (◌≡◌ {A = Outcome ℕ} ended ended)
          × Ran clockwork 20 0 blink.seq (execute clockwork [] 0 blink ended).1)
execute_lem_example = execute_lem clockwork [] 0 blink ended refl
