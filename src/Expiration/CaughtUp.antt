-- ===== src/Expiration/CaughtUp.antt =====
-- svc/svc-expiration/src/main.rs: the instant of the next check.
use eva.Base.{
  ℕ, zero, suc, ◌+◌, ◌-◌, ◌*◌, ◌≤◌, ◌<◌, Option, none, some, ltb, ◌≡◌, refl, ◌⊎◌, inl, inr, arith,
  Bool-cases,
}
use eva.Expiration.{catch_up, next_check}

-- the first instant of the schedule that is not in the past
pub record IsNext (sleep_step next_iter now : ℕ) (r : Option ℕ) : Type 0 where
  pub at : ℕ
  pub returns : r ≡ some at
  pub not_past : now ≤ at
  pub first : (at ≡ next_iter) ⊎ (at < now + sleep_step)
  pub rounds : ℕ
  pub on_schedule : at ≡ next_iter + rounds * sleep_step

catch_up-IsNext :
    (fuel sleep_step next_iter now : ℕ)
    → 0 < sleep_step
    → now - next_iter < fuel
    → IsNext sleep_step next_iter now (catch_up fuel sleep_step next_iter now)
unfolding catch_up
catch_up-IsNext zero sleep_step next_iter now h f = absurd (omega arith)
catch_up-IsNext (suc fuel) sleep_step next_iter now h f = elim (Bool-cases (ltb next_iter now)) [
  | inl late ↦
      let i = catch_up-IsNext fuel sleep_step (next_iter + sleep_step) now h (ground arith) in
      record {
        at = i.at;
        returns = rw late i.returns;
        not_past = i.not_past;
        first = ground (arith, i.first, late);
        rounds = suc i.rounds;
        on_schedule = ground (arith, i.on_schedule);
      }
  | inr due ↦ record {
    at = next_iter;
    returns = rw due refl;
    not_past = ground arith;
    first = inl refl;
    rounds = 0;
    on_schedule = ground arith;
  }
]

-- With a positive interval, the loop that catches up with the clock ends within as many rounds as
-- the clock is ahead of the last check, at an instant of the schedule that is not in the past and,
-- unless it is the very next one, less than an interval ahead.
pub next_check-IsNext :
    (fuel sleep_step next_iter now : ℕ)
    → 0 < sleep_step
    → now - next_iter < fuel
    → IsNext sleep_step (next_iter + sleep_step) now (next_check fuel sleep_step next_iter now)
unfolding next_check
next_check-IsNext fuel sleep_step next_iter now h f =
    elim (Bool-cases (ltb (next_iter + sleep_step) now)) [
      | inl late ↦
          rw late (catch_up-IsNext fuel sleep_step (next_iter + sleep_step) now h (omega arith))
      | inr due ↦ record {
        at = next_iter + sleep_step;
        returns = rw due refl;
        not_past = ground arith;
        first = inl refl;
        rounds = 0;
        on_schedule = ground arith;
      }
    ]

catch_up_stuck : (fuel next_iter now : ℕ) → next_iter < now → catch_up fuel 0 next_iter now ≡ none
unfolding catch_up
catch_up_stuck zero next_iter now h = refl
catch_up_stuck (suc fuel) next_iter now h =
    ground (arith, catch_up_stuck fuel (next_iter + 0) now, h)

-- With an interval of 0, the loop never ends once the clock has moved.
next_check_stuck :
    (fuel next_iter now : ℕ) → next_iter < now → next_check fuel 0 next_iter now ≡ none
unfolding next_check
next_check_stuck fuel next_iter now h = ground (arith, catch_up_stuck fuel (next_iter + 0) now, h)
