-- ===== src/Logic/Opener/Safe.antt =====
-- svc/controller-lm/src/opener.rs: the state of the ports while a plan is carried out.
use eva.Base.{
  ℕ, suc, ◌≤◌, ◌<◌, some, Bool, true, false, not, ◌&&◌, ◌||◌, if◌then◌else◌, ltb, nat_eq, ok, List,
  [], ◌∷◌, ◌++◌, ◌≡◌, refl, ap, ◌∙◌, arith, Bool-cases, inl, inr,
}
use eva.Logic.Opener.{
  Logic, ac, rdc, is_ac, Command, port_on, port_off, dport_on, dport_off, wait, PlanConfig, Plan,
  via_end, via_start,
}
use eva.Logic.Opener.Travel.{move_up, move_down}
use eva.Logic.Opener.Routes.{last, plan, is_conflict, route, generate-route}

pub record Ports : Type 0 where
  pub port : Bool
  pub dport : Bool

unfoldable pub apply : Command → Ports → Ports
apply port_on s = record s { port = true }
apply port_off s = record s { port = false }
apply dport_on s = record s { dport = true }
apply dport_off s = record s { dport = false }
apply (wait d) s = s

-- With AC the direction is not switched while the motor is on, with RDC it is never driven both ways.
unfoldable pub is_safe : Logic → Command → Ports → Bool
unfolding apply
is_safe ac dport_on s = not s.port
is_safe ac dport_off s = not s.port
is_safe ac _ s = true
is_safe rdc m s = let s' = apply m s in not (s'.port && s'.dport)

unfoldable pub is_safe_run : Logic → List Command → Ports → Bool
unfolding is_safe apply
is_safe_run l [] s = true
is_safe_run l (m ∷ rest) s = is_safe l m s && is_safe_run l rest (apply m s)

unfoldable pub finish : List Command → Ports → Ports
unfolding apply
finish [] s = s
finish (m ∷ rest) s = finish rest (apply m s)

-- The motor stands still.
abbrev pub is_rest : Logic → Ports → Bool
is_rest l s = not s.port && (is_ac l || not s.dport)

-- A row of commands that is safe at rest and ends at rest.
abbrev pub IsSafe : Logic → List Command → Type 0
IsSafe l ms =
    (s : Ports)
    → is_rest l s ≡ true
    → (is_safe_run l ms s ≡ true) × (is_rest l (finish ms s) ≡ true)

IsSafe-up :
    (l : Logic) (d : ℕ)
    → IsSafe l ((if is_ac l then dport_on else dport_off) ∷ port_on ∷ wait d ∷ port_off ∷ [])
unfolding is_safe_run finish
IsSafe-up ac d s h = ground (arith, h)
IsSafe-up rdc d s h = ground (arith, h)

IsSafe-down :
    (l : Logic) (d : ℕ)
    → IsSafe l (
        if is_ac l
        then dport_off ∷ port_on ∷ wait d ∷ port_off ∷ []
        else port_off ∷ dport_on ∷ wait d ∷ dport_off ∷ [])
unfolding is_safe_run finish
IsSafe-down ac d s h = ground (arith, h)
IsSafe-down rdc d s h = ground (arith, h)

IsSafe-nil : (l : Logic) → IsSafe l []
unfolding is_safe_run finish
IsSafe-nil l s h = (refl, h)

run-append :
    (l : Logic) (xs ys : List Command) (s : Ports)
    → (is_safe_run l (xs ++ ys) s ≡ (is_safe_run l xs s && is_safe_run l ys (finish xs s)))
      × (finish (xs ++ ys) s ≡ finish ys (finish xs s))
unfolding is_safe_run finish
run-append l [] ys s = (refl, refl)
run-append l (x ∷ xs) ys s =
    let (safe, end) = run-append l xs ys (apply x s) in (ground (arith, safe), end)

IsSafe-append : (l : Logic) (xs ys : List Command) → IsSafe l xs → IsSafe l ys → IsSafe l (xs ++ ys)
IsSafe-append l xs ys h k s rest =
    let (first, stands) = h s rest in
    let (second, end) = k (finish xs s) stands in
    let (both, last_state) = run-append l xs ys s in
    (both ∙ rw (first, second) refl, ap (λ (x : Ports). is_rest l x) last_state ∙ end)

move_up-IsSafe : (config : PlanConfig) (end c r : ℕ) → IsSafe config.logic (move_up config end c r)
unfolding move_up
move_up-IsSafe config end c r = IsSafe-up config.logic _

move_down-IsSafe : (config : PlanConfig) (c r : ℕ) → IsSafe config.logic (move_down config c r)
unfolding move_down
move_down-IsSafe config c r = IsSafe-down config.logic _

route-IsSafe : (config : PlanConfig) (c r : ℕ) → IsSafe config.logic (route config c r)
route-IsSafe config c r = elim (Bool-cases (nat_eq c r)) [
  | inl y ↦ rw y (IsSafe-nil config.logic)
  | inr n ↦ elim (Bool-cases (ltb c r)) [
    | inl up ↦ elim (Bool-cases (via_end config (last config) r)) [
      | inl v ↦
          rw (n, up, v)
            (IsSafe-append config.logic (move_up config (last config) c (last config))
              (move_down config (last config) r)
              (move_up-IsSafe config (last config) c (last config))
              (move_down-IsSafe config (last config) r))
      | inr v ↦ rw (n, up, v) (move_up-IsSafe config (last config) c r)
    ]
    | inr not_up ↦ elim (Bool-cases (via_start config r)) [
      | inl v ↦
          rw (n, not_up, v)
            (IsSafe-append config.logic (move_down config c 0) (move_up config (last config) 0 r)
              (move_down-IsSafe config c 0) (move_up-IsSafe config (last config) 0 r))
      | inr v ↦ rw (n, not_up, v) (move_down-IsSafe config c r)
    ]
  ]
]

-- what a plan to go from `c` to `r` is, and what the ports do while it is carried out from `s`
pub record IsCarriedOut (config : PlanConfig) (c r : ℕ) (s : Ports) (returned : Plan) : Type 0 where
  pub returns : returned ≡ some (ok (route config c r))
  pub safe : is_safe_run config.logic (route config c r) s ≡ true
  pub stands : is_rest config.logic (finish (route config c r) s) ≡ true

-- For an opener with fewer than 128 steps at rest, positions within its steps, and a target that
-- need not be reached by way of both limits, two calls within one another give a plan: one move,
-- or two by way of a limit, each for the time that lies between its positions with the warm-up
-- and, up to a limit, the tuning; while it is carried out, the direction is not switched as the
-- motor runs (AC), the motor is never driven both ways (RDC), and it stands still at the end.
pub generate-IsCarriedOut :
    (config : PlanConfig) (brk : Bool) (fuel c r : ℕ) (s : Ports)
    → last config < 128
    → c ≤ last config
    → r ≤ last config
    → is_conflict config r ≡ false
    → is_rest config.logic s ≡ true
    → IsCarriedOut config c r s (plan config brk (suc (suc fuel)) c r)
generate-IsCarriedOut config brk fuel c r s small hc hr apart rest =
    let (safe, stands) = route-IsSafe config c r s rest in
    record {
      returns = generate-route config brk small fuel c r hc hr apart;
      safe = safe;
      stands = stands;
    }
