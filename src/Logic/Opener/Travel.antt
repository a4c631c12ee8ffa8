-- ===== src/Logic/Opener/Travel.antt =====
-- svc/controller-lm/src/opener.rs: the time that a move takes, by the times at which positions lie.
use eva.Base.{
  ℕ, zero, suc, ◌+◌, ◌-◌, ◌≤◌, if◌then◌else◌, nat_eq, leb, Bool-cases, Bool, true, false, Option,
  or_else, List, [], ◌∷◌, ◌++◌, ◌≡◌, refl, ap, inl, inr, arith,
}
use eva.Base.Lists.{length, drop}
use eva.Logic.Opener.{
  PlanConfig, Command, port_on, port_off, dport_on, dport_off, wait, is_ac, take, rev, sum, tuned,
  go_up, go_down,
}

-- the time from the start to a position
unfoldable pub reach_time : PlanConfig → ℕ → ℕ
reach_time config n = sum (take n config.steps)

sum-append : (xs ys : List ℕ) → sum (xs ++ ys) ≡ sum xs + sum ys
unfolding sum
sum-append [] ys = omega arith
sum-append (x ∷ xs) ys = omega (arith, sum-append xs ys)

sum-rev : (xs : List ℕ) → sum (rev xs) ≡ sum xs
unfolding sum rev
sum-rev [] = refl
sum-rev (x ∷ xs) = omega (arith, sum-append (rev xs) (x ∷ []), sum-rev xs)

length-append : (xs ys : List ℕ) → length (xs ++ ys) ≡ length xs + length ys
length-append [] ys = omega arith
length-append (x ∷ xs) ys = omega (arith, length-append xs ys)

length-rev : (xs : List ℕ) → length (rev xs) ≡ length xs
unfolding rev
length-rev [] = refl
length-rev (x ∷ xs) = omega (arith, length-append (rev xs) (x ∷ []), length-rev xs)

sum-take_nil : (m : ℕ) → sum (take m []) ≡ 0
unfolding sum take
sum-take_nil zero = refl
sum-take_nil (suc m) = refl

-- A stretch in the middle.
sum-take-drop :
    (n k : ℕ) (xs : List ℕ) → sum (take k (drop n xs)) + sum (take n xs) ≡ sum (take (n + k) xs)
unfolding sum take
sum-take-drop zero k xs =
    let e : 0 + k ≡ k = omega arith in omega (arith, ap (λ m. sum (take m xs)) e)
sum-take-drop (suc n) k [] = omega (arith, sum-take_nil k, sum-take_nil (suc n + k))
sum-take-drop (suc n) k (x ∷ xs) =
    let e : suc n + k ≡ suc (n + k) = omega arith in
    omega (arith, ap (λ m. sum (take m (x ∷ xs))) e, sum-take-drop n k xs)

sum-take_all : (m : ℕ) (xs : List ℕ) → length xs ≤ m → sum (take m xs) ≡ sum xs
unfolding sum take
sum-take_all zero [] h = refl
sum-take_all zero (x ∷ xs) h = absurd (omega arith)
sum-take_all (suc m) [] h = refl
sum-take_all (suc m) (x ∷ xs) h = omega (arith, sum-take_all m xs (omega arith))

sum-take_append :
    (m : ℕ) (xs ys : List ℕ) → m ≤ length xs → sum (take m (xs ++ ys)) ≡ sum (take m xs)
unfolding sum take
sum-take_append zero xs ys h = refl
sum-take_append (suc m) [] ys h = absurd (omega arith)
sum-take_append (suc m) (x ∷ xs) ys h = omega (arith, sum-take_append m xs ys (omega arith))

-- The last steps in reverse, with the first ones, are all.
sum-take-rev :
    (m : ℕ) (xs : List ℕ)
    → m ≤ length xs
    → sum (take m (rev xs)) + sum (take (length xs - m) xs) ≡ sum xs
unfolding sum rev take
sum-take-rev m [] h = omega (arith, sum-take_nil m, sum-take_nil (0 - m))
sum-take-rev m (x ∷ xs) h = elim (Bool-cases (leb m (length xs))) [
  | inl y ↦
      let within : m ≤ length xs = ground (arith, y) in
      let e : suc (length xs) - m ≡ suc (length xs - m) = omega arith in
      omega (
        arith,
        sum-take_append m (rev xs) (x ∷ []) (omega (arith, length-rev xs)),
        ap (λ n. sum (take n (x ∷ xs))) e,
        sum-take-rev m xs within,
      )
  | inr n ↦
      let whole : suc (length xs) ≤ m = ground (arith, n) in
      let e : suc (length xs) - m ≡ 0 = omega arith in
      omega (
        arith,
        sum-take_all m (rev xs ++ x ∷ [])
            (omega (arith, length-append (rev xs) (x ∷ []), length-rev xs)),
        sum-append (rev xs) (x ∷ []),
        sum-rev xs,
        ap (λ n. sum (take n (x ∷ xs))) e,
      )
]

up-time :
    (config : PlanConfig) (c r : ℕ)
    → c ≤ r
    → sum (take (r - c) (drop c config.steps)) ≡ reach_time config r - reach_time config c
unfolding reach_time
up-time config c r h =
    let e : c + (r - c) ≡ r = omega arith in
    omega (arith, sum-take-drop c (r - c) config.steps, ap (λ m. sum (take m config.steps)) e)

down-time :
    (config : PlanConfig) (last c r : ℕ)
    → length config.steps ≡ last
    → r ≤ c
    → c ≤ last
    → sum (take (c - r) (drop (last - c) (rev config.steps)))
      ≡ reach_time config c - reach_time config r
unfolding reach_time
down-time config last c r len h l =
    let e : (last - c) + (c - r) ≡ last - r = omega arith in
    let at_c : length config.steps - (last - c) ≡ c = omega arith in
    let at_r : length config.steps - (last - r) ≡ r = omega arith in
    omega (
      arith,
      sum-take-drop (last - c) (c - r) (rev config.steps),
      ap (λ m. sum (take m (rev config.steps))) e,
      ap (λ m. sum (take m config.steps)) at_c,
      ap (λ m. sum (take m config.steps)) at_r,
      sum-take-rev (last - c) config.steps (omega arith),
      sum-take-rev (last - r) config.steps (omega arith),
    )

-- A later position lies at a later time.
reach_time-le : (config : PlanConfig) (a b : ℕ) → a ≤ b → reach_time config a ≤ reach_time config b
unfolding reach_time
reach_time-le config a b h =
    let e : a + (b - a) ≡ b = omega arith in
    omega (arith, sum-take-drop a (b - a) config.steps, ap (λ m. sum (take m config.steps)) e)

-- the move from one position to another one, by the time that lies between them
abbrev pub time_between : PlanConfig → ℕ → ℕ → ℕ
time_between config a b = reach_time config b - reach_time config a

unfoldable pub move_up : PlanConfig → ℕ → ℕ → ℕ → List Command
move_up config last c r =
    (if is_ac config.logic then dport_on else dport_off)
    ∷ port_on
    ∷ wait (
        or_else config.warmup_open 0
        + time_between config c r
        + (if nat_eq r last then or_else config.tuning 0 else 0))
    ∷ port_off
    ∷ []

unfoldable pub move_down : PlanConfig → ℕ → ℕ → List Command
move_down config c r =
    let d =
      or_else config.warmup_close 0
      + time_between config r c
      + (if nat_eq r 0 then or_else config.tuning 0 else 0) in
    if is_ac config.logic
    then dport_off ∷ port_on ∷ wait d ∷ port_off ∷ []
    else port_off ∷ dport_on ∷ wait d ∷ dport_off ∷ []

tuned-add : (b : Bool) (o : Option ℕ) (d : ℕ) → tuned b o d ≡ d + (if b then or_else o 0 else 0)
tuned-add true o d = refl
tuned-add false o d = omega arith

pub go_up-move_up :
    (config : PlanConfig) (last c r : ℕ) → c ≤ r → go_up config last c r ≡ move_up config last c r
unfolding go_up move_up
go_up-move_up config last c r h =
    let e =
      tuned-add (nat_eq r last) config.tuning
        (or_else config.warmup_open 0 + sum (take (r - c) (drop c config.steps))) in
    rw (e, up-time config c r h) refl

pub go_down-move_down :
    (config : PlanConfig) (last c r : ℕ)
    → length config.steps ≡ last
    → r ≤ c
    → c ≤ last
    → go_down config last c r ≡ move_down config c r
unfolding go_down move_down
go_down-move_down config last c r len h l =
    let e =
      tuned-add (nat_eq r 0) config.tuning
        (or_else config.warmup_close 0 + sum (take (c - r) (drop (last - c) (rev config.steps)))) in
    rw (e, down-time config last c r len h l) refl
