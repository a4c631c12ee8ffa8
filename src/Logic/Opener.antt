-- ===== src/Logic/Opener.antt =====
-- svc/controller-lm/src/opener.rs: units that are moved step by step, by ports that drive them. A
-- duration is a number; the steps are durations, as Duration::from_secs_f64 makes them.
pub mod Travel
pub mod Routes
pub mod Safe
mod Acting
use Prim.Native.Nat.{compare, Ordering}
use eva.Base.{
  ℕ, zero, suc, ◌+◌, ◌-◌, Option, none, some, Bool, true, false, not, ◌&&◌, ◌||◌, if◌then◌else◌,
  ltb, leb, nat_eq, EResult, ok, err, Error, ◌>>=◌, or_else, failed, not_found, aborted, List, [],
  ◌∷◌, ◌++◌, map,
}
use eva.Base.Eq.{nat-Eq}
use eva.Base.Int.{ℤ, pos, negsuc}
use eva.Base.Dict.{Dict, get, insert, remove}
use eva.Base.Lists.{length, drop}
use eva.Common.{Common, oid-Eq}
use eva.Actions.{Uuid}
use eva.Seq.{ActionEntry, multi, SequenceEntry, delay, actions, Sequence}

pub data Logic : Type 0 where
  ac rdc : Logic

abbrev pub is_ac : Logic → Bool
is_ac ac = true
is_ac rdc = false

pub data Command : Type 0 where
  port_on port_off dport_on dport_off : Command
  wait : ℕ → Command

pub record PlanConfig : Type 0 where
  pub logic : Logic
  pub steps : List ℕ
  pub warmup_open : Option ℕ
  pub warmup_close : Option ℕ
  pub tuning : Option ℕ
  pub ts : Option ℤ
  pub te : Option ℤ

-- `take` and `rev` of an iterator, and the sum of durations
unfoldable pub take {ℓ} : {A : Type ℓ} → ℕ → List A → List A
take zero xs = []
take (suc n) [] = []
take (suc n) (x ∷ xs) = x ∷ take n xs

unfoldable pub rev {ℓ} : {A : Type ℓ} → List A → List A
rev [] = []
rev (x ∷ xs) = rev xs ++ x ∷ []

unfoldable pub sum : List ℕ → ℕ
sum [] = 0
sum (d ∷ ds) = d + sum ds

-- the number of steps as an i8
abbrev pub end_pos : PlanConfig → EResult ℕ
end_pos config = if ltb (length config.steps) 128 then ok (length config.steps) else err failed

-- comparisons of a position with an i8
abbrev pub at_least : Option ℤ → ℕ → Bool
at_least none r = false
at_least (some (pos te)) r = leb te r
at_least (some (negsuc _)) r = true

abbrev pub at_most : Option ℤ → ℕ → Bool
at_most none r = false
at_most (some (pos ts)) r = leb r ts
at_most (some (negsuc _)) r = false

-- the target is reached by way of the end, or of the start
abbrev pub via_end : PlanConfig → ℕ → ℕ → Bool
via_end config last r = at_least config.te r && not (nat_eq r last)

abbrev pub via_start : PlanConfig → ℕ → Bool
via_start config r = at_most config.ts r && not (nat_eq r 0)

abbrev pub tuned : Bool → Option ℕ → ℕ → ℕ
tuned at_limit tuning d = if at_limit then d + or_else tuning 0 else d

-- the commands that move up or down without a stop
unfoldable pub go_up : PlanConfig → ℕ → ℕ → ℕ → List Command
unfolding take sum
go_up config last c r =
    let d =
      tuned (nat_eq r last) config.tuning
        (or_else config.warmup_open 0 + sum (take (r - c) (drop c config.steps))) in
    (if is_ac config.logic then dport_on else dport_off) ∷ port_on ∷ wait d ∷ port_off ∷ []

unfoldable pub go_down : PlanConfig → ℕ → ℕ → ℕ → List Command
unfolding take rev sum
go_down config last c r =
    let d =
      tuned (nat_eq r 0) config.tuning
        (or_else config.warmup_close 0 + sum (take (c - r) (drop (last - c) (rev config.steps)))) in
    if is_ac config.logic
    then dport_off ∷ port_on ∷ wait d ∷ port_off ∷ []
    else port_off ∷ dport_on ∷ wait d ∷ dport_off ∷ []

-- What a recursion on fuel gives: none where the fuel has run out.
abbrev pub Plan : Type 0
Plan = Option (EResult (List Command))

abbrev pub joined : Plan → Plan → Plan
joined none second = none
joined (some (err e)) second = some (err e)
joined (some (ok a)) none = none
joined (some (ok a)) (some (err e)) = some (err e)
joined (some (ok a)) (some (ok b)) = some (ok (a ++ b))

-- the match on the positions, where `again` is the recursive call
abbrev pub plan_between : (ℕ → ℕ → Plan) → PlanConfig → ℕ → ℕ → ℕ → Plan
plan_between again config last c r = elim (compare c r) [
  | Ordering.eq ↦ some (ok [])
  | Ordering.lt ↦
      if via_end config last r
      then joined (again c last) (again last r)
      else some (ok (go_up config last c r))
  | Ordering.gt ↦
      if via_start config r
      then joined (again c 0) (again 0 r)
      else some (ok (go_down config last c r))
]

abbrev pub is_negative : ℤ → Bool
is_negative (pos _) = false
is_negative (negsuc _) = true

abbrev pub is_above : ℕ → ℤ → Bool
is_above last (pos n) = ltb last n
is_above last (negsuc _) = false

abbrev pub nat_of : ℤ → ℕ
nat_of (pos n) = n
nat_of (negsuc _) = 0

-- `Plan::generate`, with at most so many calls under one another
unfoldable pub generate : ℕ → PlanConfig → ℤ → ℤ → Bool → Plan
unfolding go_up go_down
generate zero config c r break_on_status_error = none
generate (suc fuel) config c r break_on_status_error = elim (end_pos config) [
  | err e ↦ some (err e)
  | ok last ↦
      if is_negative r || is_negative c || is_above last c || is_above last r
      then some (err failed)
      else if is_negative c && break_on_status_error
      then some (err failed)
      else plan_between (λ a b. generate fuel config (pos a) (pos b) break_on_status_error) config
          last (nat_of c) (nat_of r)
]
