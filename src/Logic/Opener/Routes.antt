-- ===== src/Logic/Opener/Routes.antt =====
-- svc/controller-lm/src/opener.rs: by which way a plan leads, and when there is one.
use eva.Base.{
  ℕ, zero, suc, ◌≤◌, ◌<◌, none, some, Bool, true, false, not, ◌&&◌, is_some, if◌then◌else◌, ltb,
  nat_eq, ok, err, failed, List, [], ◌++◌, ◌≡◌, ◌≢◌, refl, ap, ◌∙◌, ◌⊎◌, inl, inr, arith,
  Bool-cases,
}
use eva.Base.Int.{ℤ, pos, negsuc}
use eva.Base.Lists.{length}
use eva.Logic.Opener.{PlanConfig, Command, via_end, via_start, Plan, joined, plan_between, generate}
use eva.Logic.Opener.Travel.{move_up, move_down, go_up-move_up, go_down-move_down}

module _ (config : PlanConfig) where
  -- the position at the end of all steps
  abbrev pub last : ℕ
  last = length config.steps

  -- The target is to be reached both by way of the end and by way of the start.
  abbrev pub is_conflict : ℕ → Bool
  is_conflict r = via_end config last r && via_start config r

  -- one move, or two by way of a limit
  abbrev pub route : ℕ → ℕ → List Command
  route c r =
      if nat_eq c r
      then []
      else if ltb c r
      then (if via_end config last r
          then move_up config last c last ++ move_down config last r
          else move_up config last c r)
      else if via_start config r
      then move_down config c 0 ++ move_up config last 0 r
      else move_down config c r

  module _ (brk : Bool) where
    abbrev pub plan : ℕ → ℕ → ℕ → Plan
    plan fuel c r = generate fuel config (pos c) (pos r) brk

    module _ (small : last < 128) where
      plan-suc :
          (fuel c r : ℕ)
          → c ≤ last
          → r ≤ last
          → plan (suc fuel) c r ≡ plan_between (λ a b. plan fuel a b) config last c r
      unfolding generate
      plan-suc fuel c r hc hr = ground (arith, small, hc, hr)

      plan_same : (fuel c r : ℕ) → c ≡ r → r ≤ last → plan (suc fuel) c r ≡ some (ok [])
      plan_same fuel c r e l = plan-suc fuel c r (omega arith) l ∙ ground (arith, e)

      plan_up :
          (fuel c r : ℕ)
          → c < r
          → r ≤ last
          → via_end config last r ≡ false
          → plan (suc fuel) c r ≡ some (ok (move_up config last c r))
      plan_up fuel c r h l v =
          plan-suc fuel c r (omega arith) l
          ∙ ground (arith, h, v)
          ∙ ap (λ (m : List Command). some (ok m)) (go_up-move_up config last c r (omega arith))

      plan_down :
          (fuel c r : ℕ)
          → r < c
          → c ≤ last
          → via_start config r ≡ false
          → plan (suc fuel) c r ≡ some (ok (move_down config c r))
      plan_down fuel c r h l v =
          plan-suc fuel c r l (omega arith)
          ∙ ground (arith, h, v)
          ∙ ap (λ (m : List Command). some (ok m))
              (go_down-move_down config last c r refl (omega arith) l)

      plan_end :
          (fuel c r : ℕ)
          → c < r
          → r ≤ last
          → via_end config last r ≡ true
          → plan (suc fuel) c r ≡ joined (plan fuel c last) (plan fuel last r)
      plan_end fuel c r h l v = plan-suc fuel c r (omega arith) l ∙ ground (arith, h, v)

      plan_start :
          (fuel c r : ℕ)
          → r < c
          → c ≤ last
          → via_start config r ≡ true
          → plan (suc fuel) c r ≡ joined (plan fuel c 0) (plan fuel 0 r)
      plan_start fuel c r h l v = plan-suc fuel c r l (omega arith) ∙ ground (arith, h, v)

      joined-eq :
          {first second : Plan} {a b : List Command}
          → first ≡ some (ok a)
          → second ≡ some (ok b)
          → joined first second ≡ some (ok (a ++ b))
      joined-eq h k = rw (h, k) refl

      pub generate-route :
          (fuel c r : ℕ)
          → c ≤ last
          → r ≤ last
          → is_conflict r ≡ false
          → plan (suc (suc fuel)) c r ≡ some (ok (route c r))
      generate-route fuel c r hc hr safe = elim (Bool-cases (nat_eq c r)) [
        | inl y ↦ rw y (plan_same (suc fuel) c r (ground (arith, y)) hr)
        | inr n ↦ elim (Bool-cases (ltb c r)) [
          | inl up ↦
              let h : c < r = ground (arith, up) in
              elim (Bool-cases (via_end config last r)) [
                | inl v ↦
                    rw (n, up, v)
                      (plan_end (suc fuel) c r h hr v
                        ∙ joined-eq (plan_up fuel c last (omega arith) (omega arith) (ground arith))
                            (plan_down fuel last r (ground (arith, v)) (omega arith)
                              (ground (arith, safe, v))))
                | inr v ↦ rw (n, up, v) (plan_up (suc fuel) c r h hr v)
              ]
          | inr not_up ↦
              let h : r < c = ground (arith, n, not_up) in
              elim (Bool-cases (via_start config r)) [
                | inl v ↦
                    rw (n, not_up, v)
                      (plan_start (suc fuel) c r h hc v
                        ∙ joined-eq (plan_down fuel c 0 (omega arith) hc (ground arith))
                            (plan_up fuel 0 r (ground (arith, v)) hr (ground (arith, safe, v))))
                | inr v ↦ rw (n, not_up, v) (plan_down (suc fuel) c r h hc v)
              ]
        ]
      ]

      joined-none :
          {first second : Plan} {a : List Command}
          → (first ≡ none) ⊎ (first ≡ some (ok a))
          → second ≡ none
          → joined first second ≡ none
      joined-none (inl h) k = rw h refl
      joined-none (inr h) k = rw (h, k) refl

      plan-zero : (c r : ℕ) → plan zero c r ≡ none
      unfolding generate
      plan-zero c r = refl

      first_up :
          (fuel c : ℕ)
          → c < last
          → (plan fuel c last ≡ none) ⊎ (plan fuel c last ≡ some (ok (move_up config last c last)))
      first_up zero c h = inl (plan-zero c last)
      first_up (suc fuel) c h = inr (plan_up fuel c last h (omega arith) (ground arith))

      first_down :
          (fuel c : ℕ)
          → 0 < c
          → c ≤ last
          → (plan fuel c 0 ≡ none) ⊎ (plan fuel c 0 ≡ some (ok (move_down config c 0)))
      first_down zero c h l = inl (plan-zero c 0)
      first_down (suc fuel) c h l = inr (plan_down fuel c 0 h l (ground arith))

      plan_stuck :
          (fuel c r : ℕ) → c ≤ last → r ≤ last → c ≢ r → is_conflict r ≡ true → plan fuel c r ≡ none
      plan_stuck zero c r hc hr n y = plan-zero c r
      plan_stuck (suc fuel) c r hc hr n y =
          let end : via_end config last r ≡ true = ground (arith, y) in
          let start : via_start config r ≡ true = ground (arith, y) in
          elim (Bool-cases (ltb c r)) [
            | inl up ↦
                plan_end fuel c r (ground (arith, up)) hr end
                ∙ joined-none (first_up fuel c (ground (arith, up, hr)))
                    (plan_stuck fuel last r (omega arith) hr (ground (arith, end)) y)
            | inr not_up ↦
                let h : r < c = ground (arith, n, not_up) in
                plan_start fuel c r h hc start
                ∙ joined-none (first_down fuel c (omega arith) hc)
                    (plan_stuck fuel 0 r (omega arith) hr (ground (arith, start)) y)
          ]

      -- For an opener with fewer than 128 steps and two different positions within them, the
      -- recursion of Plan::generate ends, and then within two calls, exactly if the target need
      -- not be reached by way of both the end and the start.
      pub generate-ends :
          (fuel c r : ℕ)
          → c ≤ last
          → r ≤ last
          → c ≢ r
          → is_some (plan (suc (suc fuel)) c r) ≡ not (is_conflict r)
      generate-ends fuel c r hc hr n = elim (Bool-cases (is_conflict r)) [
        | inl y ↦ rw (y, plan_stuck (suc (suc fuel)) c r hc hr n y) refl
        | inr safe ↦ rw (safe, generate-route fuel c r hc hr safe) refl
      ]

-- A position that is not known is refused, whatever the opener is to do about it.
generate_unknown :
    (config : PlanConfig) (brk : Bool) (fuel n : ℕ) (r : ℤ)
    → (generate (suc fuel) config (negsuc n) r brk ≡ some (err failed))
unfolding generate
generate_unknown config brk fuel n r = ground arith
