-- ===== src/Logic/Edges.antt =====
-- svc/controller-lm/src/rule.rs: for which changes of a state a rule runs its macro.
use eva.Base.{
  ℕ, Option, none, some, Bool, true, false, not, ◌&&◌, ◌||◌, ◌≡◌, refl, arith, ap, nat_eq→≡,
}
use eva.Base.Eq.{option_eq, nat-Eq}
use eva.Base.Int.{int_eq_iff}
use eva.Common.{Common}
use eva.Logic.{
  StateProp, status_prop, value_prop, act_prop, StateX, Rule, Sdk, prop_matches, prop_changed,
  matches, need_process, is_only, is_skip, bit_matches, bit_left,
}

module _ ⦃c : Common⦄ (sdk : Sdk) where
  open c use {Value, value_eq, Range, range_matches, f64_of_nat}
  open sdk use {matches_any, matches_value, to_u64, f64_of_int}

  -- Values that the code takes for equal are alike for conditions and as numbers.
  pub record RespectsEq : Type 0 where
    pub conditions :
        (r : Range) (v w : Value) → value_eq v w ≡ true → matches_value r v ≡ matches_value r w
    pub numbers : (v w : Value) → value_eq v w ≡ true → to_u64 v ≡ to_u64 w

  -- The condition was not met by the last state and is met by the new one.
  abbrev pub is_edge : Rule → StateX → StateX → Bool
  is_edge rule st prev =
      matches_any rule.condition
      || not (prop_matches sdk rule rule.prop prev) && prop_matches sdk rule rule.prop st

  -- The first state of an item, or a later one.
  abbrev pub is_wanted : Rule → StateX → Option StateX → Bool
  is_wanted rule st none =
      not (is_skip sdk rule.initial)
      && (matches_any rule.condition || prop_matches sdk rule rule.prop st)
  is_wanted rule st (some prev) = not (is_only sdk rule.initial) && is_edge rule st prev

  bit_left-not :
      (r : Range) (n : ℕ) (o : Option ℕ) → bit_left sdk r n o ≡ not (bit_matches sdk r n o)
  bit_left-not r n none = refl
  bit_left-not r n (some v) = refl

  -- A condition tells two states apart only if the property differs.
  changed-and :
      (rule : Rule) (prop : StateProp) (st prev : StateX)
      → RespectsEq
      → (prop_changed sdk rule prop st prev && prop_matches sdk rule prop st)
        ≡ (not (prop_matches sdk rule prop prev) && prop_matches sdk rule prop st)
  unfolding prop_changed prop_matches
  changed-and rule status_prop st prev law = ground (
    arith,
    int_eq_iff prev.status st.status,
    λ (e : prev.status ≡ st.status). ap (λ n. range_matches rule.condition (f64_of_int n)) e,
  )
  changed-and rule value_prop st prev law = go rule.bit
    where
      go :
          (b : Option ℕ)
          → ((not (value_eq prev.value st.value) && elim b [
            | some n ↦ bit_left sdk rule.condition n (to_u64 prev.value)
            | none ↦ not (matches_value rule.condition prev.value)
          ])
              && elim b [
                | some n ↦ bit_matches sdk rule.condition n (to_u64 st.value)
                | none ↦ matches_value rule.condition st.value
              ])
            ≡ (not (elim b [
              | some n ↦ bit_matches sdk rule.condition n (to_u64 prev.value)
              | none ↦ matches_value rule.condition prev.value
            ])
                && elim b [
                  | some n ↦ bit_matches sdk rule.condition n (to_u64 st.value)
                  | none ↦ matches_value rule.condition st.value
                ])
      go none = ground (arith, law.conditions rule.condition prev.value st.value)
      go (some n) = ground (
        arith,
        bit_left-not rule.condition n (to_u64 prev.value),
        λ (e : value_eq prev.value st.value ≡ true).
            ap (bit_matches sdk rule.condition n) (law.numbers prev.value st.value e),
      )
  changed-and rule act_prop st prev law = go st.act prev.act
    where
      go :
          (a b : Option ℕ)
          → ((not (option_eq ⦃e = nat-Eq⦄ b a) && elim b [
            | some n ↦ not (range_matches rule.condition (f64_of_nat n))
            | none ↦ true
          ])
              && elim a [ some n ↦ range_matches rule.condition (f64_of_nat n) | none ↦ false ])
            ≡ (not (elim b [ some n ↦ range_matches rule.condition (f64_of_nat n) | none ↦ false ])
                && elim a [ some n ↦ range_matches rule.condition (f64_of_nat n) | none ↦ false ])
      go none none = refl
      go none (some n) = ground arith
      go (some m) none = refl
      go (some m) (some n) = ground (
        arith,
        nat_eq→≡ n m,
        λ (e : n ≡ m). ap (λ k. range_matches rule.condition (f64_of_nat k)) e,
      )

  -- Where conditions do not tell equal values apart, the tests of a rule come to this: on the
  -- first state of an item, the rule does not skip it and the condition is met; on a later one,
  -- the rule is not for first states only, and its condition is met by the new state and was not
  -- by the last, or is one that every state meets.
  pub process-is_wanted :
      (rule : Rule) (st : StateX) (prev : Option StateX)
      → RespectsEq
      → (need_process sdk rule st prev && matches sdk rule st) ≡ is_wanted rule st prev
  unfolding need_process matches
  process-is_wanted rule st none law = refl
  process-is_wanted rule st (some prev) law = ground (arith, changed-and rule rule.prop st prev law)
