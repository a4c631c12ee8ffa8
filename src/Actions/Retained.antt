-- ===== src/Actions/Retained.antt =====
-- `HashMap::retain` on the table of actions, read by its keys.
use eva.Base.{
  Option, none, some, Bool, if◌then◌else◌, ◌≡◌, refl, arith, Bool-cases, inl, inr, [], ◌∷◌,
}
use eva.Base.Dict.{Dict, get, Distinct}
use eva.Base.Eq.{nat-Eq, nat_eq_iff}
use eva.Base.Lists.{retain}
use eva.Actions.{Uuid, retain_values}

module _ {V : Type 0} (p : V → Bool) where
  abbrev pub kept : Option V → Option V
  kept none = none
  kept (some v) = if p v then some v else none

  pub get-retain_values :
      (k : Uuid) (m : Dict Uuid V) → Distinct m → get k (retain_values p m) ≡ kept (get k m)
  unfolding retain_values get retain
  get-retain_values k [] d = refl
  get-retain_values k ((j, v) ∷ m) d =
      ground (arith, d.0, nat_eq_iff j k, get-retain_values k m d.1)

  pub Distinct-retain_values : (m : Dict Uuid V) → Distinct m → Distinct (retain_values p m)
  unfolding retain_values retain
  Distinct-retain_values [] d = tt
  Distinct-retain_values ((j, v) ∷ m) d = elim (Bool-cases (p v)) [
    | inl y ↦ rw y (absent, Distinct-retain_values m d.1)
    | inr n ↦ rw n (Distinct-retain_values m d.1)
  ]
    where
      absent : get j (retain_values p m) ≡ none
      absent = ground (arith, get-retain_values j m d.1, d.0)
