-- ===== src/Items/Tree/ChildMap.antt =====
-- The laws of the map `childs`.
use eva.Base.{
  String, none, some, false, if◌then◌else◌, ◌≡◌, refl, arith, inl, inr, Bool-cases, str_eq,
  str_eq_iff,
}
use eva.Common.{Common}
use eva.Items.Tree.{
  ItemTree, Childs, no_childs, child, get_child, set_child, remove_child, is_childless,
}

some_inj : {A : Type 0} {a b : A} → some a ≡ some b → a ≡ b
some_inj h = cc

module _ ⦃c : Common⦄ where
  pub get_child-set_child :
      (k j : String) (t : ItemTree) (cs : Childs)
      → get_child j (set_child k t cs) ≡ (if str_eq k j then some t else get_child j cs)
  unfolding get_child set_child
  get_child-set_child k j t no_childs = refl
  get_child-set_child k j t (child i u cs) =
      ground (arith, str_eq_iff k j, str_eq_iff i k, str_eq_iff i j, get_child-set_child k j t cs)

  pub get_child-remove_child :
      (k j : String) (cs : Childs)
      → get_child j (remove_child k cs) ≡ (if str_eq k j then none else get_child j cs)
  unfolding get_child remove_child
  get_child-remove_child k j no_childs = ground arith
  get_child-remove_child k j (child i u cs) =
      ground (arith, str_eq_iff k j, str_eq_iff i k, str_eq_iff i j, get_child-remove_child k j cs)

  -- No name stands twice.
  abbrev pub DistinctNames : Childs → Type 0
  DistinctNames no_childs = Unit
  DistinctNames (child x t cs) = (get_child x cs ≡ none) × DistinctNames cs

  pub DistinctNames-set_child :
      (k : String) (t : ItemTree) (cs : Childs)
      → DistinctNames cs
      → DistinctNames (set_child k t cs)
  unfolding set_child get_child
  DistinctNames-set_child k t no_childs d = (refl, tt)
  DistinctNames-set_child k t (child j u cs) d = elim (Bool-cases (str_eq j k)) [
    | inl y ↦ rw y (rw (← (str_eq_iff j k).0 y) d.0, d.1)
    | inr n ↦ rw n (
      ground (arith, d.0, get_child-set_child k j t cs, str_eq_iff j k, str_eq_iff k j),
      DistinctNames-set_child k t cs d.1,
    )
  ]

  pub DistinctNames-remove_child :
      (k : String) (cs : Childs) → DistinctNames cs → DistinctNames (remove_child k cs)
  unfolding remove_child
  DistinctNames-remove_child k no_childs d = tt
  DistinctNames-remove_child k (child j u cs) d = elim (Bool-cases (str_eq j k)) [
    | inl y ↦ rw y (DistinctNames-remove_child k cs d.1)
    | inr n ↦ rw n (
      ground (arith, d.0, get_child-remove_child k j cs, str_eq_iff j k, str_eq_iff k j),
      DistinctNames-remove_child k cs d.1,
    )
  ]

  module _ (P : String → ItemTree → Type 0) where
    -- What holds of a stored child and of all the others holds of every child afterwards.
    pub all-set_child :
        (k : String) (t : ItemTree) (cs : Childs)
        → P k t
        → ((x : String) (u : ItemTree) → get_child x cs ≡ some u → P x u)
        → (x : String) (u : ItemTree) → get_child x (set_child k t cs) ≡ some u
        → P x u
    all-set_child k t cs new old x u h = elim (Bool-cases (str_eq k x)) [
      | inl y ↦
          rw (← (str_eq_iff k x).0 y)
            (rw (← some_inj (rw (get_child-set_child k x t cs, y) at h)) new)
      | inr n ↦ old x u (rw (get_child-set_child k x t cs, n) at h)
    ]

    pub all-remove_child :
        (k : String) (cs : Childs)
        → ((x : String) (u : ItemTree) → get_child x cs ≡ some u → P x u)
        → (x : String) (u : ItemTree) → get_child x (remove_child k cs) ≡ some u
        → P x u
    all-remove_child k cs old x u h = old x u (ground (arith, get_child-remove_child k x cs))

  pub childless-set_child :
      (k : String) (t : ItemTree) (cs : Childs) → is_childless (set_child k t cs) ≡ false
  unfolding set_child
  childless-set_child k t no_childs = refl
  childless-set_child k t (child j u cs) = ground arith
