-- ===== src/Items/Tree/Find.antt =====
-- What an item tree means: where an OID is to be found, what is found there, and the invariant that
-- ties the shortcut `members_wildcard` and the keys to it.
use eva.Base.{
  String, Option, none, some, false, if◌then◌else◌, ◌≡◌, refl, List, [], ◌∷◌, arith, str_eq,
}
use eva.Base.Dict.{Dict, get, Distinct}
use eva.Common.{Common, oid-Eq}
use eva.Items.Data.{Item}
use eva.Items.Tree.{
  ItemTree, Childs, no_childs, node, empty_tree, get_child, members_of, childs_of, tree_is_empty,
}
use eva.Items.Tree.ChildMap.{DistinctNames}

module _ ⦃c : Common⦄ where
  open c use {OID}

  -- The chunks that are left of each OID at a node; `none` for an OID that does not belong there.
  abbrev pub Rest : Type 0
  Rest = OID → Option (List String)

  abbrev pub advance_by : String → Option (List String) → Option (List String)
  advance_by x none = none
  advance_by x (some []) = none
  advance_by x (some (y ∷ p)) = if str_eq x y then some p else none

  -- what is left one level down
  abbrev pub down : Rest → String → Rest
  down r x oid = advance_by x (r oid)

  -- the member with an OID at the end of a path
  unfoldable pub member : ItemTree → List String → OID → Option Item
  member t [] oid = get oid (members_of t)
  member t (x ∷ p) oid = elim (get_child x (childs_of t)) [ none ↦ none | some u ↦ member u p oid ]

  unfoldable pub member_at : String → List String → Childs → OID → Option Item
  unfolding member
  member_at x p cs oid = elim (get_child x cs) [ none ↦ none | some u ↦ member u p oid ]

  -- what the tree holds under an OID
  abbrev pub lookup : Option (List String) → ItemTree → OID → Option Item
  lookup none t oid = none
  lookup (some p) t oid = member t p oid

  -- the same, strictly below the node
  abbrev pub below : Option (List String) → Childs → OID → Option Item
  below none cs oid = none
  below (some []) cs oid = none
  below (some (x ∷ p)) cs oid = member_at x p cs oid

  -- Members stand where they belong and under their own OID, `members_wildcard` holds exactly what
  -- is below, and there is no child without content.
  pub data IsWf : Rest → ItemTree → Type 0 where
    wf :
        {r : Rest} {cs : Childs} {m w : Dict OID Item}
        → ((oid : OID) (i : Item) → get oid m ≡ some i → (r oid ≡ some []) × (i.oid ≡ oid))
        → ((oid : OID) → get oid w ≡ below (r oid) cs oid)
        → Distinct m
        → Distinct w
        → DistinctNames cs
        → ((x : String) (t : ItemTree) → get_child x cs ≡ some t → tree_is_empty t ≡ false)
        → ((x : String) (t : ItemTree) → get_child x cs ≡ some t → IsWf (down r x) t)
        → IsWf r (node cs m w)

  pub empty_tree-IsWf : (r : Rest) → IsWf r empty_tree
  unfolding get get_child
  empty_tree-IsWf r =
      wf (λ oid i h. cc) (λ oid. nothing (r oid) oid) tt tt tt (λ x t h. cc) (λ x t h. cc)
    where
      nothing : (p : Option (List String)) (oid : OID) → none ≡ below p no_childs oid
      nothing none oid = refl
      nothing (some []) oid = refl
      nothing (some (x ∷ p)) oid = unfold member_at in refl

  pub member-empty_tree : (p : List String) (oid : OID) → member empty_tree p oid ≡ none
  unfolding member get get_child
  member-empty_tree [] oid = refl
  member-empty_tree (x ∷ p) oid = refl

  pub member_at-child :
      (x : String) (q : List String) (cs : Childs) (t : ItemTree) (oid : OID)
      → get_child x cs ≡ some t
      → member_at x q cs oid ≡ member t q oid
  unfolding member_at
  member_at-child x q cs t oid h = ground arith

  pub child_of_member_at :
      (x : String) (q : List String) (cs : Childs) (oid : OID) {i : Item}
      → member_at x q cs oid ≡ some i
      → (t : ItemTree) × (get_child x cs ≡ some t)
  unfolding member_at
  child_of_member_at x q cs oid h = go (get_child x cs) refl (λ e. ground (arith, e))
    where
      go :
          (o : Option ItemTree)
          → get_child x cs ≡ o
          → (get_child x cs ≡ none → ⊥)
          → (t : ItemTree) × (get_child x cs ≡ some t)
      go none e n = absurd (n e)
      go (some t) e n = (t, e)
