-- ===== src/Items/Tree/Remove.antt =====
-- `remove_item_rec` of eva/src/items.rs, against what a tree holds.
use eva.Base.{
  sym, String, Option, none, some, true, false, if◌then◌else◌, ◌≡◌, refl, List, [], ◌∷◌, arith,
  str_eq, str_eq_iff, Bool-cases, inl, inr, ◌⊎◌,
}
use eva.Base.Eq.{◌==◌}
use eva.Base.Dict.{Dict, get, remove, get-remove, Distinct-remove, get-is_empty}
use eva.Common.{Common, oid-Eq}
use eva.Items.Data.{Item}
use eva.Items.Tree.{
  ItemTree, Childs, no_childs, child, node, get_child, set_child, remove_child, tree_is_empty,
  remove_rec,
}
use eva.Items.Tree.ChildMap.{
  DistinctNames, get_child-set_child, get_child-remove_child, DistinctNames-set_child,
  DistinctNames-remove_child, all-set_child, all-remove_child,
}
use eva.Items.Tree.Find.{
  Rest, advance_by, down, member, member_at, lookup, below, IsWf, wf, member_at-child,
  child_of_member_at,
}
use eva.Items.Tree.Append.{down_place}

module _ ⦃c : Common⦄ where
  open c use {OID}

  -- What removing an OID makes of a tree `t` whose OIDs have `r` left.
  pub record Removed (r : Rest) (t : ItemTree) (gone : OID) (t' : ItemTree) : Type 0 where
    pub well : IsWf r t'
    pub found :
        (oid : OID) → lookup (r oid) t' oid ≡ (if gone == oid then none else lookup (r oid) t oid)

  member-is_empty :
      (t : ItemTree) (q : List String) (oid : OID) → tree_is_empty t ≡ true → member t q oid ≡ none
  unfolding member tree_is_empty
  member-is_empty (node cs m w) [] oid h = ground (arith, get-is_empty oid m)
  member-is_empty (node no_childs m w) (x ∷ q) oid h = unfold get_child in refl
  member-is_empty (node (child y u cs) m w) (x ∷ q) oid h = cc

  -- the child map after the recursive call: the child replaced, or taken out if it is empty
  abbrev pruned : String → Childs → ItemTree → Childs
  pruned x cs u = if tree_is_empty u then remove_child x cs else set_child x u cs

  member_at-pruned :
      (x y : String) (q : List String) (u : ItemTree) (cs : Childs) (oid : OID)
      → member_at y q (pruned x cs u) oid
        ≡ (if str_eq x y then member u q oid else member_at y q cs oid)
  unfolding member_at
  member_at-pruned x y q u cs oid =
      ground (
        arith,
        get_child-set_child x y u cs,
        get_child-remove_child x y cs,
        member-is_empty u q oid,
      )

  -- a removed leaf
  Removed-leaf :
      (r : Rest) (cs : Childs) (m w : Dict OID Item) (gone : OID)
      → IsWf r (node cs m w)
      → r gone ≡ some []
      → Removed r (node cs m w) gone (node cs (remove gone m) w)
  Removed-leaf r cs m w gone (wf keys wild dm dw dc full kids) place = record {
    well =
        wf (λ oid j h. ground (arith, get-remove gone oid m, keys oid j, c.oid_eq.decides gone oid))
          wild (Distinct-remove gone m dm) dw dc full kids;
    found = λ oid. go oid (r oid) refl;
  }
    where
      go :
          (oid : OID) (ro : Option (List String))
          → r oid ≡ ro
          → lookup ro (node cs (remove gone m) w) oid
            ≡ (if gone == oid then none else lookup ro (node cs m w) oid)
      go oid none e = ground arith
      go oid (some []) e = unfold member in get-remove gone oid m
      go oid (some (x ∷ p)) e = unfold member in ground (arith, place, c.oid_eq.decides gone oid)

  module _ (r : Rest) (x : String) (p : List String) (gone : OID)
      (place : r gone ≡ some (x ∷ p)) where
    below-pruned_go :
        (cs : Childs) (t u : ItemTree) (oid : OID) (ro : Option (List String))
        → get_child x cs ≡ some t
        → r oid ≡ ro
        → lookup (advance_by x ro) u oid
          ≡ (if gone == oid then none else lookup (advance_by x ro) t oid)
        → below ro (pruned x cs u) oid ≡ (if gone == oid then none else below ro cs oid)
    below-pruned_go cs t u oid none k e f = ground arith
    below-pruned_go cs t u oid (some []) k e f = ground arith
    below-pruned_go cs t u oid (some (y ∷ q)) k e f = ground (
      arith,
      place,
      str_eq_iff x y,
      c.oid_eq.decides gone oid,
      member_at-pruned x y q u cs oid,
      member_at-child x q cs t oid k,
    )

    below-pruned :
        (cs : Childs) (t u : ItemTree)
        → get_child x cs ≡ some t
        → Removed (down r x) t gone u
        → (oid : OID)
        → below (r oid) (pruned x cs u) oid ≡ (if gone == oid then none else below (r oid) cs oid)
    below-pruned cs t u k a oid = below-pruned_go cs t u oid (r oid) k refl (a.found oid)

    lookup-pruned_go :
        (cs : Childs) (m w w' : Dict OID Item) (u : ItemTree) (oid : OID)
        (ro : Option (List String))
        → r oid ≡ ro
        → below ro (pruned x cs u) oid ≡ (if gone == oid then none else below ro cs oid)
        → lookup ro (node (pruned x cs u) m w') oid
          ≡ (if gone == oid then none else lookup ro (node cs m w) oid)
    lookup-pruned_go cs m w w' u oid none e f = f
    lookup-pruned_go cs m w w' u oid (some []) e f =
        unfold member in ground (arith, place, c.oid_eq.decides gone oid)
    lookup-pruned_go cs m w w' u oid (some (y ∷ q)) e f = unfold member member_at in f

    all-pruned :
        (P : String → ItemTree → Type 0) (cs : Childs) (u : ItemTree)
        → (tree_is_empty u ≡ false → P x u)
        → ((y : String) (t : ItemTree) → get_child y cs ≡ some t → P y t)
        → (y : String) (t : ItemTree) → get_child y (pruned x cs u) ≡ some t
        → P y t
    all-pruned P cs u new old y t h = elim (Bool-cases (tree_is_empty u)) [
      | inl e ↦ all-remove_child P x cs old y t (rw e at h)
      | inr e ↦ all-set_child P x u cs (new e) old y t (rw e at h)
    ]

    DistinctNames-pruned :
        (cs : Childs) (u : ItemTree) → DistinctNames cs → DistinctNames (pruned x cs u)
    DistinctNames-pruned cs u d = elim (Bool-cases (tree_is_empty u)) [
      | inl e ↦ rw e (DistinctNames-remove_child x cs d)
      | inr e ↦ rw e (DistinctNames-set_child x u cs d)
    ]

    Removed-node :
        (cs : Childs) (m w : Dict OID Item) (t u : ItemTree)
        → get_child x cs ≡ some t
        → IsWf r (node cs m w)
        → Removed (down r x) t gone u
        → Removed r (node cs m w) gone (node (pruned x cs u) m (remove gone w))
    Removed-node cs m w t u k (wf keys wild dm dw dc full kids) a = record {
      well =
          wf keys
            (λ oid. ground (arith, wild oid, get-remove gone oid w, below-pruned cs t u k a oid)) dm
            (Distinct-remove gone w dw) (DistinctNames-pruned cs u dc)
            (all-pruned (λ y v. tree_is_empty v ≡ false) cs u (λ e. e) full)
            (all-pruned (λ y v. IsWf (down r y) v) cs u (λ e. a.well) kids);
      found = λ oid. lookup-pruned_go cs m w _ u oid (r oid) refl (below-pruned cs t u k a oid);
    }

  -- nothing to remove
  Removed-none :
      (r : Rest) (t : ItemTree) (gone : OID)
      → IsWf r t
      → lookup (r gone) t gone ≡ none
      → Removed r t gone t
  Removed-none r t gone v h = record { well = v; found = λ oid. go oid (Bool-cases (gone == oid)) }
    where
      go :
          (oid : OID)
          → ((gone == oid) ≡ true) ⊎ ((gone == oid) ≡ false)
          → lookup (r oid) t oid ≡ (if gone == oid then none else lookup (r oid) t oid)
      go oid (inl e) = rw (e, ← (c.oid_eq.decides gone oid).0 e) h
      go oid (inr e) = rw e

  absent_eq :
      (x : String) (p : List String) (cs : Childs) (m w : Dict OID Item) (gone : OID)
      → get gone w ≡ none
      → remove_rec (node cs m w) (x ∷ p) gone ≡ (node cs m w, none)
  unfolding remove_rec
  absent_eq x p cs m w gone h = ground arith

  present_eq :
      (x : String) (p : List String) (cs : Childs) (m w : Dict OID Item) (gone : OID) (i : Item)
      (t : ItemTree)
      → get gone w ≡ some i
      → get_child x cs ≡ some t
      → (remove_rec t p gone).1 ≡ some i
      → remove_rec (node cs m w) (x ∷ p) gone
        ≡ (node (pruned x cs (remove_rec t p gone).0) m (remove gone w), some i)
  unfolding remove_rec
  present_eq x p cs m w gone i t h k e = ground arith

  -- what the walk returns and leaves
  abbrev RemovedBy : Rest → List String → ItemTree → OID → Type 0
  RemovedBy r p t gone =
      ((remove_rec t p gone).1 ≡ lookup (some p) t gone) × Removed r t gone (remove_rec t p gone).0

  remove_below :
      (r : Rest) (x : String) (p : List String) (cs : Childs) (m w : Dict OID Item) (gone : OID)
      (o : Option Item)
      → r gone ≡ some (x ∷ p)
      → IsWf r (node cs m w)
      → ((t : ItemTree) → get_child x cs ≡ some t → RemovedBy (down r x) p t gone)
      → get gone w ≡ o
      → member_at x p cs gone ≡ o
      → RemovedBy r (x ∷ p) (node cs m w) gone
  unfolding member member_at
  remove_below r x p cs m w gone none place v rec e b =
      rw (absent_eq x p cs m w gone e)
        (sym b, Removed-none r (node cs m w) gone v (ground (arith, place)))
  remove_below r x p cs m w gone (some i) place v rec e b =
      let (t, k) = child_of_member_at x p cs gone b in
      let (returned, removed) = rec t k in
      let found : (remove_rec t p gone).1 ≡ some i = ground (arith, returned, k, b) in
      rw (present_eq x p cs m w gone i t e k found)
        (sym b, Removed-node r x p gone place cs m w t _ k v removed)

  -- The walk returns what the tree held under the OID, and leaves the tree without it.
  pub remove_rec-Removed :
      (r : Rest) (p : List String) (t : ItemTree) (gone : OID)
      → IsWf r t
      → r gone ≡ some p
      → RemovedBy r p t gone
  remove_rec-Removed r [] (node cs m w) gone v place =
      unfold remove_rec member in (refl, Removed-leaf r cs m w gone v place)
  remove_rec-Removed r (x ∷ p) (node cs m w) gone (wf keys wild dm dw dc full kids) place =
      let b : get gone w ≡ member_at x p cs gone = ground (arith, wild gone, place) in
      remove_below r x p cs m w gone (get gone w) place (wf keys wild dm dw dc full kids)
        (λ t k. remove_rec-Removed (down r x) p t gone (kids x t k) (down_place r x p gone place))
        refl (sym b)
