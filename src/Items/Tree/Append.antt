-- ===== src/Items/Tree/Append.antt =====
-- `append_item_rec` of eva/src/items.rs, against what a tree holds.
use eva.Base.{
  String, Option, none, some, Bool, true, false, not, ◌&&◌, if◌then◌else◌, ◌≡◌, refl, List, [], ◌∷◌,
  arith, str_eq, str_eq_iff, is_some, ok, err, duplicate,
}
use eva.Base.Eq.{◌==◌}
use eva.Base.Dict.{
  Dict, get, insert, get-insert, Distinct-insert, contains_key-get, is_empty-insert,
}
use eva.Common.{Common, oid-Eq}
use eva.Items.Data.{Item}
use eva.Items.Tree.{
  ItemTree, Childs, node, empty_tree, get_child, set_child, tree_is_empty, append_rec,
}
use eva.Items.Tree.ChildMap.{
  get_child-set_child, DistinctNames-set_child, all-set_child, childless-set_child,
}
use eva.Items.Tree.Find.{
  Rest, advance_by, down, member, member_at, lookup, below, IsWf, wf, empty_tree-IsWf,
  member-empty_tree,
}

module _ ⦃c : Common⦄ where
  open c use {OID}

  -- What appending `i` makes of a tree `t` whose OIDs have `r` left.
  pub record Appended (r : Rest) (t : ItemTree) (i : Item) (t' : ItemTree) : Type 0 where
    pub well : IsWf r t'
    pub full : tree_is_empty t' ≡ false
    pub found :
        (oid : OID)
        → lookup (r oid) t' oid ≡ (if i.oid == oid then some i else lookup (r oid) t oid)

  abbrev child_or_empty : String → Childs → ItemTree
  child_or_empty x cs = elim (get_child x cs) [ none ↦ empty_tree | some u ↦ u ]

  member_at-child_or_empty :
      (x : String) (p : List String) (cs : Childs) (oid : OID)
      → member_at x p cs oid ≡ member (child_or_empty x cs) p oid
  unfolding member_at
  member_at-child_or_empty x p cs oid = ground (arith, member-empty_tree p oid)

  member_at-set_child :
      (x y : String) (q : List String) (u : ItemTree) (cs : Childs) (oid : OID)
      → member_at y q (set_child x u cs) oid
        ≡ (if str_eq x y then member u q oid else member_at y q cs oid)
  unfolding member_at
  member_at-set_child x y q u cs oid = ground (arith, get_child-set_child x y u cs)

  module _ (r : Rest) (x : String) (p : List String) (i : Item)
      (place : r i.oid ≡ some (x ∷ p)) where
    below-set_child_go :
        (cs : Childs) (u : ItemTree) (oid : OID) (ro : Option (List String))
        → r oid ≡ ro
        → lookup (advance_by x ro) u oid
          ≡ (if i.oid == oid then some i else lookup (advance_by x ro) (child_or_empty x cs) oid)
        → below ro (set_child x u cs) oid ≡ (if i.oid == oid then some i else below ro cs oid)
    below-set_child_go cs u oid none e f = ground (arith, place, c.oid_eq.decides i.oid oid)
    below-set_child_go cs u oid (some []) e f = ground (arith, place, c.oid_eq.decides i.oid oid)
    below-set_child_go cs u oid (some (y ∷ q)) e f = ground (
      arith,
      place,
      str_eq_iff x y,
      c.oid_eq.decides i.oid oid,
      member_at-set_child x y q u cs oid,
      member_at-child_or_empty x q cs oid,
      member_at-child_or_empty y q cs oid,
    )

    below-set_child :
        (cs : Childs) (u : ItemTree)
        → Appended (down r x) (child_or_empty x cs) i u
        → (oid : OID)
        → below (r oid) (set_child x u cs) oid
          ≡ (if i.oid == oid then some i else below (r oid) cs oid)
    below-set_child cs u a oid = below-set_child_go cs u oid (r oid) refl (a.found oid)

    lookup-set_child_go :
        (cs : Childs) (m w w' : Dict OID Item) (u : ItemTree) (oid : OID)
        (ro : Option (List String))
        → r oid ≡ ro
        → below ro (set_child x u cs) oid ≡ (if i.oid == oid then some i else below ro cs oid)
        → lookup ro (node (set_child x u cs) m w') oid
          ≡ (if i.oid == oid then some i else lookup ro (node cs m w) oid)
    lookup-set_child_go cs m w w' u oid none e f = f
    lookup-set_child_go cs m w w' u oid (some []) e f =
        unfold member in ground (arith, place, c.oid_eq.decides i.oid oid)
    lookup-set_child_go cs m w w' u oid (some (y ∷ q)) e f = unfold member member_at in f

    -- one level up: the child is stored, and the item goes into the wildcard
    Appended-node :
        (cs : Childs) (m w : Dict OID Item) (u : ItemTree)
        → IsWf r (node cs m w)
        → Appended (down r x) (child_or_empty x cs) i u
        → Appended r (node cs m w) i (node (set_child x u cs) m (insert i.oid i w))
    Appended-node cs m w u (wf keys wild dm dw dc full kids) a = record {
      well =
          wf keys
            (λ oid. ground (arith, wild oid, get-insert i.oid oid i w, below-set_child cs u a oid))
            dm (Distinct-insert i.oid i w dw) (DistinctNames-set_child x u cs dc)
            (all-set_child (λ y t. tree_is_empty t ≡ false) x u cs a.full full)
            (all-set_child (λ y t. IsWf (down r y) t) x u cs a.well kids);
      full = unfold tree_is_empty in rw (childless-set_child x u cs);
      found = λ oid. lookup-set_child_go cs m w _ u oid (r oid) refl (below-set_child cs u a oid);
    }

  child_or_empty-IsWf :
      (r : Rest) (x : String) (cs : Childs)
      → ((y : String) (t : ItemTree) → get_child y cs ≡ some t → IsWf (down r y) t)
      → IsWf (down r x) (child_or_empty x cs)
  child_or_empty-IsWf r x cs kids = go (get_child x cs) (λ t h. kids x t h)
    where
      go :
          (o : Option ItemTree)
          → ((t : ItemTree) → o ≡ some t → IsWf (down r x) t)
          → IsWf (down r x) (elim o [ none ↦ empty_tree | some u ↦ u ])
      go none k = empty_tree-IsWf (down r x)
      go (some u) k = k u refl

  -- the leaf, where no chunk is left
  Appended-leaf :
      (r : Rest) (cs : Childs) (m w : Dict OID Item) (i : Item)
      → IsWf r (node cs m w)
      → r i.oid ≡ some []
      → Appended r (node cs m w) i (node cs (insert i.oid i m) w)
  Appended-leaf r cs m w i (wf keys wild dm dw dc full kids) place = record {
    well =
        wf
          (λ oid j h.
            ground (arith, get-insert i.oid oid i m, keys oid j, place, c.oid_eq.decides i.oid oid))
          wild (Distinct-insert i.oid i m dm) dw dc full kids;
    full = unfold tree_is_empty in ground (arith, is_empty-insert i.oid i m);
    found = λ oid. go oid (r oid) refl;
  }
    where
      go :
          (oid : OID) (ro : Option (List String))
          → r oid ≡ ro
          → lookup ro (node cs (insert i.oid i m) w) oid
            ≡ (if i.oid == oid then some i else lookup ro (node cs m w) oid)
      go oid none e = ground (arith, place, c.oid_eq.decides i.oid oid)
      go oid (some []) e = unfold member in get-insert i.oid oid i m
      go oid (some (x ∷ p)) e = unfold member in ground (arith, place, c.oid_eq.decides i.oid oid)

  pub down_place :
      (r : Rest) (x : String) (p : List String) (oid : OID)
      → r oid ≡ some (x ∷ p)
      → down r x oid ≡ some p
  down_place r x p oid h = ground (arith, str_eq_iff x x)

  leaf_eq :
      (cs : Childs) (m w : Dict OID Item) (i : Item) (replace : Bool)
      → (is_some (get i.oid m) && not replace) ≡ false
      → append_rec (node cs m w) [] i replace ≡ (node cs (insert i.oid i m) w, ok tt)
  unfolding append_rec
  leaf_eq cs m w i replace h = ground (arith, contains_key-get i.oid m)

  node_eq :
      (x : String) (p : List String) (cs : Childs) (m w : Dict OID Item) (i : Item) (replace : Bool)
      → (is_some (get i.oid w) && not replace) ≡ false
      → (append_rec (child_or_empty x cs) p i replace).1 ≡ ok tt
      → append_rec (node cs m w) (x ∷ p) i replace ≡ (
        node (set_child x (append_rec (child_or_empty x cs) p i replace).0 cs) m (insert i.oid i w),
        ok tt,
      )
  unfolding append_rec
  node_eq x p cs m w i replace h e = ground (arith, contains_key-get i.oid w)

  -- The walk by which the chunks of the item are used up: unless it finds the item and must not
  -- replace it, it succeeds and leaves the item appended.
  pub append_rec-Appended :
      (r : Rest) (p : List String) (t : ItemTree) (i : Item) (replace : Bool)
      → IsWf r t
      → r i.oid ≡ some p
      → (is_some (lookup (some p) t i.oid) && not replace) ≡ false
      → ((append_rec t p i replace).1 ≡ ok tt) × Appended r t i (append_rec t p i replace).0
  unfolding member member_at
  append_rec-Appended r [] (node cs m w) i replace v place fresh =
      rw (leaf_eq cs m w i replace fresh) (refl, Appended-leaf r cs m w i v place)
  append_rec-Appended r (x ∷ p) (node cs m w) i replace (wf keys wild dm dw dc full kids) place
        fresh =
      let absent_below : (is_some (lookup (some p) (child_or_empty x cs) i.oid) && not replace)
          ≡ false =
        ground (arith, member_at-child_or_empty x p cs i.oid) in
      let absent : (is_some (get i.oid w) && not replace) ≡ false =
        ground (arith, wild i.oid, place) in
      let (done, a) =
        append_rec-Appended (down r x) p (child_or_empty x cs) i replace
          (child_or_empty-IsWf r x cs kids) (down_place r x p i.oid place) absent_below in
      rw (node_eq x p cs m w i replace absent done)
        (refl, Appended-node r x p i place cs m w _ (wf keys wild dm dw dc full kids) a)

  -- An item that is there already, and must not be replaced, is refused, and nothing changes.
  pub append_rec_duplicate :
      (r : Rest) (p : List String) (t : ItemTree) (i : Item)
      → IsWf r t
      → r i.oid ≡ some p
      → is_some (lookup (some p) t i.oid) ≡ true
      → append_rec t p i false ≡ (t, err duplicate)
  unfolding append_rec member member_at
  append_rec_duplicate r [] (node cs m w) i v place h = ground (arith, contains_key-get i.oid m)
  append_rec_duplicate r (x ∷ p) (node cs m w) i (wf keys wild dm dw dc full kids) place h =
      let there : is_some (get i.oid w) ≡ true = ground (arith, wild i.oid, place) in
      ground (arith, contains_key-get i.oid w)
