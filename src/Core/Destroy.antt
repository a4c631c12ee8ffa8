-- ===== src/Core/Destroy.antt =====
-- `destroy_source` of eva/src/core.rs: what is left of a source when it is destroyed.
use eva.Base.{
  String, Option, none, some, Bool, false, ◌||◌, if◌then◌else◌, ◌≡◌, refl, is_some, List, [], ◌∷◌,
  arith,
}
use eva.Base.Eq.{string-Eq, beq_refl}
use eva.Base.Dict.{Dict, get, keys, is_empty}
use eva.Common.{Common, oid-Eq}
use eva.Items.Data.{Item}
use eva.Items.Inventory.{
  World, Inventory, node_eq, source_node, items_of, get_item, remove_item, get_items_by_source,
  get_or_create_source, create_source,
}
use eva.Items.Inventory.Index.{by_source}
use eva.Items.Inventory.Refines.{IsIndexed, at_node}
use eva.Items.Inventory.Removal.{remove_item-IsIndexed}
use eva.Core.{remove_all, keys_of, destroy_source}

module _ ⦃c : Common⦄ where
  open c use {OID, oid_eq}

  unfoldable pub listed : OID → List OID → Bool
  listed oid [] = false
  listed oid (k ∷ ks) = oid_eq.same k oid || listed oid ks

  remove_all_lem :
      (ks : List OID) (inv : Inventory)
      → IsIndexed inv
      → IsIndexed (remove_all inv ks)
        × ((oid : OID)
            → get_item (remove_all inv ks) oid ≡ (if listed oid ks then none else get_item inv oid))
  unfolding remove_all listed
  remove_all_lem [] inv v = (v, λ oid. refl)
  remove_all_lem (k ∷ ks) inv v =
      let (same, v', found) = remove_item-IsIndexed inv k v in
      let (w, rest) = remove_all_lem ks (remove_item inv k).0 v' in
      (w, λ oid. ground (arith, rest oid, found oid))

  listed-keys :
      (oid : OID) (d : Dict OID Item) → listed oid (keys d) ≡ is_some (get ⦃e = oid_eq⦄ oid d)
  unfolding listed get keys
  listed-keys oid [] = refl
  listed-keys oid ((k, v) ∷ d) = ground (arith, listed-keys oid d)

  pub listed-keys_of :
      (inv : Inventory) (n : Option String) (oid : OID)
      → listed oid (keys_of (items_of n inv)) ≡ is_some (by_source inv n oid)
  unfolding listed
  listed-keys_of inv n oid = go (items_of n inv) refl
    where
      go :
          (o : Option (Dict OID Item))
          → items_of n inv ≡ o
          → listed oid (keys_of o) ≡ is_some (by_source inv n oid)
      go none e = rw e refl
      go (some d) e = rw e (listed-keys oid d)

  -- an item, unless it is of the node
  abbrev pub unless_of : String → Option Item → Option Item
  unless_of s none = none
  unless_of s (some i) = if node_eq.same (source_node i) (some s) then none else some i

  emptied :
      (inv : Inventory) (s : String)
      → IsIndexed inv
      → ((oid : OID) → at_node (some s) (get_item inv oid) ≡ none)
      → items_of (some s) inv ≡ none
  unfolding get is_empty
  emptied inv s v gone = go (items_of (some s) inv) refl
    where
      go : (o : Option (Dict OID Item)) → items_of (some s) inv ≡ o → items_of (some s) inv ≡ none
      go none e = e
      go (some []) e = cc (v.filled (some s) [] e)
      go (some ((k, i) ∷ d)) e =
          let found : by_source inv (some s) k ≡ some i =
            rw e (rw (beq_refl ⦃e = oid_eq⦄ k) refl) in
          cc (found, v.index (some s) k, gone k)

  pub inv-get_or_create_source :
      (w : World) (source_id svc : String) → (get_or_create_source w source_id svc).0.inv ≡ w.inv
  unfolding get_or_create_source create_source
  inv-get_or_create_source w source_id svc = ground arith

  cleared : Inventory → String → Inventory
  cleared inv s = remove_all inv (keys_of (items_of (some s) inv))

  get_item-cleared :
      (inv : Inventory) (s : String) (oid : OID)
      → IsIndexed inv
      → get_item (cleared inv s) oid ≡ unless_of s (get_item inv oid)
  unfolding cleared
  get_item-cleared inv s oid v = ground (
    arith,
    (remove_all_lem (keys_of (items_of (some s) inv)) inv v).1 oid,
    listed-keys_of inv (some s) oid,
    v.index (some s) oid,
  )

  cleared-IsIndexed : (inv : Inventory) (s : String) → IsIndexed inv → IsIndexed (cleared inv s)
  unfolding cleared
  cleared-IsIndexed inv s v = (remove_all_lem (keys_of (items_of (some s) inv)) inv v).0

  no_item_of : (s : String) (o : Option Item) → at_node (some s) (unless_of s o) ≡ none
  no_item_of s none = refl
  no_item_of s (some i) = ground arith

  -- Where the inventory is in step with its index by source, it is still so after a source is
  -- destroyed, has no item of the source and none under it in the index, and every other item is
  -- found as before.
  pub destroy_source_lem :
      (w : World) (source_id : String)
      → IsIndexed w.inv
      → IsIndexed (destroy_source w source_id).inv
        × (get_items_by_source (destroy_source w source_id).inv source_id ≡ none)
        × ((oid : OID)
            → get_item (destroy_source w source_id).inv oid
              ≡ unless_of source_id (get_item w.inv oid))
  unfolding destroy_source get_items_by_source cleared
  destroy_source_lem w source_id v =
      let v' = cleared-IsIndexed w.inv source_id v in
      rw (inv-get_or_create_source w source_id "") (
        v',
        emptied (cleared w.inv source_id) source_id v'
            (λ oid. rw (get_item-cleared w.inv source_id oid v) (no_item_of source_id _)),
        λ oid. get_item-cleared w.inv source_id oid v,
      )
