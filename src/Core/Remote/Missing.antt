-- ===== src/Core/Remote/Missing.antt =====
-- `process_remote_inventory` of eva/src/core.rs: the removal of the items that a node no longer has.
use eva.Base.{
  String, Option, none, some, Bool, false, not, ◌&&◌, if◌then◌else◌, ◌≡◌, refl, ◌∙◌, List, [], ◌∷◌,
  EResult, arith, Bool-cases, inl, inr,
}
use eva.Base.Dict.{Dict, get, values, contains_key}
use eva.Common.{Common, oid-Eq}
use eva.Items.State.{ReplicationState}
use eva.Items.Data.{Item, Source, ReplicationInventoryItem}
use eva.Items.Inventory.{World, Inventory, items_of, get_item, remove_item}
use eva.Items.Inventory.Refines.{IsIndexed}
use eva.Items.Inventory.Removal.{remove_item-IsIndexed}
use eva.Core.{keys_of}
use eva.Core.Destroy.{listed, listed-keys_of, unless_of}
use eva.Core.Remote.{remove_missing}
use eva.Core.Remote.Kept.{Absent}

module _ ⦃c : Common⦄ where
  open c use {OID, oid_eq}

  -- each item of a remote inventory stands under its own OID
  abbrev pub OwnIds : Dict OID ReplicationInventoryItem → Type 0
  OwnIds [] = Unit
  OwnIds ((k, r) ∷ m) = (r.oid ≡ k) × OwnIds m

  pub values-Absent :
      (oid : OID) (m : Dict OID ReplicationInventoryItem)
      → OwnIds m
      → contains_key ⦃e = oid_eq⦄ oid m ≡ false
      → Absent oid (values m)
  unfolding values contains_key
  values-Absent oid [] o h = tt
  values-Absent oid ((k, r) ∷ m) o h =
      (rw o.0 (ground (arith, h)), values-Absent oid m o.1 (ground (arith, h)))

  pub get-OwnIds :
      (oid : OID) (m : Dict OID ReplicationInventoryItem) {r : ReplicationInventoryItem}
      → OwnIds m
      → get ⦃e = oid_eq⦄ oid m ≡ some r
      → r.oid ≡ oid
  unfolding get
  get-OwnIds oid [] o h = cc
  get-OwnIds oid ((k, r) ∷ m) o h = elim (Bool-cases (oid_eq.same k oid)) [
    | inl y ↦ ground (arith, h, y, o.0, oid_eq.decides k oid)
    | inr n ↦ get-OwnIds oid m o.1 (rw n at h)
  ]

  module _ (to_rs : ReplicationInventoryItem → EResult ReplicationState) (source : Source)
      (online : Bool) (oid : OID) where
    pub remove_missing-found :
        (remote_inv : Dict OID ReplicationInventoryItem) (ks : List OID) (w : World)
        → (w.flags source.addr).destroyed ≡ false
        → IsIndexed w.inv
        → IsIndexed (remove_missing to_rs source online remote_inv w ks).inv
          × ((remove_missing to_rs source online remote_inv w ks).flags ≡ w.flags)
          × (get_item (remove_missing to_rs source online remote_inv w ks).inv oid ≡ (
              if listed oid ks && not (contains_key ⦃e = oid_eq⦄ oid remote_inv)
              then none
              else get_item w.inv oid))
    unfolding remove_missing listed
    remove_missing-found remote_inv [] w d v = (v, refl, refl)
    remove_missing-found remote_inv (k ∷ ks) w d v =
        elim (Bool-cases (contains_key ⦃e = oid_eq⦄ k remote_inv)) [
          | inl y ↦
              let (v', f, e) = remove_missing-found remote_inv ks w d v in
              rw (d, y) (v', f, e ∙ ground (arith, y, oid_eq.decides k oid))
          | inr n ↦
              let (same, u, found) = remove_item-IsIndexed w.inv k v in
              let (v', f, e) =
                remove_missing-found remote_inv ks (record w { inv = (remove_item w.inv k).0 }) d
                  u in
              rw (d, n) (v', f, e ∙ ground (arith, found oid, n, oid_eq.decides k oid))
        ]

  -- what a source has is listed in the index
  pub without_listed :
      (inv : Inventory) (s : String) (oid : OID) (existing : Option (Dict OID Item))
      → items_of (some s) inv ≡ existing
      → IsIndexed inv
      → (if listed oid (keys_of existing) then none else get_item inv oid)
        ≡ unless_of s (get_item inv oid)
  without_listed inv s oid existing e v =
      rw (← e) (ground (arith, listed-keys_of inv (some s) oid, v.index (some s) oid))
