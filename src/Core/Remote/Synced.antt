-- ===== src/Core/Remote/Synced.antt =====
-- `process_remote_inventory` of eva/src/core.rs: the inventory after it has run in full.
use eva.Base.{
  ℕ, String, Option, none, some, Bool, true, false, not, ◌&&◌, ◌≡◌, refl, sym, ◌∙◌, ap, is_some,
  EResult, ok, ◌⊎◌, subst, arith, Bool-cases, inl, inr,
}
use eva.Base.Eq.{string-Eq, beq_refl}
use eva.Base.Dict.{Dict, get, insert, keys, values, contains_key, contains_key-get, values-In}
use eva.Common.{Common, oid-Eq}
use eva.Items.State.{ReplicationState}
use eva.Items.Data.{Item, Source, SourceCell, ReplicationInventoryItem}
use eva.Items.Inventory.{
  World, Inventory, items_of, get_item, get_items_by_source, get_or_create_source,
}
use eva.Items.ItemMap.View.{IsWfMap}
use eva.Items.Inventory.Index.{by_source}
use eva.Items.Inventory.Refines.{IsIndexed}
use eva.Core.{lock_source}
use eva.Core.Locks.{locked, lock_source_lem}
use eva.Core.Destroy.{listed, unless_of, inv-get_or_create_source}
use eva.Core.Remote.{
  starts_with_dot, check_state, process_remote_inventory, process_items, process_item, add_checked,
  remove_missing, each,
}
use eva.Core.Remote.Changes.{
  process_item-Changes, process_item-none, add_checked-Changes, IsPut-add_remote, IsPut,
}
use eva.Core.Remote.Kept.{Has, each-keeps, each-Has, each-put}
use eva.Core.Remote.Missing.{
  OwnIds, values-Absent, get-OwnIds, remove_missing-found, without_listed,
}

module _ ⦃c : Common⦄ where
  open c use {OID, oid_eq}

  -- what is found at an OID after the sync of a source: an item that the remote inventory lists, and
  -- that passes the check of its state, is there; one that it lacks is gone if it was of the source
  abbrev pub Synced : Inventory → String → Dict OID ReplicationInventoryItem → OID → World → Type 0
  Synced inv source_id remote_inv oid w' =
      ((contains_key ⦃e = oid_eq⦄ oid remote_inv ≡ false)
        × (get_item w'.inv oid ≡ unless_of source_id (get_item inv oid)))
      ⊎ ((r : ReplicationInventoryItem) × (get ⦃e = oid_eq⦄ oid remote_inv ≡ some r)
          × ((check_state r && not (is_some (get_item w'.inv oid))) ≡ false))

  module _ (to_rs : ReplicationInventoryItem → EResult ReplicationState) (source : Source)
      (online : Bool) (remote_inv : Dict OID ReplicationInventoryItem) (w : World)
      (source_id : String) (oid : OID) (v : IsIndexed w.inv)
      (d : (w.flags source.addr).destroyed ≡ false) (o : OwnIds remote_inv) where
    process_items-lacks :
        (existing : Option (Dict OID Item))
        → items_of (some source_id) w.inv ≡ existing
        → contains_key ⦃e = oid_eq⦄ oid remote_inv ≡ false
        → get_item (process_items to_rs source online w existing remote_inv false).0.inv oid
          ≡ unless_of source_id (get_item w.inv oid)
    unfolding process_items listed
    process_items-lacks none e h =
        each-keeps oid to_rs source online (add_checked to_rs source online)
          (add_checked-Changes to_rs source online) (values remote_inv) w
          (values-Absent oid remote_inv o h) v.map
        ∙ without_listed w.inv source_id oid none e v
    process_items-lacks (some existing) e h =
        let (v', f, g) =
          remove_missing-found to_rs source online oid remote_inv (keys existing) w d v in
        each-keeps oid to_rs source online (process_item to_rs source online existing)
          (process_item-Changes to_rs source online existing) (values remote_inv)
          (remove_missing to_rs source online remote_inv w (keys existing))
          (values-Absent oid remote_inv o h) v'.map
        ∙ g
        ∙ ground (arith, h)
        ∙ without_listed w.inv source_id oid (some existing) e v

    IsPut-add_checked :
        (r : ReplicationInventoryItem)
        → check_state r ≡ true
        → (u : World) → (item : Item) × IsPut u r item (add_checked to_rs source online u r).0
    unfolding add_checked
    IsPut-add_checked r h u = rw h (IsPut-add_remote to_rs source online u r h)

    IsPut-process_item :
        (existing : Dict OID Item) (r : ReplicationInventoryItem)
        → get ⦃e = oid_eq⦄ r.oid existing ≡ none
        → check_state r ≡ true
        → (u : World)
        → (item : Item) × IsPut u r item (process_item to_rs source online existing u r).0
    IsPut-process_item existing r n h u =
        rw (process_item-none to_rs source online existing u r n)
          (IsPut-add_remote to_rs source online u r h)

    indexed-found :
        (existing : Dict OID Item) {ex : Item}
        → items_of (some source_id) w.inv ≡ some existing
        → get ⦃e = oid_eq⦄ oid existing ≡ some ex
        → Has oid w
    indexed-found existing {ex} e g =
        let h : by_source w.inv (some source_id) oid ≡ some ex = rw (by_source, e) g in
        ground (arith, h, v.index (some source_id) oid)

    process_items-Has :
        (existing : Option (Dict OID Item)) (r : ReplicationInventoryItem)
        → items_of (some source_id) w.inv ≡ existing
        → get ⦃e = oid_eq⦄ oid remote_inv ≡ some r
        → check_state r ≡ true
        → Has oid (process_items to_rs source online w existing remote_inv false).0
    unfolding process_items
    process_items-Has none r e g h =
        each-put oid to_rs source online (add_checked to_rs source online)
          (add_checked-Changes to_rs source online) r (values remote_inv) w
          (get-OwnIds oid remote_inv o g) (IsPut-add_checked r h)
          (values-In ⦃e = oid_eq⦄ oid remote_inv g) v.map d
    process_items-Has (some existing) r e g h =
        let own : r.oid ≡ oid = get-OwnIds oid remote_inv o g in
        let (v', f, kept) =
          remove_missing-found to_rs source online oid remote_inv (keys existing) w d v in
        go own v'.map (ap (λ (x : ℕ → SourceCell). (x source.addr).destroyed) f ∙ d)
          (kept ∙ ground (arith, contains_key-get ⦃e = oid_eq⦄ oid remote_inv, g))
          (get ⦃e = oid_eq⦄ oid existing) refl
      where
        go :
            r.oid ≡ oid
            → IsWfMap (remove_missing to_rs source online remote_inv w (keys existing)).inv.items
            → ((remove_missing to_rs source online remote_inv w (keys existing)).flags
                source.addr).destroyed
              ≡ false
            → get_item (remove_missing to_rs source online remote_inv w (keys existing)).inv oid
              ≡ get_item w.inv oid
            → (found : Option Item) → get ⦃e = oid_eq⦄ oid existing ≡ found
            → Has oid
                (each to_rs source online
                  (process_item to_rs source online existing)
                  (remove_missing to_rs source online remote_inv w (keys existing))
                  (values remote_inv)).0
        go own wf fl kept (some ex) q =
            each-Has oid to_rs source online (process_item to_rs source online existing)
              (process_item-Changes to_rs source online existing) (values remote_inv)
              (remove_missing to_rs source online remote_inv w (keys existing)) wf
              (ap is_some kept ∙ indexed-found existing e q)
        go own wf fl kept none q =
            each-put oid to_rs source online (process_item to_rs source online existing)
              (process_item-Changes to_rs source online existing) r (values remote_inv)
              (remove_missing to_rs source online remote_inv w (keys existing)) own
              (IsPut-process_item existing r (rw own q) h) (values-In ⦃e = oid_eq⦄ oid remote_inv g)
              wf fl

    process_items-Synced :
        (existing : Option (Dict OID Item))
        → items_of (some source_id) w.inv ≡ existing
        → Synced w.inv source_id remote_inv oid
            (process_items to_rs source online w existing remote_inv false).0
    process_items-Synced existing e = go (get ⦃e = oid_eq⦄ oid remote_inv) refl
      where
        go :
            (found : Option ReplicationInventoryItem)
            → get ⦃e = oid_eq⦄ oid remote_inv ≡ found
            → Synced w.inv source_id remote_inv oid
                (process_items to_rs source online w existing remote_inv false).0
        go none g =
            let h : contains_key ⦃e = oid_eq⦄ oid remote_inv ≡ false =
              contains_key-get ⦃e = oid_eq⦄ oid remote_inv ∙ ap is_some g in
            inl (h, process_items-lacks existing e h)
        go (some r) g = inr (
          r,
          g,
          elim (Bool-cases (check_state r)) [
            | inl y ↦ ground (arith, y, process_items-Has existing r e g y)
            | inr n ↦ rw n refl
          ],
        )

  -- Where the inventory is in step with its index by source, the source is not locked, reserved or
  -- destroyed, and the remote items stand under their own OIDs, a full run succeeds, leaves the
  -- source unlocked, and an OID that the remote inventory lacks has no item of the source any more
  -- and is else as before, while one that it lists has an item if that passes the check of its
  -- state.
  pub process_remote_inventory-Synced :
      (to_rs : ReplicationInventoryItem → EResult ReplicationState) (w : World)
      (locks : Dict String (Unit {0})) (remote_inv : Dict OID ReplicationInventoryItem)
      (source_id sender : String) (oid : OID)
      → IsIndexed w.inv
      → OwnIds remote_inv
      → starts_with_dot source_id ≡ false
      → locked locks source_id ≡ false
      → (let (w', source) = get_or_create_source w source_id sender in
          (w'.flags source.addr).destroyed ≡ false)
      → let p = process_remote_inventory to_rs w locks remote_inv source_id sender false in
        (p.result ≡ ok tt)
        × (locked p.locks source_id ≡ false)
        × Synced w.inv source_id remote_inv oid p.world
  unfolding process_remote_inventory lock_source get_items_by_source
  process_remote_inventory-Synced to_rs w locks remote_inv source_id sender oid v o dot free d =
      let (w', source) = get_or_create_source w source_id sender in
      let e : (get_or_create_source w source_id sender).0.inv ≡ w.inv =
        inv-get_or_create_source w source_id sender in
      let g =
        process_items-Synced to_rs source (w'.flags source.addr).online remote_inv w' source_id oid
          (subst IsIndexed (sym e) v) d o (items_of (some source_id) w.inv)
          (ap (items_of (some source_id)) e) in
      rw (dot, free)
        (
          refl,
          (lock_source_lem (insert ⦃e = string-Eq⦄ source_id tt locks) source_id).3 source_id
              ∙ ground (arith, beq_refl ⦃e = string-Eq⦄ source_id),
          subst
              (λ (x : Inventory).
                Synced x source_id remote_inv oid
                  (process_items to_rs source (w'.flags source.addr).online w'
                    (items_of (some source_id) w.inv) remote_inv false).0)
              e g,
        )
