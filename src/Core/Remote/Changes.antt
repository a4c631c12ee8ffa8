-- ===== src/Core/Remote/Changes.antt =====
-- `process_remote_inventory` of eva/src/core.rs: what a step on one item does to the inventory.
use eva.Base.{
  ℕ, Option, none, some, Bool, true, if◌then◌else◌, ◌≡◌, refl, sym, List, EResult, ok, err, Error,
  ◌⊎◌, subst, arith, Bool-cases, inl, inr,
}
use eva.Base.Eq.{◌==◌}
use eva.Base.Dict.{Dict, get}
use eva.Common.{Common, oid-Eq}
use eva.Items.State.{ReplicationState}
use eva.Items.Data.{Item, ItemCell, Source, ReplicationInventoryItem, from_repl_item}
use eva.Items.ItemMap
use eva.Items.ItemMap.{ItemMap}
use eva.Items.ItemMap.View.{IsWfMap, append_lem}
use eva.Items.Inventory.{World, Inventory, get_item, append_item, append_remote_item}
use eva.Items.Inventory.Index.{items-index_item}
use eva.Items.Inventory.Refines.{append_item_eq}
use eva.Core.Remote.{
  meta_eq, check_state, set_enabled, process_item, update_existing, update_state, add_remote,
  add_checked, RemoteStateEvent,
}

module _ ⦃c : Common⦄ where
  open c use {OID, oid_eq}

  pub append_item-found :
      (inv : Inventory) (item : Item)
      → IsWfMap inv.items
      → IsWfMap (append_item inv item true).0.items
        × ((oid : OID)
            → get_item (append_item inv item true).0 oid
              ≡ (if item.oid == oid then some item else get_item inv oid))
  unfolding get_item
  append_item-found inv item v =
      let (done, m, found) = append_lem inv.items v item true (ground arith) in
      rw (append_item_eq inv item true done) (
        rw (items-index_item (record inv { items = (ItemMap.append inv.items item true).0 }) item)
          (m, found))

  from_repl_item-oid :
      (i : ReplicationInventoryItem) (source : Source) (addr : ℕ) {item : Item} {cell : ItemCell}
      → from_repl_item i source addr ≡ ok (item, cell)
      → item.oid ≡ i.oid
  unfolding from_repl_item
  from_repl_item-oid i source addr h = ground (arith, h)

  -- The inventory stays, or an item with the OID of the remote one is put into it; the flags stay.
  pub record IsPut (w : World) (r : ReplicationInventoryItem) (item : Item) (w' : World)
      : Type 0 where
    pub own : item.oid ≡ r.oid
    pub put : w'.inv ≡ (append_item w.inv item true).0

  abbrev pub Changes : World → ReplicationInventoryItem → World → Type 0
  Changes w r w' = (w'.flags ≡ w.flags) × ((w'.inv ≡ w.inv) ⊎ ((item : Item) × IsPut w r item w'))

  abbrev pub Step : Type 0
  Step = World → ReplicationInventoryItem → World × List RemoteStateEvent

  abbrev pub AllChange : Step → Type 0
  AllChange step = (w : World) (r : ReplicationInventoryItem) → Changes w r (step w r).0

  flags-append_remote_item :
      (w : World) (r : ReplicationInventoryItem) (source : Source)
      → (append_remote_item w r source).0.flags ≡ w.flags
  unfolding append_remote_item
  flags-append_remote_item w r source = ground arith

  inv-append_remote_item :
      (w : World) (r : ReplicationInventoryItem) (source : Source) {item : Item} {cell : ItemCell}
      → from_repl_item r source w.next ≡ ok (item, cell)
      → (append_remote_item w r source).0.inv ≡ (append_item w.inv item true).0
  unfolding append_remote_item
  inv-append_remote_item w r source e = rw (append_remote_item, e) refl

  inv-append_remote_item_err :
      (w : World) (r : ReplicationInventoryItem) (source : Source) {x : Error}
      → from_repl_item r source w.next ≡ err x
      → (append_remote_item w r source).0.inv ≡ w.inv
  unfolding append_remote_item
  inv-append_remote_item_err w r source e = rw (append_remote_item, e) refl

  append_remote_item-Changes :
      (w : World) (r : ReplicationInventoryItem) (source : Source)
      → Changes w r (append_remote_item w r source).0
  append_remote_item-Changes w r source = go (from_repl_item r source w.next) refl
    where
      go :
          (o : EResult (Item × ItemCell))
          → from_repl_item r source w.next ≡ o
          → Changes w r (append_remote_item w r source).0
      go (ok (item, cell)) e = (
        flags-append_remote_item w r source,
        inr (
          item,
          record {
            own = from_repl_item-oid r source w.next e;
            put = inv-append_remote_item w r source e;
          },
        ),
      )
      go (err x) e =
          (flags-append_remote_item w r source, inl (inv-append_remote_item_err w r source e))

  module _ (to_rs : ReplicationInventoryItem → EResult ReplicationState) (source : Source)
      (online : Bool) where
    world-add_remote :
        (w : World) (r : ReplicationInventoryItem)
        → (add_remote to_rs source online w r).0 ≡ (append_remote_item w r source).0
    unfolding add_remote
    world-add_remote w r = ground arith

    pub add_remote-Changes : AllChange (add_remote to_rs source online)
    add_remote-Changes w r =
        subst (Changes w r) (sym (world-add_remote w r)) (append_remote_item-Changes w r source)

    pub add_checked-Changes : AllChange (add_checked to_rs source online)
    unfolding add_checked
    add_checked-Changes w r = elim (Bool-cases (check_state r)) [
      | inl y ↦ rw y (add_remote-Changes w r)
      | inr n ↦ rw n (refl, inl refl)
    ]

    update_state-Changes :
        (w : World) (ex : Item) (r : ReplicationInventoryItem)
        → ((update_state to_rs source online w ex r).0.flags ≡ w.flags)
          × ((update_state to_rs source online w ex r).0.inv ≡ w.inv)
    unfolding update_state
    update_state-Changes w ex r = (ground arith, ground arith)

    pub update_existing-Changes :
        (ex : Item) → AllChange (λ w r. update_existing to_rs source online w ex r)
    unfolding update_existing
    update_existing-Changes ex w r = go ex.source refl
      where
        go :
            (o : Option Source)
            → ex.source ≡ o
            → Changes w r (update_existing to_rs source online w ex r).0
        go none e = rw (update_existing, e) (refl, inl refl)
        go (some s) e = elim (Bool-cases (meta_eq ex.meta r.meta)) [
          | inl y ↦
              let (f, i) =
                update_state-Changes (set_enabled to_rs source online ex r.enabled w) ex r in
              rw (update_existing, e, y) (f, inl i)
          | inr n ↦ rw (update_existing, e, n) (add_remote-Changes w r)
        ]

    pub process_item-none :
        (existing : Dict OID Item) (w : World) (r : ReplicationInventoryItem)
        → get ⦃e = oid_eq⦄ r.oid existing ≡ none
        → process_item to_rs source online existing w r ≡ add_remote to_rs source online w r
    unfolding process_item
    process_item-none existing w r e = rw (e, process_item) refl

    pub process_item-Changes :
        (existing : Dict OID Item) → AllChange (process_item to_rs source online existing)
    unfolding process_item
    process_item-Changes existing w r = go (get ⦃e = oid_eq⦄ r.oid existing) refl
      where
        go :
            (o : Option Item)
            → get ⦃e = oid_eq⦄ r.oid existing ≡ o
            → Changes w r (process_item to_rs source online existing w r).0
        go (some ex) e = rw (process_item, e) (update_existing-Changes ex w r)
        go none e = rw (process_item-none existing w r e) (add_remote-Changes w r)

    checked-from_repl_item :
        (r : ReplicationInventoryItem) (addr : ℕ) {x : Error}
        → check_state r ≡ true
        → from_repl_item r source addr ≡ err x
        → ⊥
    unfolding check_state from_repl_item
    checked-from_repl_item r addr h e = ground (arith, h, e)

    -- an item that passes the check is put into the inventory
    pub IsPut-add_remote :
        (w : World) (r : ReplicationInventoryItem)
        → check_state r ≡ true
        → (item : Item) × IsPut w r item (add_remote to_rs source online w r).0
    IsPut-add_remote w r h = go (from_repl_item r source w.next) refl
      where
        go :
            (o : EResult (Item × ItemCell))
            → from_repl_item r source w.next ≡ o
            → (item : Item) × IsPut w r item (add_remote to_rs source online w r).0
        go (ok (item, cell)) e = (
          item,
          record {
            own = from_repl_item-oid r source w.next e;
            put = rw (world-add_remote w r) (inv-append_remote_item w r source e);
          },
        )
        go (err x) e = absurd (checked-from_repl_item r w.next h e)
