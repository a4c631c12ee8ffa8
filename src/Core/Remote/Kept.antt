-- ===== src/Core/Remote/Kept.antt =====
-- `process_remote_inventory` of eva/src/core.rs: what its loops over the remote items leave at an
-- OID.
use eva.Base.{
  some, Bool, true, false, if◌then◌else◌, ◌≡◌, refl, sym, ◌∙◌, ap, is_some, List, [], ◌∷◌, EResult,
  subst, arith, Bool-cases, inl, inr,
}
use eva.Base.Eq.{◌==◌, beq_refl}
use eva.Base.Lists.{In, here, there}
use eva.Common.{Common, oid-Eq}
use eva.Items.State.{ReplicationState}
use eva.Items.Data.{Item, Source, ReplicationInventoryItem}
use eva.Items.ItemMap.View.{IsWfMap}
use eva.Items.Inventory.{World, Inventory, get_item}
use eva.Core.Remote.{each}
use eva.Core.Remote.Changes.{append_item-found, IsPut, Changes, Step, AllChange}

module _ ⦃c : Common⦄ where
  open c use {OID, oid_eq}

  module _ (oid : OID) where
    put-found :
        (w : World) (r : ReplicationInventoryItem) (item : Item) (w' : World)
        → IsWfMap w.inv.items
        → IsPut w r item w'
        → IsWfMap w'.inv.items
          × (get_item w'.inv oid ≡ (if r.oid == oid then some item else get_item w.inv oid))
    put-found w r item w' v p =
        let (v', found) = append_item-found w.inv item v in
        subst
          (λ (x : Inventory).
            IsWfMap x.items
            × (get_item x oid ≡ (if r.oid == oid then some item else get_item w.inv oid)))
          (sym p.put)
          (
            v',
            found oid ∙ ap (λ (i : OID). if i == oid then some item else get_item w.inv oid) p.own,
          )

    abbrev pub Has : World → Type 0
    Has w = is_some (get_item w.inv oid) ≡ true

    -- a step on another item keeps what is found at the OID
    step-keeps :
        (w : World) (r : ReplicationInventoryItem) (w' : World)
        → IsWfMap w.inv.items
        → (r.oid == oid) ≡ false
        → Changes w r w'
        → IsWfMap w'.inv.items × (get_item w'.inv oid ≡ get_item w.inv oid)
    step-keeps w r w' v n (f, inl e) =
        subst (λ (x : Inventory). IsWfMap x.items × (get_item x oid ≡ get_item w.inv oid)) (sym e)
          (v, refl)
    step-keeps w r w' v n (f, inr (item, p)) =
        let (v', found) = put-found w r item w' v p in (v', found ∙ rw n refl)

    -- and no step takes an item away
    step-Has :
        (w : World) (r : ReplicationInventoryItem) (w' : World)
        → IsWfMap w.inv.items
        → Changes w r w'
        → IsWfMap w'.inv.items × (Has w → Has w')
    step-Has w r w' v (f, inl e) =
        subst (λ (x : Inventory). IsWfMap x.items × (Has w → is_some (get_item x oid) ≡ true))
          (sym e) (v, λ h. h)
    step-Has w r w' v (f, inr (item, p)) =
        let (v', found) = put-found w r item w' v p in (v', λ h. ground (arith, found, h))

    -- no item of a list has the OID
    abbrev pub Absent : List ReplicationInventoryItem → Type 0
    Absent [] = Unit
    Absent (r ∷ rest) = ((r.oid == oid) ≡ false) × Absent rest

    module _ (to_rs : ReplicationInventoryItem → EResult ReplicationState) (source : Source)
        (online : Bool) (step : Step) (k : AllChange step) where
      pub each-keeps :
          (rs : List ReplicationInventoryItem) (w : World)
          → Absent rs
          → IsWfMap w.inv.items
          → get_item (each to_rs source online step w rs).0.inv oid ≡ get_item w.inv oid
      unfolding each
      each-keeps [] w a v = refl
      each-keeps (r ∷ rest) w a v = elim (Bool-cases (w.flags source.addr).destroyed) [
        | inl y ↦ rw y refl
        | inr n ↦
            let (v', e) = step-keeps w r (step w r).0 v a.0 (k w r) in
            rw n (each-keeps rest (step w r).0 a.1 v' ∙ e)
      ]

      pub each-Has :
          (rs : List ReplicationInventoryItem) (w : World)
          → IsWfMap w.inv.items
          → Has w
          → Has (each to_rs source online step w rs).0
      unfolding each
      each-Has [] w v h = h
      each-Has (r ∷ rest) w v h = elim (Bool-cases (w.flags source.addr).destroyed) [
        | inl y ↦ rw y h
        | inr n ↦
            let (v', e) = step-Has w r (step w r).0 v (k w r) in
            rw n (each-Has rest (step w r).0 v' (e h))
      ]

      -- an item that its step puts into the inventory is there after the loop
      pub each-put :
          (r : ReplicationInventoryItem) (rs : List ReplicationInventoryItem) (w : World)
          → r.oid ≡ oid
          → ((u : World) → (item : Item) × IsPut u r item (step u r).0)
          → In r rs
          → IsWfMap w.inv.items
          → (w.flags source.addr).destroyed ≡ false
          → Has (each to_rs source online step w rs).0
      unfolding each
      each-put r [] w e p i v d = elim i [ ]
      each-put r (s ∷ rest) w e p (here q) v d =
          let (item, put) = p w in
          let (v', found) = put-found w r item (step w r).0 v put in
          let h : Has (step w r).0 = rw (found, e, beq_refl ⦃e = oid_eq⦄ oid) refl in
          rw (d, q) (each-Has rest (step w r).0 v' h)
      each-put r (s ∷ rest) w e p (there i) v d =
          let (v', same) = step-Has w s (step w s).0 v (k w s) in
          rw d (
            each-put r rest (step w s).0 e p i v'
              (ap (λ (x : _). (x source.addr).destroyed) (k w s).0 ∙ d))
