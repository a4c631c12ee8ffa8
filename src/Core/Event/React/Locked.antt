-- ===== src/Core/Event/React/Locked.antt =====
-- `process_modified` of eva/src/core.rs in a bulk of raw events: the lock of the state processor.
use eva.Base.{
  ℕ, ◌+◌, arith, String, Option, none, some, Bool, true, false, is_some, subst, sym, if◌then◌else◌,
  ◌≡◌, refl, EResult, ok, err, List, [], ◌∷◌,
}
use eva.Base.Eq.{nat-Eq}
use eva.Common.{Common, ItemKind}
use eva.Items.State.{ItemState, RawStateEvent}
use eva.Items.Data.{Item, ItemConfigData, split, from_raw_event, check_item_data}
use eva.Items.Inventory.{World, get_item, append_item_from_config_data}
use eva.Items.ItemMap.View.{IsWfMap, append_lem}
use eva.Items.Inventory.Refines.{append_item_eq}
use eva.Items.Inventory.Refines.{append_item_eq}
use eva.Core.{InstantSave, Announced}
use eva.Core.Deploy.{
  Storage, stored, announce, deploy_each, deployed_bulk, append_all, deploy_local_items,
}
use eva.Core.Event.{SetOtherValueDelta}
use eva.Core.Event.React.{
  Run, waits, announced_turn, deploy, is_dated, apply_delta, auto_create_item_from_raw,
  set_other_delta,
}
use eva.Core.Event.React.Reaction.{HasEnded}

module _ ⦃c : Common⦄ (allowed : Bool) (save : InstantSave) (boot_id : ℕ) (clock : ℕ → ℕ × c.F64)
    (storage : Storage) (is_zero : c.F64 → Bool) (sender : String) where
  open c use {kind, F64, Force}

  abbrev HasAnnounced : World × List Announced × EResult (Unit {0}) → Type 0
  HasAnnounced (w, [], r) = ⊥
  HasAnnounced (w, a ∷ more, r) = Unit

  checked_ok :
      (config : ItemConfigData)
      → kind config.oid ≡ ItemKind.sensor
      → config.action ≡ none
      → check_item_data (kind config.oid) config.action config.logic ≡ ok tt
  unfolding check_item_data
  checked_ok config k n = rw (k, n) refl

  -- a sensor that is made has a state
  made_ok :
      (w : World) (config : ItemConfigData) (ns : ℕ) (now : F64)
      → IsWfMap w.inv.items
      → kind config.oid ≡ ItemKind.sensor
      → config.action ≡ none
      → let r = append_item_from_config_data w config boot_id ns now in
        let item : Item = (split config w.next).0 in
        (r.1 ≡ ok item) × (is_some (r.0.cells item.addr).state ≡ true)
  unfolding append_item_from_config_data split
  made_ok w config ns now v k n =
      let item : Item = (split config w.next).0 in
      let made = (append_lem w.inv.items v item true (ground arith)).0 in
      let fits = append_item_eq w.inv item true made in
      let h = checked_ok config k n in
      (
        rw (append_item_from_config_data, h, fits) refl,
        rw (append_item_from_config_data, h, k) (ground arith),
      )

  announced-HasAnnounced :
      (item : Item) (o : Option ItemState) (w : World) (r : EResult (Unit {0}))
      → is_some o ≡ true
      → r ≡ ok tt
      → HasAnnounced (
          stored storage save boot_id clock r w
            (announce storage save boot_id clock item o)
            (w, [], ok tt))
  announced-HasAnnounced item (some st) w (ok x) h e = tt
  announced-HasAnnounced item (some st) w (err f) h e = cc
  announced-HasAnnounced item none w r h e = cc

  -- a sensor that is made announces its state
  deploy_each-HasAnnounced :
      (at : ℕ → ℕ × F64) (w : World) (config : ItemConfigData)
      → IsWfMap w.inv.items
      → ((item : Item) → storage.save_item_config item ≡ ok tt)
      → kind config.oid ≡ ItemKind.sensor
      → config.action ≡ none
      → HasAnnounced (deploy_each storage save boot_id at 0 w (config ∷ []))
  unfolding deploy_each
  deploy_each-HasAnnounced at w config v s k n =
      let (e, some_state) = made_ok w config (at 0).0 (at 0).1 v k n in
      let item : Item = (split config w.next).0 in
      rw (deploy_each, e)
        (announced-HasAnnounced item _ _ (storage.save_item_config item) some_state (s item))

  deploy-HasAnnounced :
      (run : Run) (config : ItemConfigData)
      → IsWfMap run.world.inv.items
      → storage.is_initialized ≡ false
      → ((item : Item) → storage.save_item_config item ≡ ok tt)
      → kind config.oid ≡ ItemKind.sensor
      → config.action ≡ none
      → HasAnnounced (deploy save boot_id clock storage is_zero allowed sender run (config ∷ []))
  unfolding deploy_local_items
  deploy-HasAnnounced run config v i s k n =
      let at : ℕ → ℕ × F64 = λ m. clock (run.calls + m) in
      subst
        (λ (b : Bool). HasAnnounced (
          if b
          then deployed_bulk storage save boot_id at
              (append_all storage save boot_id at 0 run.world (config ∷ []))
          else deploy_each storage save boot_id at 0 run.world (config ∷ [])))
        (sym i) (deploy_each-HasAnnounced at run.world config v s k n)

  announced_turn-waits :
      (run : Run) (r : World × List Announced × EResult (Unit {0}))
      → HasAnnounced r
      → announced_turn save boot_id clock storage is_zero allowed sender true run r ≡ waits r.0
  announced_turn-waits run (w, a ∷ more, r) h = refl
  announced_turn-waits run (w, [], r) h = absurd h

  -- In a bulk, whose handler holds the lock of the state processor, the reaction by a delta to a
  -- dated event, for a sensor that is not known, does not end if the sender may create items, the
  -- delta is not skipped, the item map is well-formed and configurations are stored in a registry
  -- that does not fail: it waits for the lock that the handler holds.
  pub set_other_delta-waits :
      (run : Run) (o : SetOtherValueDelta) (delta : F64) (force : Force) (t : Option F64)
      (raw : RawStateEvent)
      → IsWfMap run.world.inv.items
      → storage.is_initialized ≡ false
      → ((item : Item) → storage.save_item_config item ≡ ok tt)
      → allowed ≡ true
      → kind o.oid ≡ ItemKind.sensor
      → get_item run.world.inv o.oid ≡ none
      → apply_delta delta o.on_negative force t ≡ some raw
      → is_dated save boot_id clock storage is_zero allowed sender raw.t ≡ true
      → HasEnded (
          set_other_delta save boot_id clock storage is_zero allowed sender true run o delta force
            t)
      → ⊥
  unfolding set_other_delta auto_create_item_from_raw from_raw_event
  set_other_delta-waits run o delta force t raw v i s y k g a d h =
      let config : ItemConfigData = from_raw_event o.oid raw sender in
      let e : set_other_delta save boot_id clock storage is_zero allowed sender true run o delta
            force t
          ≡ waits (deploy save boot_id clock storage is_zero allowed sender run (config ∷ [])).0 =
        rw (set_other_delta, g, a, y, auto_create_item_from_raw, d)
          (announced_turn-waits run _ (deploy-HasAnnounced run config v i s k (rw k refl))) in
      subst HasEnded e h
