-- ===== src/Core/Deploy.antt =====
-- `deploy_local_items` of eva/src/core.rs. What stores the configurations is a parameter: the
-- inventory database, if there is one, which takes them all at once, or the registry.
pub mod Deployed
use eva.Base.{
  ℕ, suc, Option, none, some, Bool, true, false, if◌then◌else◌, EResult, ok, err, List, [], ◌∷◌,
  ◌++◌,
}
use eva.Common.{Common}
use eva.Items.State.{ItemState}
use eva.Items.Data.{Item, ItemConfigData}
use eva.Items.Inventory.{World, get_item, append_item_from_config_data}
use eva.Core.{Announced, InstantSave, prepare_state_data}

module _ ⦃c : Common⦄ where
  open c use {OID, F64}

  pub record Storage : Type 0 where
    -- `inventory_db::is_initialized`
    pub is_initialized : Bool
    -- `save_items_bulk`
    pub save_items_bulk : List Item → EResult (Unit {0})
    -- `save_item_config`, to the registry
    pub save_item_config : Item → EResult (Unit {0})

  module _ (storage : Storage) (save : InstantSave) (boot_id : ℕ) (clock : ℕ → ℕ × F64) where
    abbrev pub announce : Item → Option ItemState → List Announced
    announce item none = []
    announce item (some s) = prepare_state_data save item s ∷ []

    -- what the items at OIDs announce
    unfoldable pub announce_all : World → List Item → List Announced
    unfolding prepare_state_data
    announce_all w [] = []
    announce_all w (made ∷ rest) =
        let more = announce_all w rest in
        elim (get_item w.inv made.oid) [
          | none ↦ more
          | some item ↦ announce item (w.cells item.addr).state ++ more
        ]

    abbrev pub collected : Item → World × EResult (List Item) → World × EResult (List Item)
    collected item (w, ok items) = (w, ok (item ∷ items))
    collected item (w, err e) = (w, err e)

    -- the loop that makes the items; `n` counts the readings of the clock
    unfoldable pub append_all : ℕ → World → List ItemConfigData → World × EResult (List Item)
    unfolding append_item_from_config_data
    append_all n w [] = (w, ok [])
    append_all n w (config ∷ rest) =
        let (ns, now) = clock n in
        let (w', r) = append_item_from_config_data w config boot_id ns now in
        elim r [ err e ↦ (w', err e) | ok item ↦ collected item (append_all (suc n) w' rest) ]

    -- an item that was made at `w`, once it is stored, and the rest of the loop
    abbrev pub stored :
        EResult (Unit {0})
        → World
        → List Announced
        → World × List Announced × EResult (Unit {0})
        → World × List Announced × EResult (Unit {0})
    stored (err e) w announced rest = (w, [], err e)
    stored (ok _) w announced (w', more, last) = (w', announced ++ more, last)

    -- the loop of the registry: each item is stored and announced before the next is made
    unfoldable pub deploy_each :
        ℕ → World → List ItemConfigData → World × List Announced × EResult (Unit {0})
    unfolding append_item_from_config_data
    deploy_each n w [] = (w, [], ok tt)
    deploy_each n w (config ∷ rest) =
        let (ns, now) = clock n in
        let (w', r) = append_item_from_config_data w config boot_id ns now in
        elim r [
          | err e ↦ (w', [], err e)
          | ok item ↦
              stored (storage.save_item_config item) w' (announce item (w'.cells item.addr).state)
                (deploy_each (suc n) w' rest)
        ]

    abbrev pub deployed_bulk :
        World × EResult (List Item) → World × List Announced × EResult (Unit {0})
    deployed_bulk (w, err e) = (w, [], err e)
    deployed_bulk (w, ok items) = elim (storage.save_items_bulk items) [
      | err e ↦ (w, [], err e)
      | ok _ ↦ (w, announce_all w items, ok tt)
    ]

    unfoldable pub deploy_local_items :
        World → List ItemConfigData → World × List Announced × EResult (Unit {0})
    unfolding append_all deploy_each announce_all
    deploy_local_items w configs =
        if storage.is_initialized
        then deployed_bulk (append_all 0 w configs)
        else deploy_each 0 w configs
