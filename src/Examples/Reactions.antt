-- ===== src/Examples/Reactions.antt =====
-- A bulk of raw events: one for a local sensor, which asks to add the delta to a counter, and one for
-- a sensor that is not known.
use eva.Base.{◌∙◌, ℕ, ◌+◌, true, false, none, some, ◌≡◌, refl, ok, [], ◌∷◌, nat_eq}
use eva.Base.Int.{pos}
use eva.Common.{ItemKind}
use eva.Items.State.{ItemState, RawStateEvent}
use eva.Items.Data.{Item, ItemConfigData, from_raw_event}
use eva.Items.Inventory.{empty_inventory, fresh_flags, get_item, append_item}
use eva.Items.ItemMap.View.{get-empty_map}
use eva.Items.Inventory.Refines.{IsIndexed, empty_inventory-IsIndexed, append_item-IsIndexed}
use eva.Core.{InstantSave}
use eva.Core.Deploy.{Storage, deploy_local_items}
use eva.Core.Deploy.Deployed.{IsDeployed, deploy_local_items-IsDeployed}
use eva.Core.Event.{OnModifiedError, OnNegativeDelta, SetOtherValueDelta, set_other_value_delta}
use eva.Core.Event.React.{Run, RawEvent, apply_delta, set_other_delta, update_state_from_raw_bulk}
use eva.Core.Event.React.Locked.{set_other_delta-waits}
use eva.Core.Event.React.Reaction.{HasEnded, IsReaction}
use eva.Core.Event.React.Bulk.{update_state_from_raw_bulk-IsReaction}
use eva.Examples.Sample.{Oid, sample}

abbrev meter_oid : Oid
meter_oid = (ItemKind.sensor, "hall/meter")

abbrev meter : Item
meter = record {
  addr = 2;
  oid = meter_oid;
  meta = none;
  source = none;
  logic = none;
  action = none;
}

abbrev before : ItemState
before = record { status = pos 1; value = some 40; act = none; ieid = (1, 5); t = 10 }

abbrev run : Run
run = record {
  world = record {
    inv = (append_item empty_inventory meter false).0;
    cells = λ a. record { state = some before; enabled = true };
    flags = λ a. fresh_flags;
    next = 8;
  };
  taken = [];
  deployed = [];
  calls = 0;
}

empty_item : (oid : Oid) → get_item empty_inventory oid ≡ none
unfolding get_item
empty_item oid = get-empty_map oid

run-IsIndexed : IsIndexed run.world.inv
run-IsIndexed =
    (append_item-IsIndexed empty_inventory empty_inventory-IsIndexed meter false
      (rw (empty_item meter_oid) refl) (rw (empty_item meter_oid) refl)).1

abbrev value_of : ℕ → RawStateEvent
value_of v = record {
  status = pos 1;
  value = some (some v);
  status_compare = none;
  value_compare = none;
  status_else = none;
  value_else = none;
  t = none;
  force = 0;
}

abbrev to_total : SetOtherValueDelta
to_total = record {
  oid = (ItemKind.sensor, "hall/total");
  period = none;
  on_negative = OnNegativeDelta.skip;
  on_error = OnModifiedError.process;
}

abbrev measured : RawEvent
measured = record {
  oid = meter_oid;
  raw = value_of 42;
  on_modified = some (set_other_value_delta to_total);
}

abbrev unknown : RawEvent
unknown = record { oid = (ItemKind.sensor, "hall/door"); raw = value_of 1; on_modified = none }

abbrev registry : Storage
registry = record {
  is_initialized = false;
  save_items_bulk = λ items. ok tt;
  save_item_config = λ item. ok tt;
}

-- The counter is not known either: the bulk makes it, and waits for the lock it holds.
update_state_from_raw_bulk-IsReaction_example : IsReaction true run.world (
    update_state_from_raw_bulk
      (InstantSave.always false)
      1
      (λ n. (n, n + 100))
      registry
      (nat_eq 0)
      true
      "plc"
      run
      (measured ∷ unknown ∷ []))
update_state_from_raw_bulk-IsReaction_example =
    update_state_from_raw_bulk-IsReaction true (InstantSave.always false) 1 (λ n. (n, n + 100))
      registry (nat_eq 0) "plc" run (measured ∷ unknown ∷ []) run-IsIndexed.map

abbrev door : ItemConfigData
unfolding from_raw_event
door = from_raw_event (ItemKind.sensor, "hall/door") (value_of 1) "plc"

deploy_local_items-IsDeployed_example :
    let r =
      deploy_local_items registry
        (InstantSave.always false)
        1
        (λ n. (n, n + 100))
        run.world
        (door ∷ []) in
    IsDeployed (door ∷ []) run.world r.0 r.2
deploy_local_items-IsDeployed_example =
    deploy_local_items-IsDeployed registry (InstantSave.always false) 1 (λ n. (n, n + 100))
      run.world (door ∷ []) run-IsIndexed.map

total_unknown : get_item run.world.inv to_total.oid ≡ none
total_unknown =
    (append_item-IsIndexed empty_inventory empty_inventory-IsIndexed meter false
        (rw (empty_item meter_oid) refl) (rw (empty_item meter_oid) refl)).2
      to_total.oid
    ∙ empty_item to_total.oid

set_other_delta-waits_example :
    HasEnded (
      set_other_delta
        (InstantSave.always false)
        1
        (λ n. (n, n + 100))
        registry
        (nat_eq 0)
        true
        "plc"
        true
        run
        to_total
        2
        0
        none)
    → ⊥
unfolding apply_delta
set_other_delta-waits_example =
    set_other_delta-waits true (InstantSave.always false) 1 (λ n. (n, n + 100)) registry (nat_eq 0)
      "plc" run to_total 2 0 none (value_of 2) run-IsIndexed.map refl (λ item. refl) refl refl
      total_unknown refl refl
