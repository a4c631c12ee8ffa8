-- ===== src/Examples/Replicated.antt =====
-- The state of a remote unit under events of its node, a newer and an older one.
use eva.Base.{ℕ, true, false, none, some, ◌≡◌, refl, EResult, ok, [], ◌∷◌, arith}
use eva.Base.Int.{pos}
use eva.Base.Eq.{string-Eq}
use eva.Base.Dict.{Dict, contains_key}
use eva.Base.Lists.{In}
use eva.Common.{ItemKind}
use eva.Items.State.{ItemState, ReplicationState}
use eva.Items.Data.{Item, Source, ReplicationInventoryItem}
use eva.Items.Inventory.{
  World, empty_inventory, fresh_flags, get_item, append_item, get_or_create_source, create_source,
}
use eva.Items.ItemMap.View.{get-empty_map}
use eva.Items.Inventory.Refines.{IsIndexed, empty_inventory-IsIndexed, append_item-IsIndexed}
use eva.Core.Replicated.{ReplicationStateEvent, receive, receive_lem}
use eva.Core.Locks.{locked}
use eva.Core.Remote.{process_remote_inventory}
use eva.Core.Remote.Synced.{Synced, process_remote_inventory-Synced}
use eva.Examples.Sample.{Oid, sample}

abbrev plant : Source
plant = record { addr = 7; node = "plant"; svc = "eva.repl.1" }

abbrev lamp_oid : Oid
lamp_oid = (ItemKind.unit, "hall/lamp")

abbrev lamp : Item
lamp = record {
  addr = 2;
  oid = lamp_oid;
  meta = none;
  source = some plant;
  logic = none;
  action = none;
}

abbrev before : ItemState
before = record { status = pos 0; value = none; act = some 0; ieid = (1, 5); t = 10 }

abbrev sent : ℕ → ReplicationState
sent n = record { status = pos 1; value = some n; act = some 0; ieid = (1, n); t = 20 }

abbrev newer : ReplicationStateEvent
newer = record { node = "plant"; state = sent 9; force_accept = false }

abbrev world : World
world = record {
  inv = (append_item empty_inventory lamp false).0;
  cells = λ a. record { state = some before; enabled = true };
  flags = λ a. fresh_flags;
  next = 8;
}

empty_item : (oid : Oid) → get_item empty_inventory oid ≡ none
unfolding get_item
empty_item oid = get-empty_map oid

get-lamp : get_item world.inv lamp_oid ≡ some lamp
get-lamp =
    let (_, v, found) =
      append_item-IsIndexed empty_inventory empty_inventory-IsIndexed lamp false
        (rw (empty_item lamp_oid) refl) (rw (empty_item lamp_oid) refl) in
    found lamp_oid

ieid_irreflexive : (i : ℕ × ℕ) → sample.ieid_lt i i ≡ false
ieid_irreflexive i = ground arith

ieid_transitive :
    (i j k : ℕ × ℕ)
    → sample.ieid_lt i j ≡ true
    → sample.ieid_lt j k ≡ true
    → sample.ieid_lt i k ≡ true
ieid_transitive i j k g h = ground (arith, g, h)

receive_lem_example :
    (sample.ieid_lt (receive before (sent 9 ∷ sent 7 ∷ [])).ieid (1, 5) ≡ false)
    × ((rpl : ReplicationState)
        → In rpl (sent 9 ∷ sent 7 ∷ [])
        → sample.ieid_lt (receive before (sent 9 ∷ sent 7 ∷ [])).ieid rpl.ieid ≡ false)
receive_lem_example = receive_lem ieid_irreflexive ieid_transitive before (sent 9 ∷ sent 7 ∷ [])

abbrev temp_oid : Oid
temp_oid = (ItemKind.sensor, "hall/temp")

abbrev temp : ReplicationInventoryItem
temp = record {
  oid = temp_oid;
  act = none;
  enabled = true;
  ieid = some (1, 6);
  meta = none;
  status = some (pos 1);
  value = some (some 20);
  t = some 12;
}

abbrev listed : Dict Oid ReplicationInventoryItem
listed = (temp_oid, temp) ∷ []

abbrev rs_of : ReplicationInventoryItem → EResult ReplicationState
rs_of r = ok (sent 9)

world-IsIndexed : IsIndexed world.inv
world-IsIndexed =
    (append_item-IsIndexed empty_inventory empty_inventory-IsIndexed lamp false
      (rw (empty_item lamp_oid) refl) (rw (empty_item lamp_oid) refl)).1

in_use :
    let (w', source) = get_or_create_source world "plant" "eva.repl.1" in
    (w'.flags source.addr).destroyed ≡ false
unfolding get_or_create_source create_source
in_use = ground arith

-- the node has no lamp any more
process_remote_inventory-Synced_example :
    let p = process_remote_inventory rs_of world [] listed "plant" "eva.repl.1" false in
    (p.result ≡ ok tt)
    × (locked p.locks "plant" ≡ false)
    × Synced world.inv "plant" listed lamp_oid p.world
unfolding contains_key
process_remote_inventory-Synced_example =
    process_remote_inventory-Synced rs_of world [] listed "plant" "eva.repl.1" lamp_oid
      world-IsIndexed (refl, tt) refl refl in_use
