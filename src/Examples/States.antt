-- ===== src/Examples/States.antt =====
-- The states of items: a sensor with a range, whose value is 5 or 50, and a counter.
use eva.Base.{[], ℕ, Option, none, some, true, false, ◌≡◌, ok, nat_eq, arith}
use eva.Base.Int.{pos, int_eq, succ_int, pred_int}
use eva.Common.{ItemKind}
use eva.Items.State.{ItemState, Logic, RawStateEvent, set_from_raw}
use eva.Items.State.Raw.{IsConsistent, set_from_raw-IsConsistent}
use eva.Items.Data.{Item}
use eva.Items.Inventory.{World, empty_inventory, fresh_flags}
use eva.Core.{InstantSave, LvarOp, apply_op, i64_max, i64_min, prepare_state_data}
use eva.Core.Deploy.{Storage}
use eva.Core.Event.{Processed}
use eva.Core.Event.React.{Run}
use eva.Core.Lvars.{IsI64, apply_op-IsI64}
use eva.Base.Eq.{string-Eq}
use eva.Examples.Sample.{sample, sample-RangesRespectEq}

abbrev good : ItemState
good = record { status = pos 1; value = some 5; act = none; ieid = (1, 1); t = 10 }

abbrev up_to_ten : Option Logic
up_to_ten = some (record { range = some 10 })

abbrev reading : ℕ → RawStateEvent
reading v = record {
  status = pos 1;
  value = some (some v);
  status_compare = none;
  value_compare = none;
  status_else = none;
  value_else = none;
  t = none;
  force = 0;
}

set_from_raw-IsConsistent_example :
    IsConsistent up_to_ten (set_from_raw good (reading 50) up_to_ten 1 2 20).0
set_from_raw-IsConsistent_example =
    set_from_raw-IsConsistent sample-RangesRespectEq good (reading 50) up_to_ten 1 2 20

apply_op-IsI64_example :
    ((out : Option ℕ)
      → (apply_op LvarOp.increment good (1, 2) 20).1 ≡ ok (some out)
      → ((apply_op LvarOp.increment good (1, 2) 20).0.value ≡ out)
        × (out ≡ sample.value_i64 (succ_int (pos 5)))
        × IsI64 (succ_int (pos 5)))
    × ((out : Option ℕ)
        → (apply_op LvarOp.decrement good (1, 2) 20).1 ≡ ok (some out)
        → ((apply_op LvarOp.decrement good (1, 2) 20).0.value ≡ out)
          × (out ≡ sample.value_i64 (pred_int (pos 5)))
          × IsI64 (pred_int (pos 5)))
    × ((int_eq (pos 5) i64_max ≡ true) → (apply_op LvarOp.increment good (1, 2) 20).0 ≡ good)
    × ((int_eq (pos 5) i64_min ≡ true) → (apply_op LvarOp.decrement good (1, 2) 20).0 ≡ good)
apply_op-IsI64_example = apply_op-IsI64 good (1, 2) 20 (omega arith)

abbrev temp : Item
temp = record {
  addr = 1;
  oid = (ItemKind.sensor, "room/temp");
  meta = none;
  source = none;
  logic = up_to_ten;
  action = none;
}

abbrev world : World
world = record {
  inv = empty_inventory;
  cells = λ a. record { state = some good; enabled = nat_eq a 1 };
  flags = λ a. fresh_flags;
  next = 2;
}

abbrev seen : Processed
seen = record {
  announced =
      prepare_state_data (InstantSave.always true) temp
        (record { status = pos 1; value = some 6; act = none; ieid = (1, 2); t = 20 });
  really_modified = true;
  delta = none;
}

abbrev files : Storage
files = record {
  is_initialized = false;
  save_items_bulk = λ items. ok tt;
  save_item_config = λ item. ok tt;
}

abbrev start : Run
start = record { world = world; taken = []; deployed = []; calls = 0 }
