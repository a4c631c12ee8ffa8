-- ===== src/Examples/Parsed.antt =====
-- Two groups of parsers for one sensor, of which the second takes no events.
use eva.Base.{ℕ, ◌+◌, true, false, none, some, ok, ◌≡◌, List, [], ◌∷◌}
use eva.Base.Int.{pos}
use eva.Common.{ItemKind}
use eva.Examples.Sample.{Oid, sample}
use eva.Logic.{StateX}
use eva.Logic.Parsers.{ParserSdk, ParserItem, ParserGroup, new, on_state_event}
use eva.Logic.Parsers.Indexed.{all_messages, on_state_event-new}

abbrev sdk : ParserSdk
sdk = record {
  Task = ℕ;
  jp_lookup = λ v p. ok (some v);
  to_string = λ v. "";
  transform = λ ts target n. ok (n + 1);
}

abbrev meter : Oid
meter = (ItemKind.sensor, "hall/meter")

abbrev raised : ParserItem sdk
raised = record {
  oid = meter;
  entries =
      record {
        path = "$.";
        target = (ItemKind.sensor, "hall/next");
        value_map = [];
        tasks = 1 ∷ [];
      }
      ∷ [];
}

abbrev groups : List (ParserGroup sdk)
groups =
    record { ignore_events = false; interval = none; items = raised ∷ [] }
    ∷ record { ignore_events = true; interval = some 10; items = raised ∷ [] }
    ∷ []

abbrev reading : StateX
reading = record { status = pos 1; value = some 41; act = none }

on_state_event-new_example :
    on_state_event sdk (new sdk groups) meter reading ≡ some (all_messages sdk meter reading groups)
on_state_event-new_example = on_state_event-new sdk meter reading groups
