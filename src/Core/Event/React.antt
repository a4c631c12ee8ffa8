-- ===== src/Core/Event/React.antt =====
-- `process_modified` of eva/src/core.rs, with the handlers of raw events around it. The clock is a
-- sequence of readings, one for each call of `process_raw_state` and for each item that is made.
pub mod Local
pub mod Reaction
pub mod Bulk
pub mod Locked
use eva.Base.{
  ℕ, suc, ◌+◌, String, Option, none, some, Bool, true, false, not, ◌&&◌, if◌then◌else◌, EResult, ok,
  err, not_implemented, not_found, List, [], ◌∷◌, ◌++◌,
}
use eva.Base.Int.{ℤ, pos, negsuc}
use eva.Common.{Common, ItemKind, kind_eq}
use eva.Items.State.{ItemState, RawStateEvent}
use eva.Items.Data.{Item, ItemConfigData, from_raw_event}
use eva.Items.Filter.{Filter, any_item, local}
use eva.Items.Inventory.{World, get_item, get_items_by_mask}
use eva.Base.Lists.{length}
use eva.Core.{InstantSave, Announced}
use eva.Core.Deploy.{Storage, deploy_local_items}
use eva.Core.Event.{
  OnModified, OnModifiedError, OnNegativeDelta, SetOther, SetOtherValueDelta, Processed, set_other,
  set_other_value_delta, set_raw_state,
}

module _ ⦃c : Common⦄ where
  open c use {OID, OIDMask, kind, Value, value_f64, F64, f64_zero, f64_lt, Force}

  -- the events that were taken, what new items announced, and the number of readings of the clock
  pub record Run : Type 0 where
    pub world : World
    pub taken : List Processed
    pub deployed : List Announced
    pub calls : ℕ

  -- A handler ends, or waits for ever in a world, where it locks `state_processor_lock`, a mutex of
  -- tokio, while its caller holds it.
  pub data Turn : Type 0 where
    done : Run → Turn
    waits : World → Turn

  abbrev pub world_of : Turn → World
  world_of (done run) = run.world
  world_of (waits w) = w

  abbrev pub and_then : Turn → (Run → Turn) → Turn
  and_then (done run) go = go run
  and_then (waits w) go = waits w

  -- a RawStateEventOwned for an OID
  pub record RawEvent : Type 0 where
    pub oid : OID
    pub raw : RawStateEvent
    pub on_modified : Option OnModified

  -- an event of status and value alone
  abbrev plain : ℤ → Option Value → Force → Option F64 → RawStateEvent
  plain status value force t = record {
    status = status;
    value = value;
    status_compare = none;
    value_compare = none;
    status_else = none;
    value_else = none;
    t = t;
    force = force;
  }

  -- `ev!`
  abbrev delta_event : Force → Option F64 → F64 → RawStateEvent
  delta_event force t delta = plain (pos 1) (some (value_f64 delta)) force t

  -- `apply_delta!`
  unfoldable pub apply_delta : F64 → OnNegativeDelta → Force → Option F64 → Option RawStateEvent
  apply_delta delta OnNegativeDelta.skip force t =
      if f64_lt delta f64_zero then none else some (delta_event force t delta)
  apply_delta delta OnNegativeDelta.reset force t =
      some (delta_event force t (if f64_lt delta f64_zero then f64_zero else delta))
  apply_delta delta _ force t = some (delta_event force t delta)

  -- `status <= ITEM_STATUS_ERROR`, which is -1
  abbrev is_failed : ℤ → Bool
  is_failed (pos n) = false
  is_failed (negsuc n) = true

  -- the event for an item with a state
  unfoldable pub delta_reaction :
      SetOtherValueDelta → F64 → Force → Option F64 → Option ItemState → Option RawStateEvent
  unfolding apply_delta
  delta_reaction o delta force t none = none
  delta_reaction o delta force t (some s) =
      if not (is_failed s.status)
      then apply_delta delta o.on_negative force t
      else elim o.on_error [
        | OnModifiedError.skip ↦ none
        | OnModifiedError.reset ↦ some (delta_event force t f64_zero)
        | OnModifiedError.process ↦ apply_delta delta o.on_negative force t
      ]

  module _ (save : InstantSave) (boot_id : ℕ) (clock : ℕ → ℕ × F64) where
    -- an event without a reaction, whose errors are logged
    abbrev pub logged : Run → World × EResult (Option Processed) → Run
    logged run (w, ok (some p)) = record run {
      world = w;
      taken = run.taken ++ (p ∷ []);
      calls = suc run.calls;
    }
    logged run (w, ok none) = record run { world = w; calls = suc run.calls }
    logged run (w, err e) = record run { world = w; calls = suc run.calls }

    unfoldable pub take_event : Run → Item → RawStateEvent → Option OnModified → Run
    unfolding set_raw_state
    take_event run item raw om =
        let (ns, now) = clock run.calls in
        logged run (set_raw_state run.world save item raw om boot_id ns now)

    unfoldable pub take_all : Run → List Item → RawStateEvent → Run
    unfolding take_event
    take_all run [] raw = run
    take_all run (item ∷ rest) raw = take_all (take_event run item raw none) rest raw

    -- the loops over the masks, and over the local items of each
    unfoldable pub set_others : Run → List OIDMask → RawStateEvent → Run
    unfolding take_all
    set_others run [] raw = run
    set_others run (mask ∷ rest) raw =
        set_others
          (take_all run
            (get_items_by_mask run.world.inv mask (record any_item { node = some local }) false)
            raw)
          rest raw

    abbrev pub take_some : Run → Item → Option RawStateEvent → Run
    take_some run item none = run
    take_some run item (some raw) = take_event run item raw none

    module _ (storage : Storage) (is_zero : F64 → Bool) (allowed : Bool) (sender : String) where
      -- the world, the announcements and the result of `deploy_local_items` from here
      abbrev pub deploy : Run → List ItemConfigData → World × List Announced × EResult (Unit {0})
      deploy run configs =
          deploy_local_items storage save boot_id (λ n. clock (run.calls + n)) run.world configs

      abbrev pub with_deployed : Run → ℕ → World × List Announced × EResult (Unit {0}) → Run
      with_deployed run n (w, announced, r) = record run {
        world = w;
        deployed = run.deployed ++ announced;
        calls = run.calls + n;
      }

      -- An item is deployed that locks the state processor before it announces a state; an error is
      -- logged.
      abbrev pub announced_turn : Bool → Run → World × List Announced × EResult (Unit {0}) → Turn
      announced_turn held run (w, [], r) = done (with_deployed run 1 (w, [], r))
      announced_turn true run (w, a ∷ more, r) = waits w
      announced_turn false run (w, a ∷ more, r) = done (with_deployed run 1 (w, a ∷ more, r))

      abbrev pub is_dated : Option F64 → Bool
      is_dated none = true
      is_dated (some t) = not (is_zero t)

      -- `auto_create_item_from_raw`: not for an event of time 0; `held` tells whether the caller has
      -- locked the state processor
      unfoldable pub auto_create_item_from_raw : Bool → Run → OID → RawStateEvent → Turn
      unfolding deploy_local_items
      auto_create_item_from_raw held run oid raw =
          if is_dated raw.t
          then announced_turn held run (deploy run (from_raw_event oid raw sender ∷ []))
          else done run

      abbrev pub created : Bool → Run → OID → Option RawStateEvent → Turn
      created held run oid none = done run
      created held run oid (some raw) =
          if allowed then auto_create_item_from_raw held run oid raw else done run

      unfoldable pub set_other_delta :
          Bool → Run → SetOtherValueDelta → F64 → Force → Option F64 → Turn
      unfolding take_event delta_reaction auto_create_item_from_raw
      set_other_delta held run o delta force t = elim (get_item run.world.inv o.oid) [
        | some item ↦
            done (
              take_some run item (delta_reaction o delta force t (run.world.cells item.addr).state))
        | none ↦ created held run o.oid (apply_delta delta o.on_negative force t)
      ]

      unfoldable pub process_modified :
          Bool → Run → OnModified → Bool → Force → Option F64 → Option F64 → Turn
      unfolding set_others set_other_delta
      process_modified held run (set_other o) really_modified force delta t =
          if really_modified
          then done (set_others run o.masks (plain o.status o.value force t))
          else done run
      process_modified held run (set_other_value_delta o) really_modified force none t = done run
      process_modified held run (set_other_value_delta o) really_modified force (some delta) t =
          set_other_delta held run o delta force t

      abbrev pub reacted : Bool → Run → Option OnModified → RawStateEvent → Option Processed → Turn
      reacted held run (some om) raw (some p) =
          process_modified held run om p.really_modified raw.force p.delta raw.t
      reacted held run _ raw _ = done run

      abbrev pub answered :
          Bool
          → Run
          → Option OnModified
          → RawStateEvent
          → World × EResult (Option Processed)
          → Turn × EResult (Unit {0})
      answered held run om raw (w, ok p) = (reacted held (logged run (w, ok p)) om raw p, ok tt)
      answered held run om raw (w, err e) = (done (logged run (w, err e)), err e)

      -- `process_raw_state`, with the lock held by its caller (`lock` is false) or not; the result
      -- counts only if it ends
      unfoldable pub process_raw_state :
          Bool → Run → Item → RawStateEvent → Option OnModified → Turn × EResult (Unit {0})
      unfolding set_raw_state process_modified
      process_raw_state held run item raw om =
          let (ns, now) = clock run.calls in
          answered held run om raw (set_raw_state run.world save item raw om boot_id ns now)

      unfoldable pub update_state_from_raw : Run → RawEvent → Turn × EResult (Unit {0})
      unfolding process_raw_state auto_create_item_from_raw
      update_state_from_raw run ev =
          if kind_eq (kind ev.oid) ItemKind.lmacro
          then (done run, err not_implemented)
          else elim (get_item run.world.inv ev.oid) [
            | some item ↦ process_raw_state false run item ev.raw ev.on_modified
            | none ↦
                if allowed
                then (auto_create_item_from_raw false run ev.oid ev.raw, ok tt)
                else (done run, err not_found)
          ]

      -- an event of the bulk: one for the item that was found, or a configuration for a new one
      abbrev pub sorted :
          RawEvent
          → Option Item
          → List (Item × RawEvent) × List ItemConfigData
          → List (Item × RawEvent) × List ItemConfigData
      sorted ev (some item) (known, missing) = ((item, ev) ∷ known, missing)
      sorted ev none (known, missing) =
          (known, (if allowed then from_raw_event ev.oid ev.raw sender ∷ [] else []) ++ missing)

      unfoldable pub sort_events :
          World → List RawEvent → List (Item × RawEvent) × List ItemConfigData
      sort_events w [] = ([], [])
      sort_events w (ev ∷ rest) =
          let more = sort_events w rest in
          if kind_eq (kind ev.oid) ItemKind.lmacro
          then more
          else sorted ev (get_item w.inv ev.oid) more

      -- the loop of the bulk, which holds the lock
      unfoldable pub process_events : Run → List (Item × RawEvent) → Turn
      unfolding process_raw_state
      process_events run [] = done run
      process_events run ((item, ev) ∷ rest) =
          and_then (process_raw_state true run item ev.raw ev.on_modified).0
            (λ next. process_events next rest)

      -- `auto_create_item_from_raw_bulk`, which does not lock
      unfoldable pub auto_create_item_from_raw_bulk : Run → List ItemConfigData → Turn
      unfolding deploy_local_items
      auto_create_item_from_raw_bulk run configs =
          done (with_deployed run (length configs) (deploy run configs))

      abbrev pub missing_created : List ItemConfigData → Run → Turn
      missing_created [] run = done run
      missing_created (config ∷ rest) run = auto_create_item_from_raw_bulk run (config ∷ rest)

      unfoldable pub update_state_from_raw_bulk : Run → List RawEvent → Turn
      unfolding sort_events process_events auto_create_item_from_raw_bulk
      update_state_from_raw_bulk run events =
          let (known, missing) = sort_events run.world events in
          and_then (process_events run known) (missing_created missing)
