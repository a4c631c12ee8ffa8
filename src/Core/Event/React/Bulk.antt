-- ===== src/Core/Event/React/Bulk.antt =====
-- `update_state_from_raw_bulk` of eva/src/core.rs, reactions and the creation of items included.
use eva.Base.{
  ℕ, String, Option, none, some, Bool, true, false, if◌then◌else◌, ◌≡◌, refl, List, [], ◌∷◌, inl,
  inr, Bool-cases,
}
use eva.Common.{Common, oid-Eq, ItemKind, kind_eq}
use eva.Items.Data.{Item, ItemConfigData, from_raw_event}
use eva.Items.ItemMap.View.{IsWfMap}
use eva.Items.Inventory.{World, Inventory, get_item}
use eva.Core.{InstantSave}
use eva.Core.Deploy.{Storage}
use eva.Core.Event.React.{
  Run, done, RawEvent, deploy, process_raw_state, sorted, sort_events, process_events,
  missing_created, auto_create_item_from_raw_bulk, update_state_from_raw_bulk,
}
use eva.Core.Event.React.Local.{IsRegistered}
use eva.Core.Event.React.Reaction.{
  IsReaction, IsReaction-then, and_then-IsReaction, AllNew, AllNew-append, deployed-IsReaction,
  deploy-IsDeployed, stay, process_raw_state-IsReaction,
}

module _ ⦃c : Common⦄ (allowed : Bool) (save : InstantSave) (boot_id : ℕ) (clock : ℕ → ℕ × c.F64)
    (storage : Storage) (is_zero : c.F64 → Bool) (sender : String) where
  open c use {OID, kind}

  abbrev AllRegistered : Inventory → List (Item × RawEvent) → Type 0
  AllRegistered inv [] = Unit
  AllRegistered inv ((item, ev) ∷ rest) = IsRegistered inv item × AllRegistered inv rest

  abbrev IsSorted : Inventory → List (Item × RawEvent) × List ItemConfigData → Type 0
  IsSorted inv (known, missing) = AllRegistered inv known × AllNew allowed inv missing

  if-AllNew :
      (b : Bool) (inv : Inventory) (config : ItemConfigData)
      → (b ≡ true → AllNew allowed inv (config ∷ []))
      → AllNew allowed inv (if b then config ∷ [] else [])
  if-AllNew true inv config h = h refl
  if-AllNew false inv config h = tt

  sorted-IsSorted :
      (inv : Inventory) (ev : RawEvent) (found : Option Item)
      (more : List (Item × RawEvent) × List ItemConfigData)
      → get_item inv ev.oid ≡ found
      → IsSorted inv more
      → IsSorted inv (sorted save boot_id clock storage is_zero allowed sender ev found more)
  unfolding from_raw_event
  sorted-IsSorted inv ev (some item) (known, missing) e (r, n) = (((ev.oid, e), r), n)
  sorted-IsSorted inv ev none (known, missing) e (r, n) = (
    r,
    AllNew-append allowed inv _ missing
        (if-AllNew allowed inv (from_raw_event ev.oid ev.raw sender) (λ y. (e, y, tt))) n,
  )

  sort_events-IsSorted :
      (w : World) (events : List RawEvent)
      → IsSorted w.inv (sort_events save boot_id clock storage is_zero allowed sender w events)
  unfolding sort_events
  sort_events-IsSorted w [] = (tt, tt)
  sort_events-IsSorted w (ev ∷ rest) = elim (Bool-cases (kind_eq (kind ev.oid) ItemKind.lmacro)) [
    | inl y ↦ rw y (sort_events-IsSorted w rest)
    | inr m ↦ rw m (
        sorted-IsSorted w.inv ev (get_item w.inv ev.oid)
          (sort_events save boot_id clock storage is_zero allowed sender w rest) refl
          (sort_events-IsSorted w rest))
  ]

  -- an event of the bulk finds its item where it was, whatever came before it
  process_events-IsReaction :
      (w : World) (events : List (Item × RawEvent)) (run : Run)
      → AllRegistered w.inv events
      → IsReaction allowed w (done run)
      → IsReaction allowed w
          (process_events save boot_id clock storage is_zero allowed sender run events)
  unfolding process_events
  process_events-IsReaction w [] run r h = h
  process_events-IsReaction w ((item, ev) ∷ rest) run r h =
      and_then-IsReaction allowed w
        (process_raw_state save boot_id clock storage is_zero allowed sender true run item ev.raw
          ev.on_modified).0
        (λ next. process_events save boot_id clock storage is_zero allowed sender next rest)
        (IsReaction-then allowed w run _ h (
          process_raw_state-IsReaction allowed save boot_id clock storage is_zero sender true run
            item ev.raw ev.on_modified h.map (r.0.0, h.same r.0.0 item r.0.1)))
        (λ next k. process_events-IsReaction w rest next r.1 k)

  missing-IsReaction :
      (w : World) (missing : List ItemConfigData) (run : Run)
      → AllNew allowed w.inv missing
      → IsReaction allowed w (done run)
      → IsReaction allowed w
          (missing_created save boot_id clock storage is_zero allowed sender missing run)
  unfolding auto_create_item_from_raw_bulk
  missing-IsReaction w [] run a h = h
  missing-IsReaction w (config ∷ rest) run a h =
      deployed-IsReaction allowed w run config rest _
        (deploy save boot_id clock storage is_zero allowed sender run (config ∷ rest)).2 h a
        (deploy-IsDeployed allowed save boot_id clock storage is_zero sender run (config ∷ rest)
          h.map)

  -- Where the item map is well-formed, a bulk of raw events, with the events for other items and
  -- the items that it makes on the way and at the end, keeps the map well-formed and each item at
  -- its OID, whether it ends or waits for a lock for ever; for a sender that may not create items
  -- it ends, and the inventory and the flags of the sources are as before and only cells of local
  -- items have changed.
  pub update_state_from_raw_bulk-IsReaction :
      (run : Run) (events : List RawEvent)
      → IsWfMap run.world.inv.items
      → IsReaction allowed run.world
          (update_state_from_raw_bulk save boot_id clock storage is_zero allowed sender run events)
  unfolding update_state_from_raw_bulk
  update_state_from_raw_bulk-IsReaction run events v =
      let (known, missing) =
        sort_events save boot_id clock storage is_zero allowed sender run.world events in
      let (r, n) = sort_events-IsSorted run.world events in
      and_then-IsReaction allowed run.world
        (process_events save boot_id clock storage is_zero allowed sender run known)
        (missing_created save boot_id clock storage is_zero allowed sender missing)
        (process_events-IsReaction run.world known run r
          (stay allowed save boot_id clock storage is_zero sender run v))
        (λ next h. missing-IsReaction run.world missing next n h)
