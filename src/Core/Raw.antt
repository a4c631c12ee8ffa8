-- ===== src/Core/Raw.antt =====
-- `process_raw_state` of eva/src/core.rs: what a raw event may change and announce.
use eva.Base.{ℕ, String, Bool, EResult, Option, none, some, true, false, not, ◌||◌, ◌≡◌, ok, nat_eq}
use eva.Common.{Common}
use eva.Items.State.{RawStateEvent}
use eva.Items.State.Raw.{IsConsistent}
use eva.Items.Data.{Item}
use eva.Items.Inventory.{World, Inventory}
use eva.Core.Deploy.{Storage}
use eva.Core.{InstantSave}
use eva.Core.Event.{OnModified, Processed}
use eva.Core.Event.React.{Run, Turn, world_of}
use eva.Core.Event.React.Reaction.{HasEnded, IsReaction}

module _ ⦃c : Common⦄ where
  open c use {F64, is_force_none, is_force_full, kind}

  -- `w'` is `w` after the event was taken and announced.
  pub record IsTaken (w : World) (item : Item) (raw : RawStateEvent) (p : Processed) (w' : World)
      : Type 0 where
    pub stored : (w'.cells item.addr).state ≡ some p.announced.state
    pub consistent : IsConsistent item.logic p.announced.state
    pub reason : (p.really_modified || not (is_force_none raw.force)) ≡ true
    pub others : (a : ℕ) → nat_eq item.addr a ≡ false → w'.cells a ≡ w.cells a
    pub inventory : w'.inv ≡ w.inv

  module _ (allowed : Bool) (save : InstantSave) (boot_id : ℕ) (clock : ℕ → ℕ × F64)
      (storage : Storage) (is_zero : F64 → Bool) (sender : String) (held : Bool) where
    -- what comes after the state is set: nothing, or the reaction
    abbrev pub IsFollowed : Option OnModified → World → Turn → Type 0
    IsFollowed none u t = HasEnded t × (world_of t ≡ u)
    IsFollowed (some om) u t = IsReaction allowed u t

    -- the answer to an event that is taken, with what its state is set to
    pub record IsProcessed (run : Run) (item : Item) (raw : RawStateEvent) (om : Option OnModified)
        (p : Processed) (t : Turn × EResult (Unit {0})) : Type 0 where
      pub between : World
      pub taken : IsTaken run.world item raw p between
      pub followed : IsFollowed om between t.0
      pub answer : t.1 ≡ ok tt
