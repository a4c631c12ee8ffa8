-- ===== src/Core/Event/React/Local.antt =====
-- Raw events of eva/src/core.rs with their reactions: what they leave alone.
use eva.Base.{
  ℕ, Option, none, some, false, not, ◌&&◌, ◌≡◌, refl, sym, ◌∙◌, List, [], ◌∷◌, ◌⊎◌, inl, inr,
  EResult, ok, err, subst, arith, nat_eq, Bool-cases,
}
use eva.Base.Int.{pos, int_eq}
use eva.Base.Lists.{In, here, there}
use eva.Common.{Common, ItemKind, kind_eq}
use eva.Items.State.{ItemState, RawStateEvent, set_from_raw}
use eva.Items.Data.{Item, Source}
use eva.Items.Filter.{Filter, any_item, local}
use eva.Items.ItemMap.View.{IsWfMap}
use eva.Items.ItemMap.Search.{get_by_mask_iff}
use eva.Items.Inventory.{World, Inventory, get_item, get_items_by_mask}
use eva.Core.{InstantSave, put_state}
use eva.Core.Event.{OnModified, Processed, set_raw_state}
use eva.Core.Event.React.{Run, logged, take_event, take_all, set_others}

module _ ⦃c : Common⦄ where
  open c use {OID, OIDMask, kind, F64, Force, is_force_full, is_force_none}

  abbrev pub IsRegistered : Inventory → Item → Type 0
  IsRegistered inv item = (oid : OID) × (get_item inv oid ≡ some item)

  -- The inventory and the flags of the sources stay, and each cell that changes is that of a local
  -- item of the inventory.
  pub record IsLocal (w w' : World) : Type 0 where
    pub inventory : w'.inv ≡ w.inv
    pub sources : w'.flags ≡ w.flags
    pub cells :
        (a : ℕ)
        → (w'.cells a ≡ w.cells a)
          ⊎ ((item : Item) × IsRegistered w.inv item × (item.addr ≡ a) × (item.source ≡ none))

  pub IsLocal-refl : (w : World) → IsLocal w w
  IsLocal-refl w = record { inventory = refl; sources = refl; cells = λ a. inl refl }

  pub IsLocal-trans : {u v w : World} → IsLocal u v → IsLocal v w → IsLocal u w
  IsLocal-trans {u} {v} {w} h k = record {
    inventory = k.inventory ∙ h.inventory;
    sources = k.sources ∙ h.sources;
    cells = λ a. elim (k.cells a) [
      | inr (item, r, e, n) ↦
          inr (item, subst (λ (inv : Inventory). IsRegistered inv item) h.inventory r, e, n)
      | inl e ↦ elim (h.cells a) [ inl f ↦ inl (e ∙ f) | inr r ↦ inr r ]
    ];
  }

  put_state-IsLocal :
      (w : World) (item : Item) (s : ItemState)
      → IsRegistered w.inv item
      → item.source ≡ none
      → IsLocal w (put_state item s w)
  put_state-IsLocal w item s r e = record {
    inventory = refl;
    sources = refl;
    cells = λ a. elim (Bool-cases (nat_eq item.addr a)) [
      | inl y ↦ inr (item, r, ground (arith, y), e)
      | inr n ↦ inl (rw n refl)
    ];
  }

  module _ (save : InstantSave) (boot_id : ℕ) (clock : ℕ → ℕ × F64) where
    set_raw_state-cases :
        (w : World) (item : Item) (raw : RawStateEvent) (om : Option OnModified) (ns : ℕ)
        (now : F64)
        → ((set_raw_state w save item raw om boot_id ns now).0 ≡ w)
          ⊎ ((item.source ≡ none)
              × (s : ItemState) × ((set_raw_state w save item raw om boot_id ns now).0
                  ≡ put_state item s w))
    unfolding set_raw_state
    set_raw_state-cases w item raw om ns now = go item.source (w.cells item.addr).state refl refl
      where
        go :
            (so : Option Source) (st : Option ItemState)
            → item.source ≡ so
            → (w.cells item.addr).state ≡ st
            → ((set_raw_state w save item raw om boot_id ns now).0 ≡ w)
              ⊎ ((item.source ≡ none)
                  × (s : ItemState) × ((set_raw_state w save item raw om boot_id ns now).0
                      ≡ put_state item s w))
        go (some src) st e f = inl (ground (arith, e))
        go none none e f = inl (ground (arith, e, f))
        go none (some s) e f =
            elim (Bool-cases (not (w.cells item.addr).enabled && not (is_force_full raw.force))) [
              | inl t ↦ inl (ground (arith, e, t))
              | inr n ↦
                  elim (Bool-cases (
                    kind_eq (kind item.oid) ItemKind.lvar
                    && int_eq s.status (pos 0)
                    && is_force_none raw.force)) [
                      | inl t ↦ inl (ground (arith, e, f, n, t))
                      | inr m ↦ inr (
                        e,
                        (set_from_raw s raw item.logic boot_id ns now).0,
                        ground (arith, e, f, n, m),
                      )
                    ]
            ]

    pub set_raw_state-IsLocal :
        (w : World) (item : Item) (raw : RawStateEvent) (om : Option OnModified) (ns : ℕ)
        (now : F64)
        → IsRegistered w.inv item
        → IsLocal w (set_raw_state w save item raw om boot_id ns now).0
    set_raw_state-IsLocal w item raw om ns now r = elim (set_raw_state-cases w item raw om ns now) [
      | inl e ↦ subst (IsLocal w) (sym e) (IsLocal-refl w)
      | inr (e, s, f) ↦ subst (IsLocal w) (sym f) (put_state-IsLocal w item s r e)
    ]

    pub world-logged :
        (run : Run) (p : World × EResult (Option Processed))
        → (logged save boot_id clock run p).world ≡ p.0
    world-logged run (w, ok none) = refl
    world-logged run (w, ok (some p)) = refl
    world-logged run (w, err e) = refl

    pub take_event-IsLocal :
        (run : Run) (item : Item) (raw : RawStateEvent) (om : Option OnModified)
        → IsRegistered run.world.inv item
        → IsLocal run.world (take_event save boot_id clock run item raw om).world
    unfolding take_event
    take_event-IsLocal run item raw om r =
        let (ns, now) = clock run.calls in
        subst (IsLocal run.world)
          (sym (world-logged run (set_raw_state run.world save item raw om boot_id ns now)))
          (set_raw_state-IsLocal run.world item raw om ns now r)

    -- each item of a list is registered
    abbrev AllRegistered : Inventory → List Item → Type 0
    AllRegistered inv [] = Unit
    AllRegistered inv (item ∷ rest) = IsRegistered inv item × AllRegistered inv rest

    AllRegistered-intro :
        (inv : Inventory) (items : List Item)
        → ((item : Item) → In item items → IsRegistered inv item)
        → AllRegistered inv items
    AllRegistered-intro inv [] h = tt
    AllRegistered-intro inv (item ∷ rest) h =
        (h item (here refl), AllRegistered-intro inv rest (λ i m. h i (there m)))

    take_all-IsLocal :
        (items : List Item) (run : Run) (raw : RawStateEvent)
        → AllRegistered run.world.inv items
        → IsLocal run.world (take_all save boot_id clock run items raw).world
    unfolding take_all
    take_all-IsLocal [] run raw r = IsLocal-refl run.world
    take_all-IsLocal (item ∷ rest) run raw r =
        let h = take_event-IsLocal run item raw none r.0 in
        IsLocal-trans h (
          take_all-IsLocal rest (take_event save boot_id clock run item raw none) raw
            (subst (λ (inv : Inventory). AllRegistered inv rest) (sym h.inventory) r.1))

    masked-AllRegistered :
        (inv : Inventory) (mask : OIDMask) (f : Filter)
        → IsWfMap inv.items
        → AllRegistered inv (get_items_by_mask inv mask f false)
    unfolding get_items_by_mask get_item
    masked-AllRegistered inv mask f v =
        AllRegistered-intro inv _
          (λ i m. (i.oid, ((get_by_mask_iff inv.items mask f false i v).0 m).0))

    pub set_others-IsLocal :
        (masks : List OIDMask) (run : Run) (raw : RawStateEvent)
        → IsWfMap run.world.inv.items
        → IsLocal run.world (set_others save boot_id clock run masks raw).world
    unfolding set_others
    set_others-IsLocal [] run raw v = IsLocal-refl run.world
    set_others-IsLocal (mask ∷ rest) run raw v =
        let items =
          get_items_by_mask run.world.inv mask (record any_item { node = some local }) false in
        let h =
          take_all-IsLocal items run raw
            (masked-AllRegistered run.world.inv mask (record any_item { node = some local }) v) in
        IsLocal-trans h (
          set_others-IsLocal rest (take_all save boot_id clock run items raw) raw
            (subst (λ (inv : Inventory). IsWfMap inv.items) (sym h.inventory) v))
