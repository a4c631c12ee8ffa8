-- ===== src/Core/Event/React/Reaction.antt =====
-- `process_raw_state` of eva/src/core.rs to its end: what its reaction, with the creation of items,
-- leaves alone.
use eva.Base.{
  ℕ, String, Option, none, some, Bool, true, false, if◌then◌else◌, ◌≡◌, refl, sym, ◌∙◌, ap, List,
  [], ◌∷◌, ◌++◌, EResult, ok, err, subst,
}
use eva.Base.Eq.{◌==◌}
use eva.Common.{Common, oid-Eq}
use eva.Items.State.{RawStateEvent}
use eva.Items.Data.{Item, ItemConfigData, from_raw_event}
use eva.Items.ItemMap.View.{IsWfMap}
use eva.Items.Inventory.{World, Inventory, get_item}
use eva.Core.{InstantSave, Announced}
use eva.Core.Deploy.{Storage}
use eva.Core.Deploy.Deployed.{Absent, IsDeployed, deploy_local_items-IsDeployed}
use eva.Core.Event.{
  OnModified, SetOtherValueDelta, Processed, set_other, set_other_value_delta, set_raw_state,
}
use eva.Core.Event.React.{
  Run, Turn, done, waits, world_of, and_then, logged, deploy, announced_turn, is_dated, created,
  reacted, answered, take_some, set_other_delta, process_modified, process_raw_state,
  auto_create_item_from_raw,
}
use eva.Core.Event.React.Local.{
  IsRegistered, IsLocal, IsLocal-refl, IsLocal-trans, take_event-IsLocal, set_others-IsLocal,
  set_raw_state-IsLocal, world-logged,
}

true-ne-false : true ≡ false → ⊥
true-ne-false h = cc

module _ ⦃c : Common⦄ where
  open c use {OID, kind, F64, Force}

  abbrev pub HasEnded : Turn → Type 0
  HasEnded (done run) = Unit
  HasEnded (waits w) = ⊥

  -- What a handler leaves of a world: the map is well-formed, each item stays at its OID, and for a
  -- sender that may not create items the handler ends, with only cells of local items changed.
  pub record IsReaction (allowed : Bool) (w : World) (t : Turn) : Type 0 where
    pub map : IsWfMap (world_of t).inv.items
    pub same :
        (oid : OID) (item : Item)
        → get_item w.inv oid ≡ some item
        → get_item (world_of t).inv oid ≡ some item
    pub closed : allowed ≡ false → HasEnded t × IsLocal w (world_of t)

  no_item : (item : Item) → none ≡ some item → ⊥
  no_item item h = cc

  module _ (allowed : Bool) where
    local-IsReaction :
        (w : World) (run : Run)
        → IsWfMap w.inv.items
        → IsLocal w run.world
        → IsReaction allowed w (done run)
    local-IsReaction w run v h = record {
      map = subst (λ (inv : Inventory). IsWfMap inv.items) (sym h.inventory) v;
      same = λ oid item e. ap (λ (inv : Inventory). get_item inv oid) h.inventory ∙ e;
      closed = λ n. (tt, h);
    }

    pub IsReaction-trans :
        (u v : World) (t : Turn) → IsLocal u v → IsReaction allowed v t → IsReaction allowed u t
    IsReaction-trans u v t h k = record {
      map = k.map;
      same = λ oid item e.
          k.same oid item (ap (λ (inv : Inventory). get_item inv oid) h.inventory ∙ e);
      closed = λ n. let (a, l) = k.closed n in (a, IsLocal-trans h l);
    }

    pub IsReaction-then :
        (w : World) (run : Run) (t : Turn)
        → IsReaction allowed w (done run)
        → IsReaction allowed run.world t
        → IsReaction allowed w t
    IsReaction-then w run t h r = record {
      map = r.map;
      same = λ oid item e. r.same oid item (h.same oid item e);
      closed = λ n. let (a, l) = h.closed n in let (b, m) = r.closed n in (b, IsLocal-trans l m);
    }

    pub and_then-IsReaction :
        (w : World) (t : Turn) (next : Run → Turn)
        → IsReaction allowed w t
        → ((run : Run) → IsReaction allowed w (done run) → IsReaction allowed w (next run))
        → IsReaction allowed w (and_then t next)
    and_then-IsReaction w (waits u) next h k = h
    and_then-IsReaction w (done run) next h k = k run h

    -- each configuration is for an OID that is free, and the sender may create items
    abbrev pub AllNew : Inventory → List ItemConfigData → Type 0
    AllNew inv [] = Unit
    AllNew inv (config ∷ rest) =
        (get_item inv config.oid ≡ none) × (allowed ≡ true) × AllNew inv rest

    pub AllNew-append :
        (inv : Inventory) (xs ys : List ItemConfigData)
        → AllNew inv xs
        → AllNew inv ys
        → AllNew inv (xs ++ ys)
    AllNew-append inv [] ys a b = b
    AllNew-append inv (x ∷ xs) ys a b = (a.0, a.1, AllNew-append inv xs ys a.2 b)

    AllNew-Absent :
        (inv : Inventory) (configs : List ItemConfigData) (oid : OID) (item : Item)
        → AllNew inv configs
        → get_item inv oid ≡ some item
        → Absent oid configs
    AllNew-Absent inv [] oid item a e = tt
    AllNew-Absent inv (config ∷ rest) oid item a e =
        (apart (config.oid == oid) refl, AllNew-Absent inv rest oid item a.2 e)
      where
        apart : (b : Bool) → (config.oid == oid) ≡ b → (config.oid == oid) ≡ false
        apart false h = h
        apart true h =
            let same : config.oid ≡ oid = (oid-Eq.decides config.oid oid).0 h in
            absurd (no_item item (sym a.0 ∙ ap (λ (o : OID). get_item inv o) same ∙ e))

    -- items are made only at OIDs that were free
    pub deployed-IsReaction :
        {A : Type 0} (w : World) (run : Run) (config : ItemConfigData) (rest : List ItemConfigData)
        (t : Turn) (r : EResult A)
        → IsReaction allowed w (done run)
        → AllNew w.inv (config ∷ rest)
        → IsDeployed (config ∷ rest) run.world (world_of t) r
        → IsReaction allowed w t
    deployed-IsReaction w run config rest t r h a d = record {
      map = d.map;
      same = λ oid item e.
          d.others oid (AllNew-Absent w.inv (config ∷ rest) oid item a e) ∙ h.same oid item e;
      closed = λ n. absurd (true-ne-false (sym a.1 ∙ n));
    }

    module _ (save : InstantSave) (boot_id : ℕ) (clock : ℕ → ℕ × F64) (storage : Storage)
        (is_zero : F64 → Bool) (sender : String) where
      announced_turn-world :
          (held : Bool) (run : Run) (r : World × List Announced × EResult (Unit {0}))
          → world_of (announced_turn save boot_id clock storage is_zero allowed sender held run r)
            ≡ r.0
      announced_turn-world held run (w, [], r) = refl
      announced_turn-world true run (w, a ∷ more, r) = refl
      announced_turn-world false run (w, a ∷ more, r) = refl

      pub deploy-IsDeployed :
          (run : Run) (configs : List ItemConfigData)
          → IsWfMap run.world.inv.items
          → let r = deploy save boot_id clock storage is_zero allowed sender run configs in
            IsDeployed configs run.world r.0 r.2
      deploy-IsDeployed run configs v =
          deploy_local_items-IsDeployed storage save boot_id _ run.world configs v

      pub stay : (run : Run) → IsWfMap run.world.inv.items → IsReaction allowed run.world (done run)
      stay run v = local-IsReaction run.world run v (IsLocal-refl run.world)

      when-IsReaction :
          (b : Bool) (run : Run) (t : Turn)
          → IsWfMap run.world.inv.items
          → (b ≡ true → IsReaction allowed run.world t)
          → IsReaction allowed run.world (if b then t else done run)
      when-IsReaction true run t v h = h refl
      when-IsReaction false run t v h = stay run v

      auto_create-IsReaction :
          (held : Bool) (run : Run) (oid : OID) (raw : RawStateEvent)
          → IsWfMap run.world.inv.items
          → get_item run.world.inv oid ≡ none
          → allowed ≡ true
          → IsReaction allowed run.world (
              auto_create_item_from_raw save boot_id clock storage is_zero allowed sender held run
                oid raw)
      unfolding auto_create_item_from_raw from_raw_event
      auto_create-IsReaction held run oid raw v e y =
          let config : ItemConfigData = from_raw_event oid raw sender in
          let r = deploy save boot_id clock storage is_zero allowed sender run (config ∷ []) in
          when-IsReaction (is_dated save boot_id clock storage is_zero allowed sender raw.t) run
            (announced_turn save boot_id clock storage is_zero allowed sender held run r) v
            (λ dated.
              deployed-IsReaction run.world run config [] _ r.2 (stay run v) (e, y, tt)
                (subst (λ (u : World). IsDeployed (config ∷ []) run.world u r.2)
                  (sym (announced_turn-world held run r)) (deploy-IsDeployed run (config ∷ []) v)))

      created-IsReaction :
          (held : Bool) (run : Run) (oid : OID) (raw : Option RawStateEvent)
          → IsWfMap run.world.inv.items
          → get_item run.world.inv oid ≡ none
          → IsReaction allowed run.world
              (created save boot_id clock storage is_zero allowed sender held run oid raw)
      created-IsReaction held run oid none v e = stay run v
      created-IsReaction held run oid (some raw) v e =
          when-IsReaction allowed run _ v (λ y. auto_create-IsReaction held run oid raw v e y)

      take_some-IsLocal :
          (run : Run) (item : Item) (raw : Option RawStateEvent)
          → IsRegistered run.world.inv item
          → IsLocal run.world (take_some save boot_id clock run item raw).world
      take_some-IsLocal run item none r = IsLocal-refl run.world
      take_some-IsLocal run item (some raw) r =
          take_event-IsLocal save boot_id clock run item raw none r

      set_other_delta-IsReaction :
          (held : Bool) (run : Run) (o : SetOtherValueDelta) (delta : F64) (force : Force)
          (t : Option F64)
          → IsWfMap run.world.inv.items
          → IsReaction allowed run.world (
              set_other_delta save boot_id clock storage is_zero allowed sender held run o delta
                force t)
      unfolding set_other_delta
      set_other_delta-IsReaction held run o delta force t v = go (get_item run.world.inv o.oid) refl
        where
          go :
              (found : Option Item)
              → get_item run.world.inv o.oid ≡ found
              → IsReaction allowed run.world (
                  set_other_delta save boot_id clock storage is_zero allowed sender held run o delta
                    force t)
          go (some item) e =
              rw (e, set_other_delta)
                (local-IsReaction run.world _ v (take_some-IsLocal run item _ (o.oid, e)))
          go none e = rw (e, set_other_delta) (created-IsReaction held run o.oid _ v e)

      process_modified-IsReaction :
          (held : Bool) (run : Run) (om : OnModified) (modified : Bool) (force : Force)
          (delta t : Option F64)
          → IsWfMap run.world.inv.items
          → IsReaction allowed run.world (
              process_modified save boot_id clock storage is_zero allowed sender held run om
                modified force delta t)
      unfolding process_modified
      process_modified-IsReaction held run (set_other o) true force delta t v =
          local-IsReaction run.world _ v (set_others-IsLocal save boot_id clock o.masks run _ v)
      process_modified-IsReaction held run (set_other o) false force delta t v = stay run v
      process_modified-IsReaction held run (set_other_value_delta o) m force none t v = stay run v
      process_modified-IsReaction held run (set_other_value_delta o) m force (some delta) t v =
          set_other_delta-IsReaction held run o delta force t v

      reacted-IsReaction :
          (held : Bool) (run : Run) (om : Option OnModified) (raw : RawStateEvent)
          (p : Option Processed)
          → IsWfMap run.world.inv.items
          → IsReaction allowed run.world
              (reacted save boot_id clock storage is_zero allowed sender held run om raw p)
      reacted-IsReaction held run (some om) raw (some p) v =
          process_modified-IsReaction held run om p.really_modified raw.force p.delta raw.t v
      reacted-IsReaction held run (some om) raw none v = stay run v
      reacted-IsReaction held run none raw p v = stay run v

      -- from the world in which the state of the item is set
      pub answered-IsReaction :
          (held : Bool) (run : Run) (om : Option OnModified) (raw : RawStateEvent)
          (r : World × EResult (Option Processed))
          → IsWfMap r.0.inv.items
          → IsReaction allowed r.0
              (answered save boot_id clock storage is_zero allowed sender held run om raw r).0
      answered-IsReaction held run om raw (u, ok p) v =
          let same : (logged save boot_id clock run (u, ok p)).world ≡ u =
            world-logged save boot_id clock run (u, ok p) in
          subst
            (λ (x : World). IsReaction allowed x (
              reacted save boot_id clock storage is_zero allowed sender held
                (logged save boot_id clock run (u, ok p)) om raw p))
            same
            (reacted-IsReaction held (logged save boot_id clock run (u, ok p)) om raw p
              (subst (λ (x : World). IsWfMap x.inv.items) (sym same) v))
      answered-IsReaction held run om raw (u, err e) v =
          local-IsReaction u (logged save boot_id clock run (u, err e)) v (IsLocal-refl u)

      pub process_raw_state-IsReaction :
          (held : Bool) (run : Run) (item : Item) (raw : RawStateEvent) (om : Option OnModified)
          → IsWfMap run.world.inv.items
          → IsRegistered run.world.inv item
          → IsReaction allowed run.world
              (process_raw_state save boot_id clock storage is_zero allowed sender held run item raw
                om).0
      unfolding process_raw_state
      process_raw_state-IsReaction held run item raw om v r =
          let (ns, now) = clock run.calls in
          let h = set_raw_state-IsLocal save boot_id clock run.world item raw om ns now r in
          IsReaction-trans run.world (set_raw_state run.world save item raw om boot_id ns now).0 _ h
            (answered-IsReaction held run om raw
              (set_raw_state run.world save item raw om boot_id ns now)
              (subst (λ (inv : Inventory). IsWfMap inv.items) (sym h.inventory) v))
