-- ===== src/Core/Deploy/Deployed.antt =====
-- `deploy_local_items` of eva/src/core.rs: what is found in the inventory afterwards.
use eva.Base.{
  ℕ, suc, some, true, false, if◌then◌else◌, ◌≡◌, refl, sym, ◌∙◌, ap, is_some, List, [], ◌∷◌,
  EResult, ok, err, Error, ◌⊎◌, inl, inr, subst, arith, Bool-cases,
}
use eva.Base.Eq.{◌==◌, beq_refl}
use eva.Common.{Common, oid-Eq}
use eva.Items.Data.{Item, ItemConfigData, split, check_item_data}
use eva.Items.ItemMap.View.{IsWfMap}
use eva.Items.Inventory.{World, Inventory, get_item, append_item, append_item_from_config_data}
use eva.Core.{Announced, InstantSave}
use eva.Core.Deploy.{
  Storage, append_all, collected, stored, announce, deploy_each, deployed_bulk, deploy_local_items,
}
use eva.Core.Remote.Changes.{append_item-found}

module _ ⦃c : Common⦄ where
  open c use {OID, F64, oid_eq, kind}

  -- one step of the loops: nothing, or an item of the configuration is put into the inventory
  config-put :
      (w : World) (config : ItemConfigData) (boot_id ns : ℕ) (now : F64)
      → let r = append_item_from_config_data w config boot_id ns now in
        ((r.0.inv ≡ w.inv) × ((e : Error) × (r.1 ≡ err e)))
        ⊎ ((item : Item) × (item.oid ≡ config.oid) × (r.0.inv ≡ (append_item w.inv item true).0))
  unfolding append_item_from_config_data split
  config-put w config boot_id ns now =
      go (check_item_data (kind config.oid) config.action config.logic) refl
    where
      go :
          (o : EResult (Unit {0}))
          → check_item_data (kind config.oid) config.action config.logic ≡ o
          → let r = append_item_from_config_data w config boot_id ns now in
            ((r.0.inv ≡ w.inv) × ((e : Error) × (r.1 ≡ err e)))
            ⊎ ((item : Item) × (item.oid ≡ config.oid)
                × (r.0.inv ≡ (append_item w.inv item true).0))
      go (err e) h = inl (
        rw (append_item_from_config_data, h) refl,
        (e, rw (append_item_from_config_data, h) refl),
      )
      go (ok u) h = inr ((split config w.next).0, refl, rw (append_item_from_config_data, h) refl)

  -- what a configuration leaves: other OIDs stay, and no item goes
  pub record Leaves (config : ItemConfigData) (w w' : World) : Type 0 where
    pub map : IsWfMap w'.inv.items
    pub others :
        (oid : OID) → (config.oid == oid) ≡ false → get_item w'.inv oid ≡ get_item w.inv oid
    pub kept :
        (oid : OID) → is_some (get_item w.inv oid) ≡ true → is_some (get_item w'.inv oid) ≡ true

  -- the step of a configuration, with an item at its OID if it succeeds
  config-Leaves :
      (w : World) (config : ItemConfigData) (boot_id ns : ℕ) (now : F64)
      → IsWfMap w.inv.items
      → let r = append_item_from_config_data w config boot_id ns now in
        Leaves config w r.0
        × (((e : Error) × (r.1 ≡ err e)) ⊎ (is_some (get_item r.0.inv config.oid) ≡ true))
  config-Leaves w config boot_id ns now v = elim (config-put w config boot_id ns now) [
    | inl (i, e) ↦ (
      record {
        map = subst (λ (x : Inventory). IsWfMap x.items) (sym i) v;
        others = λ oid n. ap (λ (x : Inventory). get_item x oid) i;
        kept = λ oid h. subst (λ (x : Inventory). is_some (get_item x oid) ≡ true) (sym i) h;
      },
      inl e,
    )
    | inr (item, own, i) ↦
        let (v', found) = append_item-found w.inv item v in
        let found' : (oid : OID)
            → get_item (append_item_from_config_data w config boot_id ns now).0.inv oid
              ≡ (if config.oid == oid then some item else get_item w.inv oid) =
          λ oid.
            ap (λ (x : Inventory). get_item x oid) i
            ∙ found oid
            ∙ ap (λ (o : OID). if o == oid then some item else get_item w.inv oid) own in
        (
          record {
            map = subst (λ (x : Inventory). IsWfMap x.items) (sym i) v';
            others = λ oid n. found' oid ∙ rw n refl;
            kept = λ oid h. ground (arith, found' oid, h);
          },
          inr (rw (found' config.oid, beq_refl ⦃e = oid_eq⦄ config.oid) refl),
        )
  ]

  abbrev pub Absent : OID → List ItemConfigData → Type 0
  Absent oid [] = Unit
  Absent oid (config ∷ rest) = ((config.oid == oid) ≡ false) × Absent oid rest

  -- there is an item for each configuration
  abbrev pub AllThere : World → List ItemConfigData → Type 0
  AllThere w [] = Unit
  AllThere w (config ∷ rest) = (is_some (get_item w.inv config.oid) ≡ true) × AllThere w rest

  abbrev pub Succeeds : {A : Type 0} → EResult A → Type 0
  Succeeds (ok a) = Unit
  Succeeds (err e) = ⊥

  -- what a loop over configurations leaves, and what it has made if it succeeds
  pub record IsDeployed {A : Type 0} (configs : List ItemConfigData) (w w' : World) (r : EResult A)
      : Type 0 where
    pub map : IsWfMap w'.inv.items
    pub others : (oid : OID) → Absent oid configs → get_item w'.inv oid ≡ get_item w.inv oid
    pub kept :
        (oid : OID) → is_some (get_item w.inv oid) ≡ true → is_some (get_item w'.inv oid) ≡ true
    pub made : Succeeds r → AllThere w' configs

  stopped :
      {A : Type 0} (config : ItemConfigData) (rest : List ItemConfigData) (w w' : World) (e : Error)
      → Leaves config w w'
      → IsDeployed {A = A} (config ∷ rest) w w' (err e)
  stopped config rest w w' e h = record {
    map = h.map;
    others = λ oid a. h.others oid a.0;
    kept = h.kept;
    made = λ s. absurd s;
  }

  continued :
      {A B : Type 0} (config : ItemConfigData) (rest : List ItemConfigData) (u v w : World)
      (r : EResult A) (r' : EResult B)
      → (Succeeds r' → Succeeds r)
      → Leaves config u v
      → is_some (get_item v.inv config.oid) ≡ true
      → IsDeployed rest v w r
      → IsDeployed (config ∷ rest) u w r'
  continued config rest u v w r r' t h there k = record {
    map = k.map;
    others = λ oid a. k.others oid a.1 ∙ h.others oid a.0;
    kept = λ oid s. k.kept oid (h.kept oid s);
    made = λ s. (k.kept config.oid there, k.made (t s));
  }

  module _ (storage : Storage) (save : InstantSave) (boot_id : ℕ) (clock : ℕ → ℕ × F64) where
    abbrev one : ℕ → World → ItemConfigData → World × EResult Item
    one n w config = append_item_from_config_data w config boot_id (clock n).0 (clock n).1

    collected-IsDeployed :
        (config : ItemConfigData) (rest : List ItemConfigData) (u v : World) (item : Item)
        (p : World × EResult (List Item))
        → Leaves config u v
        → is_some (get_item v.inv config.oid) ≡ true
        → IsDeployed rest v p.0 p.1
        → IsDeployed
            (config ∷ rest)
            u
            (collected storage save boot_id clock item p).0
            (collected storage save boot_id clock item p).1
    collected-IsDeployed config rest u v item (w, ok items) h there k =
        continued config rest u v w (ok items) (ok (item ∷ items)) (λ s. s) h there k
    collected-IsDeployed config rest u v item (w, err e) h there k =
        continued {A = List Item} {B = List Item} config rest u v w (err e) (err e) (λ s. s) h there
          k

    stored-IsDeployed :
        (config : ItemConfigData) (rest : List ItemConfigData) (u v : World)
        (r : EResult (Unit {0})) (announced : List Announced)
        (p : World × List Announced × EResult (Unit {0}))
        → Leaves config u v
        → is_some (get_item v.inv config.oid) ≡ true
        → IsDeployed rest v p.0 p.2
        → IsDeployed
            (config ∷ rest)
            u
            (stored storage save boot_id clock r v announced p).0
            (stored storage save boot_id clock r v announced p).2
    stored-IsDeployed config rest u v (ok x) announced (w, more, last) h there k =
        continued config rest u v w last last (λ s. s) h there k
    stored-IsDeployed config rest u v (err e) announced p h there k = stopped config rest u v e h

    append_all-IsDeployed :
        (configs : List ItemConfigData) (n : ℕ) (w : World)
        → IsWfMap w.inv.items
        → IsDeployed configs w
            (append_all storage save boot_id clock n w configs).0
            (append_all storage save boot_id clock n w configs).1
    unfolding append_all
    append_all-IsDeployed [] n w v = record {
      map = v;
      others = λ oid a. refl;
      kept = λ oid h. h;
      made = λ s. tt;
    }
    append_all-IsDeployed (config ∷ rest) n w v =
        let (h, x) = config-Leaves w config boot_id (clock n).0 (clock n).1 v in
        go (one n w config).1 refl h x (append_all-IsDeployed rest (suc n) (one n w config).0 h.map)
      where
        go :
            (o : EResult Item)
            → (one n w config).1 ≡ o
            → Leaves config w (one n w config).0
            → ((e : Error) × ((one n w config).1 ≡ err e))
              ⊎ (is_some (get_item (one n w config).0.inv config.oid) ≡ true)
            → IsDeployed rest
                (one n w config).0
                (append_all storage save boot_id clock (suc n) (one n w config).0 rest).0
                (append_all storage save boot_id clock (suc n) (one n w config).0 rest).1
            → IsDeployed
                (config ∷ rest)
                w
                (append_all storage save boot_id clock n w (config ∷ rest)).0
                (append_all storage save boot_id clock n w (config ∷ rest)).1
        go (err e) p h x k = rw (append_all, p) (stopped config rest w (one n w config).0 e h)
        go (ok item) p h (inl (e, q)) k = cc
        go (ok item) p h (inr there) k =
            rw (append_all, p)
              (collected-IsDeployed config rest w (one n w config).0 item _ h there k)

    deploy_each-IsDeployed :
        (configs : List ItemConfigData) (n : ℕ) (w : World)
        → IsWfMap w.inv.items
        → IsDeployed configs w
            (deploy_each storage save boot_id clock n w configs).0
            (deploy_each storage save boot_id clock n w configs).2
    unfolding deploy_each
    deploy_each-IsDeployed [] n w v = record {
      map = v;
      others = λ oid a. refl;
      kept = λ oid h. h;
      made = λ s. tt;
    }
    deploy_each-IsDeployed (config ∷ rest) n w v =
        let (h, x) = config-Leaves w config boot_id (clock n).0 (clock n).1 v in
        go (one n w config).1 refl h x
          (deploy_each-IsDeployed rest (suc n) (one n w config).0 h.map)
      where
        go :
            (o : EResult Item)
            → (one n w config).1 ≡ o
            → Leaves config w (one n w config).0
            → ((e : Error) × ((one n w config).1 ≡ err e))
              ⊎ (is_some (get_item (one n w config).0.inv config.oid) ≡ true)
            → IsDeployed rest
                (one n w config).0
                (deploy_each storage save boot_id clock (suc n) (one n w config).0 rest).0
                (deploy_each storage save boot_id clock (suc n) (one n w config).0 rest).2
            → IsDeployed
                (config ∷ rest)
                w
                (deploy_each storage save boot_id clock n w (config ∷ rest)).0
                (deploy_each storage save boot_id clock n w (config ∷ rest)).2
        go (err e) p h x k = rw (deploy_each, p) (stopped config rest w (one n w config).0 e h)
        go (ok item) p h (inl (e, q)) k = cc
        go (ok item) p h (inr there) k =
            rw (deploy_each, p)
              (stored-IsDeployed config rest w (one n w config).0 (storage.save_item_config item)
                (announce storage save boot_id clock item
                  ((one n w config).0.cells item.addr).state)
                (deploy_each storage save boot_id clock (suc n) (one n w config).0 rest) h there k)

    bulk-IsDeployed :
        (configs : List ItemConfigData) (w : World) (p : World × EResult (List Item))
        → IsDeployed configs w p.0 p.1
        → IsDeployed configs w
            (deployed_bulk storage save boot_id clock p).0
            (deployed_bulk storage save boot_id clock p).2
    bulk-IsDeployed configs w (u, err e) h = record {
      map = h.map;
      others = h.others;
      kept = h.kept;
      made = λ s. absurd s;
    }
    bulk-IsDeployed configs w (u, ok items) h = go (storage.save_items_bulk items) refl
      where
        go :
            (r : EResult (Unit {0}))
            → storage.save_items_bulk items ≡ r
            → IsDeployed configs w
                (deployed_bulk storage save boot_id clock (u, ok items)).0
                (deployed_bulk storage save boot_id clock (u, ok items)).2
        go (ok x) e =
            rw (deployed_bulk, e)
              (record { map = h.map; others = h.others; kept = h.kept; made = h.made })
        go (err x) e =
            rw (deployed_bulk, e)
              (record { map = h.map; others = h.others; kept = h.kept; made = λ s. absurd s })

    -- Where the item map is well-formed, a deployment of local items, in the database or the
    -- registry and whatever fails, leaves it well-formed, changes nothing at other OIDs than those
    -- of the configurations and takes no item away; if it succeeds there is an item for each
    -- configuration.
    pub deploy_local_items-IsDeployed :
        (w : World) (configs : List ItemConfigData)
        → IsWfMap w.inv.items
        → IsDeployed configs w
            (deploy_local_items storage save boot_id clock w configs).0
            (deploy_local_items storage save boot_id clock w configs).2
    unfolding deploy_local_items
    deploy_local_items-IsDeployed w configs v = elim (Bool-cases storage.is_initialized) [
      | inl y ↦ rw y (
          bulk-IsDeployed configs w (append_all storage save boot_id clock 0 w configs)
            (append_all-IsDeployed configs 0 w v))
      | inr n ↦ rw n (deploy_each-IsDeployed configs 0 w v)
    ]
