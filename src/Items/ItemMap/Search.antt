-- ===== src/Items/ItemMap/Search.antt =====
-- `get_by_mask` over the trees of all kinds.
use eva.Base.{
  String, Option, none, some, Bool, true, false, not, ◌&&◌, ◌≡◌, refl, sym, subst, List, [], arith,
  Bool-cases, and_true, inl, inr, ◌↔◌,
}
use eva.Base.Lists.{In, In-append_left, In-append_right, In-append_inv, not-In_nil}
use eva.Common.{Common, ItemKind, kind_eq}
use eva.Items.Data.{Item}
use eva.Items.Filter.{Filter, matches}
use eva.Items.ItemMap.{ItemMap, chunks, get_tree, get, tree_by_mask, kind_by_mask, get_by_mask}
use eva.Items.ItemMap.View.{IsWfMap, kind_eq→≡, kind_eq_refl}
use eva.Items.ItemMap.Masks.{
  kind_selected, chunks_selected, mask_selects, tree_by_mask-Picked, Picked-tree_by_mask,
}

module _ ⦃c : Common⦄ where
  open c use {OID, kind, OIDMask, mask_kind, mask_chunks}

  -- The item is registered, and kind, chunks and filter let it through.
  abbrev Chosen : ItemMap → Option ItemKind → Option (List String) → Filter → Bool → Item → Type 0
  Chosen m tp mask f st i =
      (get m i.oid ≡ some i)
      × (kind_selected tp st (kind i.oid) ≡ true)
      × (chunks_selected mask (chunks i.oid) ≡ true)
      × (matches f i ≡ true)

  module _ (m : ItemMap) (v : IsWfMap m) (mask : Option (List String)) (f : Filter) (i : Item) where
    -- the search of one tree, where `tree` is the tree of `tp`
    from_tree :
        (tp : ItemKind) (st : Bool)
        → kind_selected none st tp ≡ true
        → In i (tree_by_mask (get_tree m tp) mask f)
        → Chosen m none mask f st i
    from_tree tp st s h =
        let (k, g, q, t) = tree_by_mask-Picked m v tp mask f h in
        (g, subst (λ x. kind_selected none st x ≡ true) (sym k) s, q, t)

    all_kinds-Chosen :
        (st : Bool) → In i (kind_by_mask m none mask f st) → Chosen m none mask f st i
    unfolding kind_by_mask get_tree
    all_kinds-Chosen st h = elim (In-append_inv (tree_by_mask m.unit mask f) h) [
      | inl a ↦ from_tree ItemKind.unit st (ground arith) a
      | inr h1 ↦ elim (In-append_inv (tree_by_mask m.sensor mask f) h1) [
        | inl a ↦ from_tree ItemKind.sensor st (ground arith) a
        | inr h2 ↦ elim (In-append_inv (tree_by_mask m.lvar mask f) h2) [
          | inl a ↦ from_tree ItemKind.lvar st (ground arith) a
          | inr h3 ↦ elim (Bool-cases st) [
            | inl y ↦ from_tree ItemKind.lmacro st (rw y) (rw y at h3)
            | inr n ↦ absurd (not-In_nil (rw n at h3))
          ]
        ]
      ]
    ]

    Chosen-all_kinds :
        (st : Bool) (tp : ItemKind)
        → kind i.oid ≡ tp
        → Chosen m none mask f st i
        → In i (kind_by_mask m none mask f st)
    unfolding kind_by_mask get_tree
    Chosen-all_kinds st ItemKind.unit k (g, s, q, t) =
        In-append_left _ (Picked-tree_by_mask m v ItemKind.unit mask f i (k, g, q, t))
    Chosen-all_kinds st ItemKind.sensor k (g, s, q, t) =
        In-append_right (tree_by_mask m.unit mask f)
          (In-append_left _ (Picked-tree_by_mask m v ItemKind.sensor mask f i (k, g, q, t)))
    Chosen-all_kinds st ItemKind.lvar k (g, s, q, t) =
        In-append_right (tree_by_mask m.unit mask f) (
          In-append_right (tree_by_mask m.sensor mask f)
            (In-append_left _ (Picked-tree_by_mask m v ItemKind.lvar mask f i (k, g, q, t))))
    Chosen-all_kinds st ItemKind.lmacro k (g, s, q, t) =
        let y : st ≡ true = ground arith in
        rw y (
          In-append_right (tree_by_mask m.unit mask f) (
            In-append_right (tree_by_mask m.sensor mask f) (
              In-append_right (tree_by_mask m.lvar mask f)
                (Picked-tree_by_mask m v ItemKind.lmacro mask f i (k, g, q, t)))))

    excluded :
        (tp : ItemKind) (st : Bool)
        → (kind_eq tp ItemKind.lmacro && not st) ≡ true
        → kind_by_mask m (some tp) mask f st ≡ []
    unfolding kind_by_mask
    excluded tp st y = rw y

    searched :
        (tp : ItemKind) (st : Bool)
        → (kind_eq tp ItemKind.lmacro && not st) ≡ false
        → kind_by_mask m (some tp) mask f st ≡ tree_by_mask (get_tree m tp) mask f
    unfolding kind_by_mask
    searched tp st n = rw n

    refused :
        (tp : ItemKind) (st : Bool)
        → (kind_eq tp ItemKind.lmacro && not st) ≡ true
        → kind_selected (some tp) st (kind i.oid) ≡ true
        → false ≡ true
    refused tp st y s = ground arith

    pub kind_by_mask_iff :
        (tp : Option ItemKind) (st : Bool)
        → In i (kind_by_mask m tp mask f st) ↔ Chosen m tp mask f st i
    kind_by_mask_iff none st = (all_kinds-Chosen st, Chosen-all_kinds st (kind i.oid) refl)
    kind_by_mask_iff (some tp) st = elim (Bool-cases (kind_eq tp ItemKind.lmacro && not st)) [
      | inl y ↦ (
        λ h. absurd (not-In_nil (rw (excluded tp st y) at h)),
        λ (g, s, q, t). cc (refused tp st y s),
      )
      | inr n ↦ (
        λ h.
            let (k, g, q, t) = tree_by_mask-Picked m v tp mask f (rw (searched tp st n) at h) in
            (g, rw (k, kind_eq_refl tp) (ground arith), q, t),
        λ (g, s, q, t). rw (searched tp st n) (
            Picked-tree_by_mask m v tp mask f i
              (sym (kind_eq→≡ tp (kind i.oid) (ground arith)), g, q, t)),
      )
    ]

  -- In a well-formed item map, a search by mask returns exactly the registered items that the mask
  -- selects, macros only where they are asked for, and that pass the filter.
  pub get_by_mask_iff :
      (m : ItemMap) (mask : OIDMask) (f : Filter) (include_stateless : Bool) (i : Item)
      → IsWfMap m
      → In i (get_by_mask m mask f include_stateless)
        ↔ (get m i.oid ≡ some i)
          × (mask_selects mask include_stateless i.oid ≡ true)
          × (matches f i ≡ true)
  unfolding get_by_mask
  get_by_mask_iff m mask f st i v =
      let (fore, back) = kind_by_mask_iff m v (mask_chunks mask) f i (mask_kind mask) st in
      (
        λ h. let (g, s, q, t) = fore h in (g, rw (s, q), t),
        λ (g, s, t). let (a, b) = and_true _ _ s in back (g, a, b, t),
      )
