-- ===== src/Items/ItemMap/View.antt =====
-- `ItemMap` of eva/src/items.rs as a plain map from OIDs to items, of which `get` is the reading.
use eva.Base.{
  String, Option, none, some, Bool, true, false, not, ◌&&◌, if◌then◌else◌, ◌≡◌, sym, ap, false≢true,
  ◌∙◌, ok, err, duplicate, List, arith, is_some, Bool-cases, inl, inr,
}
use eva.Base.Eq.{◌==◌, ne→beq}
use eva.Base.Text.{split_at-injective}
use eva.Common.{Common, ItemKind, kind_eq, oid-Eq}
use eva.Items.Data.{Item}
use eva.Items.Tree.{ItemTree, append_rec}
use eva.Items.Tree.Find.{Rest, IsWf, lookup, member, empty_tree-IsWf, member-empty_tree}
use eva.Items.Tree.Append.{Appended, append_rec-Appended, append_rec_duplicate}
use eva.Items.Tree.Remove.{remove_rec-Removed}
use eva.Items.Tree.Get.{get_rec-eq-member, IsInjective}
use eva.Items.ItemMap.{ItemMap, empty_map, chunks, get_tree, put_tree, append, get, remove}

pub kind_eq→≡ : (a b : ItemKind) → kind_eq a b ≡ true → a ≡ b
kind_eq→≡ a b h = ground arith

pub kind_eq_refl : (a : ItemKind) → kind_eq a a ≡ true
kind_eq_refl a = ground arith

module _ ⦃c : Common⦄ where
  open c use {OID, kind, full_id, oid_ext}

  -- where an OID stands in the tree of a kind
  abbrev pub rest_of : ItemKind → Rest
  rest_of tp oid = if kind_eq (kind oid) tp then some (chunks oid) else none

  -- Each tree satisfies the invariant of trees, for the OIDs of its kind.
  pub record IsWfMap (m : ItemMap) : Type 0 where
    pub at : (tp : ItemKind) → IsWf (rest_of tp) (get_tree m tp)

  pub rest_of_own : (oid : OID) → rest_of (kind oid) oid ≡ some (chunks oid)
  rest_of_own oid = rw (kind_eq_refl (kind oid))

  rest_of-IsInjective : (tp : ItemKind) → IsInjective (rest_of tp)
  unfolding chunks
  rest_of-IsInjective tp a b p ha hb = ground (
    arith,
    kind_eq→≡ (kind a) tp,
    kind_eq→≡ (kind b) tp,
    split_at-injective b'/' (full_id a) (full_id b),
    oid_ext a b,
  )

  pub get-eq-lookup :
      (m : ItemMap) (oid : OID)
      → IsWfMap m
      → get m oid ≡ lookup (rest_of (kind oid) oid) (get_tree m (kind oid)) oid
  unfolding get
  get-eq-lookup m oid v = rw (rest_of_own oid) (
      get_rec-eq-member (rest_of (kind oid)) (chunks oid) (get_tree m (kind oid)) oid
        (rest_of-IsInjective (kind oid)) (v.at (kind oid)) (rest_of_own oid))

  get_tree-put_tree :
      (m : ItemMap) (tp tp' : ItemKind) (t : ItemTree)
      → get_tree (put_tree m tp t) tp' ≡ (if kind_eq tp tp' then t else get_tree m tp')
  unfolding get_tree put_tree
  get_tree-put_tree m tp tp' t = ground arith

  put_tree-IsWfMap :
      (m : ItemMap) (tp : ItemKind) (t : ItemTree)
      → IsWfMap m
      → IsWf (rest_of tp) t
      → IsWfMap (put_tree m tp t)
  put_tree-IsWfMap m tp t v w = record {
    at = λ k. elim (Bool-cases (kind_eq tp k)) [
      | inl y ↦ rw (get_tree-put_tree m tp k t, y, ← kind_eq→≡ tp k y) w
      | inr n ↦ rw (get_tree-put_tree m tp k t, n) (v.at k)
    ];
  }

  pub empty_map-IsWfMap : IsWfMap empty_map
  unfolding get_tree
  empty_map-IsWfMap = record {
    at = elim [
      | ItemKind.unit ↦ empty_tree-IsWf (rest_of ItemKind.unit)
      | ItemKind.sensor ↦ empty_tree-IsWf (rest_of ItemKind.sensor)
      | ItemKind.lvar ↦ empty_tree-IsWf (rest_of ItemKind.lvar)
      | ItemKind.lmacro ↦ empty_tree-IsWf (rest_of ItemKind.lmacro)
    ];
  }

  pub get-empty_map : (oid : OID) → get empty_map oid ≡ none
  get-empty_map oid =
      rw (get-eq-lookup empty_map oid empty_map-IsWfMap, rest_of_own oid)
        (nothing (kind oid) (chunks oid) oid)
    where
      nothing :
          (tp : ItemKind) (p : List String) (o : OID) → member (get_tree empty_map tp) p o ≡ none
      nothing ItemKind.unit p o = unfold get_tree in member-empty_tree p o
      nothing ItemKind.sensor p o = unfold get_tree in member-empty_tree p o
      nothing ItemKind.lvar p o = unfold get_tree in member-empty_tree p o
      nothing ItemKind.lmacro p o = unfold get_tree in member-empty_tree p o

  -- what a map with a new tree of the kind of `o` holds
  lookup-put_tree :
      (m : ItemMap) (o oid : OID) (t : ItemTree) (new : Option Item)
      → lookup (rest_of (kind o) oid) t oid
        ≡ (if o == oid then new else lookup (rest_of (kind o) oid) (get_tree m (kind o)) oid)
      → lookup (rest_of (kind oid) oid) (get_tree (put_tree m (kind o) t) (kind oid)) oid
        ≡ (if o == oid then new else lookup (rest_of (kind oid) oid) (get_tree m (kind oid)) oid)
  lookup-put_tree m o oid t new f = elim (Bool-cases (kind_eq (kind o) (kind oid))) [
    | inl y ↦
        rw (get_tree-put_tree m (kind o) (kind oid) t, y, ← kind_eq→≡ (kind o) (kind oid) y)
          (rw (← kind_eq→≡ (kind o) (kind oid) y) at f)
    | inr n ↦
        rw (get_tree-put_tree m (kind o) (kind oid) t, n)
          (let differ : (o == oid) ≡ false =
              ne→beq o oid (λ e. false≢true (sym n ∙ (rw (← e) (kind_eq_refl (kind o))))) in
            rw differ)
  ]

  put_tree_same : (m : ItemMap) (tp : ItemKind) → put_tree m tp (get_tree m tp) ≡ m
  unfolding put_tree get_tree
  put_tree_same m tp = ground arith

  module _ (m : ItemMap) (v : IsWfMap m) where
    tree-Appended :
        (i : Item) (replace : Bool)
        → (is_some (get m i.oid) && not replace) ≡ false
        → ((append_rec (get_tree m (kind i.oid)) (chunks i.oid) i replace).1 ≡ ok tt)
          × Appended
              (rest_of (kind i.oid))
              (get_tree m (kind i.oid))
              i
              (append_rec (get_tree m (kind i.oid)) (chunks i.oid) i replace).0
    tree-Appended i replace h =
        append_rec-Appended (rest_of (kind i.oid)) (chunks i.oid) (get_tree m (kind i.oid)) i
          replace (v.at (kind i.oid)) (rest_of_own i.oid)
          (rw (get-eq-lookup m i.oid v, rest_of_own i.oid) at h)

    -- In a well-formed item map, appending an item that is new, or with leave to replace,
    -- succeeds, keeps the invariant of the four trees, and changes the reading at the OID of the
    -- item and nowhere else.
    pub append_lem :
        (i : Item) (replace : Bool)
        → (is_some (get m i.oid) && not replace) ≡ false
        → ((append m i replace).1 ≡ ok tt)
          × IsWfMap (append m i replace).0
          × ((oid : OID)
              → get (append m i replace).0 oid ≡ (if i.oid == oid then some i else get m oid))
    unfolding append
    append_lem i replace h =
        let (done, a) = tree-Appended i replace h in
        let w = put_tree-IsWfMap m (kind i.oid) _ v a.well in
        (
          done,
          w,
          λ oid.
              rw (get-eq-lookup _ oid w, get-eq-lookup m oid v)
                (lookup-put_tree m i.oid oid _ (some i) (a.found oid)),
        )

    -- An item that is registered is refused where it must not be replaced, and the map stays.
    pub append_duplicate :
        (i : Item) → is_some (get m i.oid) ≡ true → append m i false ≡ (m, err duplicate)
    unfolding append
    append_duplicate i h =
        rw
          (append_rec_duplicate (rest_of (kind i.oid)) (chunks i.oid) (get_tree m (kind i.oid)) i
            (v.at (kind i.oid)) (rest_of_own i.oid)
            (rw (get-eq-lookup m i.oid v, rest_of_own i.oid) at h))
          (ap (λ x. (x, err duplicate)) (put_tree_same m (kind i.oid)))

    -- Removing from a well-formed item map returns what the map read at the OID, keeps the
    -- invariant of the four trees, and clears that reading and no other.
    pub remove_lem :
        (gone : OID)
        → ((remove m gone).1 ≡ get m gone)
          × IsWfMap (remove m gone).0
          × ((oid : OID) → get (remove m gone).0 oid ≡ (if gone == oid then none else get m oid))
    unfolding remove
    remove_lem gone =
        let (returned, a) =
          remove_rec-Removed (rest_of (kind gone)) (chunks gone) (get_tree m (kind gone)) gone
            (v.at (kind gone)) (rest_of_own gone) in
        let w = put_tree-IsWfMap m (kind gone) _ v a.well in
        (
          returned ∙ sym (rw (get-eq-lookup m gone v, rest_of_own gone)),
          w,
          λ oid.
              rw (get-eq-lookup _ oid w, get-eq-lookup m oid v)
                (lookup-put_tree m gone oid _ none (a.found oid)),
        )
