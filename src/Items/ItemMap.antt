-- ===== src/Items/ItemMap.antt =====
-- eva/src/items.rs: `ItemMap`, a tree for each kind of items.
pub mod View
pub mod Masks
pub mod Search
use eva.Base.{
  String, Option, none, some, Bool, true, false, not, ◌&&◌, if◌then◌else◌, EResult, List, [], ◌∷◌,
  ◌++◌,
}
use eva.Base.Dict.{values}
use eva.Base.Lists.{retain}
use eva.Base.Text.{split_at}
use eva.Common.{Common, ItemKind, kind_eq}
use eva.Items.Data.{Item}
use eva.Items.Filter.{Filter, matches}
use eva.Items.Tree.{ItemTree, empty_tree, append_rec, get_rec, remove_rec, mask_rec, wildcard_of}

module _ ⦃c : Common⦄ where
  open c use {OID, kind, full_id, OIDMask, mask_kind, mask_chunks}

  pub record ItemMap : Type 0 where
    pub unit : ItemTree
    pub sensor : ItemTree
    pub lvar : ItemTree
    pub lmacro : ItemTree

  abbrev pub empty_map : ItemMap
  empty_map = record {
    unit = empty_tree;
    sensor = empty_tree;
    lvar = empty_tree;
    lmacro = empty_tree;
  }

  -- `oid.full_id().split('/')`
  unfoldable pub chunks : OID → List String
  chunks oid = split_at b'/' (full_id oid)

  unfoldable pub get_tree : ItemMap → ItemKind → ItemTree
  get_tree m ItemKind.unit = m.unit
  get_tree m ItemKind.sensor = m.sensor
  get_tree m ItemKind.lvar = m.lvar
  get_tree m ItemKind.lmacro = m.lmacro

  -- a write through `get_tree_mut`
  unfoldable pub put_tree : ItemMap → ItemKind → ItemTree → ItemMap
  put_tree m ItemKind.unit t = record m { unit = t }
  put_tree m ItemKind.sensor t = record m { sensor = t }
  put_tree m ItemKind.lvar t = record m { lvar = t }
  put_tree m ItemKind.lmacro t = record m { lmacro = t }

  unfoldable pub append : ItemMap → Item → Bool → ItemMap × EResult (Unit {0})
  append m item replace =
      let (t, r) = append_rec (get_tree m (kind item.oid)) (chunks item.oid) item replace in
      (put_tree m (kind item.oid) t, r)

  unfoldable pub get : ItemMap → OID → Option Item
  get m oid = get_rec (get_tree m (kind oid)) (chunks oid)

  unfoldable pub remove : ItemMap → OID → ItemMap × Option Item
  remove m oid =
      let (t, r) = remove_rec (get_tree m (kind oid)) (chunks oid) oid in
      (put_tree m (kind oid) t, r)

  -- the items of one tree; without chunks the mask is of everything
  unfoldable pub tree_by_mask : ItemTree → Option (List String) → Filter → List Item
  tree_by_mask tree none filter = retain (matches filter) (values (wildcard_of tree))
  tree_by_mask tree (some mask) filter = mask_rec tree mask filter

  unfoldable pub kind_by_mask :
      ItemMap → Option ItemKind → Option (List String) → Filter → Bool → List Item
  kind_by_mask m (some tp) mask filter include_stateless =
      if kind_eq tp ItemKind.lmacro && not include_stateless
      then []
      else tree_by_mask (get_tree m tp) mask filter
  kind_by_mask m none mask filter include_stateless =
      tree_by_mask m.unit mask filter
      ++ (tree_by_mask m.sensor mask filter
          ++ (tree_by_mask m.lvar mask filter
              ++ (if include_stateless then tree_by_mask m.lmacro mask filter else [])))

  unfoldable pub get_by_mask : ItemMap → OIDMask → Filter → Bool → List Item
  get_by_mask m mask filter include_stateless =
      kind_by_mask m (mask_kind mask) (mask_chunks mask) filter include_stateless
