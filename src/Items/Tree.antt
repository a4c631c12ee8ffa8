-- ===== src/Items/Tree.antt =====
-- eva/src/items.rs: `ItemTree` and the four recursive walks over it. A walk takes the chunks that
-- `Split` has left; a walk that changes the tree returns the tree as it leaves it, on errors too.
pub mod ChildMap
pub mod Find
pub mod Append
pub mod Remove
pub mod Mask
pub mod Search
pub mod Get
use eva.Base.{
  String, Option, none, some, Bool, true, false, not, ◌&&◌, if◌then◌else◌, Error, duplicate,
  EResult, ok, err, List, [], ◌∷◌, ◌++◌, str_eq,
}
use eva.Base.Dict.{Dict, values, get, insert, remove, contains_key, is_empty}
use eva.Base.Lists.{retain}
use eva.Common.{Common, oid-Eq}
use eva.Items.Data.{Item}
use eva.Items.Filter.{Filter, matches}

module _ ⦃c : Common⦄ where
  open c use {OID, strip_formula, formula_matches, strip_regex, Regex, regex_new, is_match}

  -- The map `childs` holds trees, so it is a list of the same block.
  mutual
    pub data ItemTree : Type 0 where
      node : Childs → Dict OID Item → Dict OID Item → ItemTree

    pub data Childs : Type 0 where
      no_childs : Childs
      child : String → ItemTree → Childs → Childs

  abbrev pub empty_tree : ItemTree
  empty_tree = node no_childs [] []

  unfoldable pub get_child : String → Childs → Option ItemTree
  get_child k no_childs = none
  get_child k (child j t cs) = if str_eq j k then some t else get_child k cs

  unfoldable pub set_child : String → ItemTree → Childs → Childs
  set_child k t no_childs = child k t no_childs
  set_child k t (child j u cs) = if str_eq j k then child k t cs else child j u (set_child k t cs)

  unfoldable pub remove_child : String → Childs → Childs
  remove_child k no_childs = no_childs
  remove_child k (child j t cs) =
      if str_eq j k then remove_child k cs else child j t (remove_child k cs)

  abbrev pub is_childless : Childs → Bool
  is_childless no_childs = true
  is_childless (child _ _ _) = false

  unfoldable pub tree_is_empty : ItemTree → Bool
  tree_is_empty (node childs members _) = is_childless childs && is_empty members

  abbrev pub first_value : Dict OID Item → Option Item
  first_value [] = none
  first_value ((_, i) ∷ _) = some i

  abbrev pub members_of : ItemTree → Dict OID Item
  members_of (node _ members _) = members

  abbrev pub childs_of : ItemTree → Childs
  childs_of (node childs _ _) = childs

  abbrev pub wildcard_of : ItemTree → Dict OID Item
  wildcard_of (node _ _ wildcard) = wildcard

  -- `get_item_rec`
  unfoldable pub get_rec : ItemTree → List String → Option Item
  get_rec tree [] = first_value (members_of tree)
  get_rec tree (chunk ∷ sp) = elim (get_child chunk (childs_of tree)) [
    | none ↦ none
    | some c ↦ get_rec c sp
  ]

  -- the child as the recursive call left it; a new child is stored only if the call succeeded
  abbrev put_back :
      String → Bool → Childs → ItemTree × EResult (Unit {0}) → Childs × EResult (Unit {0})
  put_back chunk old childs (c, ok u) = (set_child chunk c childs, ok u)
  put_back chunk true childs (c, err e) = (set_child chunk c childs, err e)
  put_back chunk false childs (c, err e) = (childs, err e)

  abbrev with_childs :
      Dict OID Item → Dict OID Item → Childs × EResult (Unit {0}) → ItemTree × EResult (Unit {0})
  with_childs members wildcard (childs, r) = (node childs members wildcard, r)

  -- `append_item_rec`
  unfoldable pub append_rec : ItemTree → List String → Item → Bool → ItemTree × EResult (Unit {0})
  append_rec (node childs members wildcard) [] item replace =
      if contains_key item.oid members && not replace
      then (node childs members wildcard, err duplicate)
      else (node childs (insert item.oid item members) wildcard, ok tt)
  append_rec (node childs members wildcard) (chunk ∷ sp) item replace =
      if contains_key item.oid wildcard && not replace
      then (node childs members wildcard, err duplicate)
      else with_childs members (insert item.oid item wildcard) (elim (get_child chunk childs) [
        | some c ↦ put_back chunk true childs (append_rec c sp item replace)
        | none ↦ put_back chunk false childs (append_rec empty_tree sp item replace)
      ])

  -- the child as the removal left it: gone if it was found and is empty now
  abbrev prune : String → Childs → ItemTree × Option Item → Childs × Option Item
  prune chunk childs (c, none) = (set_child chunk c childs, none)
  prune chunk childs (c, some item) =
      (if tree_is_empty c then remove_child chunk childs else set_child chunk c childs, some item)

  abbrev with_pruned : Dict OID Item → Dict OID Item → Childs × Option Item → ItemTree × Option Item
  with_pruned members wildcard (childs, r) = (node childs members wildcard, r)

  -- `remove_item_rec`
  unfoldable pub remove_rec : ItemTree → List String → OID → ItemTree × Option Item
  remove_rec (node childs members wildcard) [] oid =
      (node childs (remove oid members) wildcard, get oid members)
  remove_rec (node childs members wildcard) (chunk ∷ sp) oid = elim (get oid wildcard) [
    | none ↦ (node childs members wildcard, none)
    | some _ ↦ with_pruned members (remove oid wildcard) (elim (get_child chunk childs) [
      | none ↦ (childs, none)
      | some c ↦ prune chunk childs (remove_rec c sp oid)
    ])
  ]

  -- `for child in tree.childs`, over those whose name passes a test
  unfoldable pub collect : (String → Bool) → (ItemTree → List Item) → Childs → List Item
  collect p f no_childs = []
  collect p f (child name t cs) = let rest = collect p f cs in if p name then f t ++ rest else rest

  abbrev pub any_name : String → Bool
  any_name _ = true

  -- a chunk with the prefix of a regex, of which one that does not compile matches nothing, or a name
  abbrev pub walk_compiled : Option Regex → (ItemTree → List Item) → Childs → List Item
  walk_compiled none f cs = []
  walk_compiled (some re) f cs = collect (is_match re) f cs

  abbrev pub walk_child : Option ItemTree → (ItemTree → List Item) → List Item
  walk_child none f = []
  walk_child (some t) f = f t

  abbrev pub walk_regex : Option String → String → (ItemTree → List Item) → Childs → List Item
  walk_regex (some rx) chunk f cs = walk_compiled (regex_new rx) f cs
  walk_regex none chunk f cs = walk_child (get_child chunk cs) f

  abbrev pub walk_formula : Option String → String → (ItemTree → List Item) → Childs → List Item
  walk_formula (some formula) chunk f cs = collect (formula_matches formula) f cs
  walk_formula none chunk f cs = walk_regex (strip_regex chunk) chunk f cs

  -- one chunk of the mask, `f` being the walk by the other chunks
  unfoldable pub walk_chunk : String → (ItemTree → List Item) → Childs → List Item
  walk_chunk chunk f cs =
      if str_eq chunk "+"
      then collect any_name f cs
      else walk_formula (strip_formula chunk) chunk f cs

  -- `get_item_by_mask_rec`, the items that it adds to `result`
  unfoldable pub mask_rec : ItemTree → List String → Filter → List Item
  mask_rec tree [] filter = retain (matches filter) (values (members_of tree))
  mask_rec tree (chunk ∷ iter) filter =
      let deeper = walk_chunk chunk (λ t. mask_rec t iter filter) (childs_of tree) in
      if str_eq chunk "#" then retain (matches filter) (values (wildcard_of tree)) else deeper
