-- ===== src/Items/ItemMap/Masks.antt =====
-- `get_by_mask` of eva/src/items.rs: what a mask selects, and the search of one tree.
use eva.Base.{
  String, Option, none, some, Bool, true, not, ◌&&◌, ◌||◌, ◌≡◌, refl, sym, ap, subst, ◌∙◌, ◌≢◌,
  List, [], ◌∷◌, arith,
}
use eva.Base.Dict.{get as get_key, In-values, values-In, values, Distinct}
use eva.Base.Lists.{In, In-retain, In-retain_intro}
use eva.Base.Text.{split_at-ne-nil}
use eva.Common.{Common, ItemKind, kind_eq, oid-Eq}
use eva.Items.Data.{Item}
use eva.Items.Filter.{Filter, matches}
use eva.Items.Tree.{ItemTree, node, wildcard_of}
use eva.Items.Tree.Find.{
  Rest, IsWf, wf, lookup, member, member_at, down, member_at-child, child_of_member_at,
}
use eva.Items.Tree.Append.{down_place}
use eva.Items.Tree.Mask.{path_matches}
use eva.Items.Tree.Search.{mask_rec_iff}
use eva.Items.ItemMap.{ItemMap, chunks, get_tree, get, tree_by_mask}
use eva.Items.ItemMap.View.{rest_of, rest_of_own, IsWfMap, get-eq-lookup, kind_eq→≡}

module _ ⦃c : Common⦄ where
  open c use {OID, kind, full_id, OIDMask, mask_kind, mask_chunks}

  -- What a mask says of an OID: of its kind, where macros want `include_stateless`, ...
  abbrev pub kind_selected : Option ItemKind → Bool → ItemKind → Bool
  kind_selected (some tp) include_stateless k =
      kind_eq tp k && (include_stateless || not (kind_eq tp ItemKind.lmacro))
  kind_selected none include_stateless k = include_stateless || not (kind_eq k ItemKind.lmacro)

  -- ... and of its chunks.
  abbrev pub chunks_selected : Option (List String) → List String → Bool
  chunks_selected none p = true
  chunks_selected (some mask) p = path_matches mask p

  abbrev pub mask_selects : OIDMask → Bool → OID → Bool
  mask_selects mask include_stateless oid =
      kind_selected (mask_kind mask) include_stateless (kind oid)
      && chunks_selected (mask_chunks mask) (chunks oid)

  -- A member of a well-formed tree carries the OID under which it stands.
  oid-member :
      (r : Rest) (p : List String) (t : ItemTree) (oid : OID) {i : Item}
      → IsWf r t
      → r oid ≡ some p
      → member t p oid ≡ some i
      → i.oid ≡ oid
  unfolding member member_at
  oid-member r [] (node cs m w) oid {i} (wf keys wild dm dw dc full kids) place h = (keys oid i h).1
  oid-member r (x ∷ p) (node cs m w) oid (wf keys wild dm dw dc full kids) place h =
      let (u, k) = child_of_member_at x p cs oid h in
      oid-member (down r x) p u oid (kids x u k) (down_place r x p oid place)
        (sym (member_at-child x p cs u oid k) ∙ h)

  place_inv :
      (tp : ItemKind) (oid : OID) (p : List String)
      → rest_of tp oid ≡ some p
      → (kind oid ≡ tp) × (chunks oid ≡ p)
  place_inv tp oid p h = (ground (arith, kind_eq→≡ (kind oid) tp), ground arith)

  -- An item of one tree that the chunks of a mask and the filter let through.
  abbrev pub Picked : ItemMap → ItemKind → Option (List String) → Filter → Item → Type 0
  Picked m tp mask f i =
      (kind i.oid ≡ tp)
      × (get m i.oid ≡ some i)
      × (chunks_selected mask (chunks i.oid) ≡ true)
      × (matches f i ≡ true)

  module _ (m : ItemMap) (v : IsWfMap m) where
    pick :
        (tp : ItemKind) (mask : Option (List String)) (f : Filter) (oid : OID) (p : List String)
        {i : Item}
        → rest_of tp oid ≡ some p
        → chunks_selected mask p ≡ true
        → member (get_tree m tp) p oid ≡ some i
        → matches f i ≡ true
        → Picked m tp mask f i
    pick tp mask f oid p {i} place s mem t =
        let same : i.oid ≡ oid =
          oid-member (rest_of tp) p (get_tree m tp) oid (v.at tp) place mem in
        let (k, q) = place_inv tp oid p place in
        (
          rw same k,
          ap (get m) same ∙ (get-eq-lookup m oid v ∙ (rw (rest_of_own oid, k, q) mem)),
          rw (same, q) s,
          t,
        )

    wildcard-Distinct : (r : Rest) (t : ItemTree) → IsWf r t → Distinct (wildcard_of t)
    wildcard-Distinct r (node cs a w) (wf keys wild dm dw dc full kids) = dw

    wildcard_member :
        (tp : ItemKind) (oid : OID) (t : ItemTree) (ro : Option (List String)) {i : Item}
        → IsWf (rest_of tp) t
        → rest_of tp oid ≡ ro
        → get_key oid (wildcard_of t) ≡ some i
        → (p : List String) × (rest_of tp oid ≡ some p) × (member t p oid ≡ some i)
    unfolding member member_at
    wildcard_member tp oid (node cs a w) none (wf keys wild dm dw dc full kids) e h =
        ground (arith, wild oid)
    wildcard_member tp oid (node cs a w) (some []) (wf keys wild dm dw dc full kids) e h =
        ground (arith, wild oid)
    wildcard_member tp oid (node cs a w) (some (x ∷ p)) (wf keys wild dm dw dc full kids) e h =
        (x ∷ p, e, ground (arith, wild oid))

    member_wildcard :
        (tp : ItemKind) (oid : OID) (t : ItemTree) (p : List String) {i : Item}
        → IsWf (rest_of tp) t
        → rest_of tp oid ≡ some p
        → p ≢ []
        → member t p oid ≡ some i
        → get_key oid (wildcard_of t) ≡ some i
    unfolding member member_at
    member_wildcard tp oid t [] w place n h = absurd (n refl)
    member_wildcard tp oid (node cs a w) (x ∷ p) (wf keys wild dm dw dc full kids) place n h =
        ground (arith, wild oid, place)

    pub tree_by_mask-Picked :
        (tp : ItemKind) (mask : Option (List String)) (f : Filter) {i : Item}
        → In i (tree_by_mask (get_tree m tp) mask f)
        → Picked m tp mask f i
    unfolding tree_by_mask
    tree_by_mask-Picked tp none f h =
        let w = v.at tp in
        let (l, t) = In-retain (matches f) (values (wildcard_of (get_tree m tp))) h in
        let (oid, g) = In-values _ (wildcard-Distinct (rest_of tp) (get_tree m tp) w) l in
        let (p, place, mem) = wildcard_member tp oid (get_tree m tp) (rest_of tp oid) w refl g in
        pick tp none f oid p place refl mem t
    tree_by_mask-Picked tp (some mask) f {i} h =
        let (oid, p, place, pm, mem, t) =
          (mask_rec_iff (rest_of tp) mask (get_tree m tp) f i (v.at tp)).0 h in
        pick tp (some mask) f oid p place pm mem t

    pub Picked-tree_by_mask :
        (tp : ItemKind) (mask : Option (List String)) (f : Filter) (i : Item)
        → Picked m tp mask f i
        → In i (tree_by_mask (get_tree m tp) mask f)
    unfolding tree_by_mask
    Picked-tree_by_mask tp mask f i (k, g, s, t) = go mask s
      where
        place : rest_of tp i.oid ≡ some (chunks i.oid)
        place = subst (λ t. rest_of t i.oid ≡ some (chunks i.oid)) k (rest_of_own i.oid)

        mem : member (get_tree m tp) (chunks i.oid) i.oid ≡ some i
        mem =
            subst (λ t. member (get_tree m t) (chunks i.oid) i.oid ≡ some i) k
              (subst (λ ro. lookup ro (get_tree m (kind i.oid)) i.oid ≡ some i) (rest_of_own i.oid)
                (sym (get-eq-lookup m i.oid v) ∙ g))

        go :
            (mask' : Option (List String))
            → chunks_selected mask' (chunks i.oid) ≡ true
            → In i (tree_by_mask (get_tree m tp) mask' f)
        go none s' =
            In-retain_intro (matches f)
              (values-In i.oid (wildcard_of (get_tree m tp)) (
                member_wildcard tp i.oid (get_tree m tp) (chunks i.oid) (v.at tp) place
                  (unfold chunks in split_at-ne-nil b'/' (full_id i.oid)) mem))
              t
        go (some mask') s' =
            (mask_rec_iff (rest_of tp) mask' (get_tree m tp) f i (v.at tp)).1
              (i.oid, chunks i.oid, place, s', mem, t)

    -- What the map reads at an OID carries that OID.
    pub oid-get : (oid : OID) {i : Item} → get m oid ≡ some i → i.oid ≡ oid
    oid-get oid {i} h =
        oid-member (rest_of (kind oid)) (chunks oid) (get_tree m (kind oid)) oid (v.at (kind oid))
          (rest_of_own oid)
          (subst (λ ro. lookup ro (get_tree m (kind oid)) oid ≡ some i) (rest_of_own oid)
            (sym (get-eq-lookup m oid v) ∙ h))
