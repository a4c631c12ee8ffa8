-- ===== src/Items/Tree/Search.antt =====
-- `get_item_by_mask_rec` of eva/src/items.rs: what a search of a tree returns.
use eva.Base.{
  String, Option, none, some, true, false, ◌≡◌, refl, sym, ◌∙◌, List, [], ◌∷◌, arith, str_eq,
  str_eq_iff, Bool-cases, and_true, inl, inr, false≢true, ◌↔◌,
}
use eva.Base.Dict.{Dict, values, In-values, values-In}
use eva.Base.Lists.{In, In-retain, In-retain_intro}
use eva.Common.{Common, oid-Eq}
use eva.Items.Data.{Item}
use eva.Items.Filter.{Filter, matches}
use eva.Items.Tree.{ItemTree, Childs, node, get_child, mask_rec}
use eva.Items.Tree.Find.{
  Rest, advance_by, down, member, member_at, below, IsWf, wf, member_at-child, child_of_member_at,
}
use eva.Items.Tree.Append.{down_place}
use eva.Items.Tree.Mask.{chunk_matches, path_matches, In-walk_chunk, walk_chunk-In}

module _ ⦃c : Common⦄ where
  open c use {OID}

  -- An item that the tree holds, whose path the mask matches, and that passes the filter.
  abbrev pub Selected : Rest → ItemTree → List String → Filter → Item → Type 0
  Selected r t mask f i =
      (oid : OID) × (p : List String) × (r oid ≡ some p)
      × (path_matches mask p ≡ true)
      × (member t p oid ≡ some i)
      × (matches f i ≡ true)

  pub up_place :
      (r : Rest) (x : String) (p : List String) (oid : OID)
      → down r x oid ≡ some p
      → r oid ≡ some (x ∷ p)
  up_place r x p oid h = go (r oid) refl h
    where
      go :
          (ro : Option (List String)) → r oid ≡ ro → advance_by x ro ≡ some p → r oid ≡ some (x ∷ p)
      go none e k = cc
      go (some []) e k = cc
      go (some (y ∷ q)) e k = ground (arith, str_eq_iff x y)

  below-Selected :
      (r : Rest) (cs : Childs) (m w : Dict OID Item) (chunk : String) (iter : List String)
      (f : Filter) (oid : OID) (ro : Option (List String)) {i : Item}
      → str_eq chunk "#" ≡ true
      → r oid ≡ ro
      → below ro cs oid ≡ some i
      → matches f i ≡ true
      → Selected r (node cs m w) (chunk ∷ iter) f i
  below-Selected r cs m w chunk iter f oid none y e b t = cc
  below-Selected r cs m w chunk iter f oid (some []) y e b t = cc
  below-Selected r cs m w chunk iter f oid (some (x ∷ p)) y e b t =
      (oid, x ∷ p, e, unfold path_matches in rw y, unfold member member_at in b, t)

  Selected-child :
      (r : Rest) (cs : Childs) (m w : Dict OID Item) (chunk : String) (iter : List String)
      (f : Filter) (x : String) (u : ItemTree) {i : Item}
      → get_child x cs ≡ some u
      → str_eq chunk "#" ≡ false
      → chunk_matches chunk x ≡ true
      → Selected (down r x) u iter f i
      → Selected r (node cs m w) (chunk ∷ iter) f i
  unfolding path_matches member
  Selected-child r cs m w chunk iter f x u k n q (oid, p, place, pm, mem, t) =
      (oid, x ∷ p, up_place r x p oid place, ground arith, ground arith, t)

  mask_rec-Selected :
      (r : Rest) (mask : List String) (t : ItemTree) (f : Filter) {i : Item}
      → IsWf r t
      → In i (mask_rec t mask f)
      → Selected r t mask f i
  unfolding mask_rec
  mask_rec-Selected r [] (node cs m w) f (wf keys wild dm dw dc full kids) h =
      let (v, t) = In-retain (matches f) (values m) h in
      let (oid, g) = In-values m dm v in
      (oid, [], (keys oid _ g).0, unfold path_matches in refl, unfold member in g, t)
  mask_rec-Selected r (chunk ∷ iter) (node cs m w) f (wf keys wild dm dw dc full kids) h =
      elim (Bool-cases (str_eq chunk "#")) [
        | inl y ↦
            let (v, t) = In-retain (matches f) (values w) (rw y at h) in
            let (oid, g) = In-values w dw v in
            below-Selected r cs m w chunk iter f oid (r oid) y refl (sym (wild oid) ∙ g) t
        | inr n ↦
            let (x, u, k, q, l) = In-walk_chunk chunk (λ t. mask_rec t iter f) cs dc (rw n at h) in
            Selected-child r cs m w chunk iter f x u k n q
              (mask_rec-Selected (down r x) iter u f (kids x u k) l)
      ]

  Selected-mask_rec :
      (r : Rest) (mask p : List String) (t : ItemTree) (f : Filter) (oid : OID) {i : Item}
      → IsWf r t
      → r oid ≡ some p
      → path_matches mask p ≡ true
      → member t p oid ≡ some i
      → matches f i ≡ true
      → In i (mask_rec t mask f)
  unfolding mask_rec member path_matches member_at
  Selected-mask_rec r [] [] (node cs m w) f oid v place pm mem t =
      In-retain_intro (matches f) (values-In oid m mem) t
  Selected-mask_rec r [] (x ∷ p) t f oid v place pm mem t' = absurd (false≢true pm)
  Selected-mask_rec r (chunk ∷ iter) [] t f oid v place pm mem t' = absurd (false≢true pm)
  Selected-mask_rec r (chunk ∷ iter) (x ∷ p) (node cs m w) f oid {i}
        (wf keys wild dm dw dc full kids) place pm mem t =
      let b : member_at x p cs oid ≡ some i = mem in
      elim (Bool-cases (str_eq chunk "#")) [
        | inl y ↦
            rw y
              (In-retain_intro (matches f) (values-In oid w (ground (arith, wild oid, place, b))) t)
        | inr n ↦
            let (u, k) = child_of_member_at x p cs oid b in
            let (here_matches, rest_matches) =
              and_true (chunk_matches chunk x) (path_matches iter p) (rw n at pm) in
            rw n (
              walk_chunk-In chunk (λ t. mask_rec t iter f) cs x u k here_matches
                (Selected-mask_rec (down r x) iter p u f oid (kids x u k)
                  (down_place r x p oid place) rest_matches
                  (sym (member_at-child x p cs u oid k) ∙ b) t))
      ]

  -- A search of a tree returns exactly the items that it holds, whose path the mask matches, and that
  -- pass the filter.
  pub mask_rec_iff :
      (r : Rest) (mask : List String) (t : ItemTree) (f : Filter) (i : Item)
      → IsWf r t
      → In i (mask_rec t mask f) ↔ Selected r t mask f i
  mask_rec_iff r mask t f i v = (
    mask_rec-Selected r mask t f v,
    λ (oid, p, place, pm, mem, pass). Selected-mask_rec r mask p t f oid v place pm mem pass,
  )
