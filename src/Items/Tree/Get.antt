-- ===== src/Items/Tree/Get.antt =====
-- `get_item_rec` of eva/src/items.rs, against what a tree holds.
use eva.Base.{String, Option, none, some, ◌≡◌, refl, List, [], ◌∷◌}
use eva.Base.Eq.{beq_refl}
use eva.Base.Dict.{Dict, get}
use eva.Common.{Common, oid-Eq}
use eva.Items.Data.{Item}
use eva.Items.Tree.{ItemTree, Childs, node, get_child, get_rec, first_value}
use eva.Items.Tree.Find.{Rest, down, member, IsWf, wf}
use eva.Items.Tree.Append.{down_place}
use eva.Items.Tree.Search.{up_place}

module _ ⦃c : Common⦄ where
  open c use {OID}

  -- OIDs with the same chunks left are the same.
  abbrev pub IsInjective : Rest → Type 0
  IsInjective r = (a b : OID) (p : List String) → r a ≡ some p → r b ≡ some p → a ≡ b

  first_value-get :
      (r : Rest) (m : Dict OID Item) (oid : OID)
      → IsInjective r
      → ((o : OID) (i : Item) → get o m ≡ some i → (r o ≡ some []) × (i.oid ≡ o))
      → r oid ≡ some []
      → first_value m ≡ get oid m
  unfolding get
  first_value-get r [] oid inj keys place = refl
  first_value-get r ((k, i) ∷ m) oid inj keys place =
      let here : get k ((k, i) ∷ m) ≡ some i = rw (beq_refl k) in
      let same : k ≡ oid = inj k oid [] (keys k i here).0 place in
      rw ((c.oid_eq.decides k oid).1 same)

  get_below :
      (r : Rest) (x : String) (p : List String) (cs : Childs) (m w : Dict OID Item) (oid : OID)
      → ((t : ItemTree) → get_child x cs ≡ some t → get_rec t p ≡ member t p oid)
      → get_rec (node cs m w) (x ∷ p) ≡ member (node cs m w) (x ∷ p) oid
  unfolding get_rec member
  get_below r x p cs m w oid h = go (get_child x cs) h
    where
      go :
          (o : Option ItemTree)
          → ((t : ItemTree) → o ≡ some t → get_rec t p ≡ member t p oid)
          → ◌≡◌ {A = Option Item}
              (elim o [ none ↦ none | some u ↦ get_rec u p ])
              (elim o [ none ↦ none | some u ↦ member u p oid ])
      go none k = refl
      go (some t) k = k t refl

  pub get_rec-eq-member :
      (r : Rest) (p : List String) (t : ItemTree) (oid : OID)
      → IsInjective r
      → IsWf r t
      → r oid ≡ some p
      → get_rec t p ≡ member t p oid
  unfolding get_rec member
  get_rec-eq-member r [] (node cs m w) oid inj (wf keys wild dm dw dc full kids) place =
      first_value-get r m oid inj keys place
  get_rec-eq-member r (x ∷ p) (node cs m w) oid inj (wf keys wild dm dw dc full kids) place =
      get_below r x p cs m w oid λ t k.
        get_rec-eq-member (down r x) p t oid
          (λ a b q ha hb. inj a b (x ∷ q) (up_place r x q a ha) (up_place r x q b hb)) (kids x t k)
          (down_place r x p oid place)
