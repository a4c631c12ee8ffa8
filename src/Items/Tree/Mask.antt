-- ===== src/Items/Tree/Mask.antt =====
-- `get_item_by_mask_rec` of eva/src/items.rs: the paths that a mask matches, and one turn of the
-- walk.
use eva.Base.{
  String, Option, none, some, Bool, true, false, ◌&&◌, if◌then◌else◌, ◌≡◌, refl, sym, subst, List,
  [], ◌∷◌, arith, str_eq, str_eq_iff, Bool-cases, inl, inr, false≢true,
}
use eva.Base.Lists.{In, not-In_nil, In-append_left, In-append_right, In-append_inv}
use eva.Common.{Common, oid-Eq}
use eva.Items.Data.{Item}
use eva.Items.Tree.{
  ItemTree, Childs, no_childs, child, get_child, collect, walk_chunk, any_name, walk_compiled,
  walk_child, walk_regex, walk_formula,
}
use eva.Items.Tree.ChildMap.{DistinctNames}

module _ ⦃c : Common⦄ where
  open c use {OID, strip_formula, formula_matches, strip_regex, Regex, regex_new, is_match}

  abbrev name_compiled : Option Regex → String → Bool
  name_compiled none name = false
  name_compiled (some re) name = is_match re name

  abbrev name_regex : Option String → String → String → Bool
  name_regex (some rx) chunk name = name_compiled (regex_new rx) name
  name_regex none chunk name = str_eq chunk name

  abbrev name_formula : Option String → String → String → Bool
  name_formula (some formula) chunk name = formula_matches formula name
  name_formula none chunk name = name_regex (strip_regex chunk) chunk name

  -- What one chunk of a mask says of one name.
  unfoldable pub chunk_matches : String → String → Bool
  chunk_matches chunk name =
      if str_eq chunk "+" then true else name_formula (strip_formula chunk) chunk name

  -- What a mask says of the path of an item: `#` takes everything below.
  unfoldable pub path_matches : List String → List String → Bool
  path_matches [] [] = true
  path_matches [] (x ∷ p) = false
  path_matches (chunk ∷ mask) [] = false
  path_matches (chunk ∷ mask) (x ∷ p) =
      let deeper = chunk_matches chunk x && path_matches mask p in
      if str_eq chunk "#" then true else deeper

  -- A child of the map with a property, and what a walk of it returns.
  abbrev InChild : (String → Bool) → (ItemTree → List Item) → Childs → Item → Type 0
  InChild p f cs i =
      (x : String) × (t : ItemTree) × (get_child x cs ≡ some t) × (p x ≡ true) × In i (f t)

  get_child_later :
      (x name : String) (t u : ItemTree) (cs : Childs)
      → get_child name cs ≡ none
      → get_child x cs ≡ some t
      → get_child x (child name u cs) ≡ some t
  unfolding get_child
  get_child_later x name t u cs d h = ground (arith, str_eq_iff name x)

  get_child_first :
      (name : String) (t : ItemTree) (cs : Childs) → get_child name (child name t cs) ≡ some t
  unfolding get_child
  get_child_first name t cs = ground (arith, str_eq_iff name name)

  In-collect :
      (p : String → Bool) (f : ItemTree → List Item) (cs : Childs) {i : Item}
      → DistinctNames cs
      → In i (collect p f cs)
      → InChild p f cs i
  unfolding collect
  In-collect p f no_childs d h = absurd (not-In_nil h)
  In-collect p f (child name t cs) d h = elim (Bool-cases (p name)) [
    | inl y ↦ elim (In-append_inv (f t) (rw y at h)) [
      | inl l ↦ (name, t, get_child_first name t cs, y, l)
      | inr r ↦
          let (x, u, k, q, m) = In-collect p f cs d.1 r in
          (x, u, get_child_later x name u t cs d.0 k, q, m)
    ]
    | inr n ↦
        let (x, u, k, q, m) = In-collect p f cs d.1 (rw n at h) in
        (x, u, get_child_later x name u t cs d.0 k, q, m)
  ]

  collect-In :
      (p : String → Bool) (f : ItemTree → List Item) (cs : Childs) (x : String) (t : ItemTree)
      {i : Item}
      → get_child x cs ≡ some t
      → p x ≡ true
      → In i (f t)
      → In i (collect p f cs)
  unfolding collect get_child
  collect-In p f no_childs x t k q h = absurd (cc)
  collect-In p f (child name u cs) x t {i} k q h = elim (Bool-cases (str_eq name x)) [
    | inl y ↦
        let e : name ≡ x = (str_eq_iff name x).0 y in
        let same : u ≡ t = ground arith in
        let passes : p name ≡ true = rw e q in
        rw passes (In-append_left (collect p f cs) (subst (λ v. In i (f v)) (sym same) h))
    | inr n ↦ elim (Bool-cases (p name)) [
      | inl e ↦ rw e (In-append_right (f u) (collect-In p f cs x t (rw n at k) q h))
      | inr e ↦ rw e (collect-In p f cs x t (rw n at k) q h)
    ]
  ]

  InChild-weaken :
      (p q : String → Bool) (f : ItemTree → List Item) (cs : Childs) {i : Item}
      → ((x : String) → p x ≡ true → q x ≡ true)
      → InChild p f cs i
      → InChild q f cs i
  InChild-weaken p q f cs w (x, t, k, e, h) = (x, t, k, w x e, h)

  In-walk_child :
      (chunk : String) (o : Option ItemTree) (f : ItemTree → List Item) (cs : Childs) {i : Item}
      → get_child chunk cs ≡ o
      → In i (walk_child o f)
      → InChild (str_eq chunk) f cs i
  In-walk_child chunk none f cs k h = absurd (not-In_nil h)
  In-walk_child chunk (some t) f cs k h = (chunk, t, k, (str_eq_iff chunk chunk).1 refl, h)

  In-walk_regex :
      (rx : Option String) (chunk : String) (f : ItemTree → List Item) (cs : Childs) {i : Item}
      → DistinctNames cs
      → In i (walk_regex rx chunk f cs)
      → InChild (name_regex rx chunk) f cs i
  In-walk_regex none chunk f cs d h = In-walk_child chunk (get_child chunk cs) f cs refl h
  In-walk_regex (some rx) chunk f cs {i} d h = go (regex_new rx) h
    where
      go : (re : Option Regex) → In i (walk_compiled re f cs) → InChild (name_compiled re) f cs i
      go none h' = absurd (not-In_nil h')
      go (some re) h' = In-collect (is_match re) f cs d h'

  In-walk_formula :
      (fm : Option String) (chunk : String) (f : ItemTree → List Item) (cs : Childs) {i : Item}
      → DistinctNames cs
      → In i (walk_formula fm chunk f cs)
      → InChild (name_formula fm chunk) f cs i
  In-walk_formula none chunk f cs d h = In-walk_regex (strip_regex chunk) chunk f cs d h
  In-walk_formula (some fm) chunk f cs d h = In-collect (formula_matches fm) f cs d h

  pub In-walk_chunk :
      (chunk : String) (f : ItemTree → List Item) (cs : Childs) {i : Item}
      → DistinctNames cs
      → In i (walk_chunk chunk f cs)
      → InChild (chunk_matches chunk) f cs i
  unfolding walk_chunk chunk_matches
  In-walk_chunk chunk f cs d h = elim (Bool-cases (str_eq chunk "+")) [
    | inl y ↦
        InChild-weaken any_name (chunk_matches chunk) f cs (λ x e. rw y)
          (In-collect any_name f cs d (rw y at h))
    | inr n ↦
        InChild-weaken (name_formula (strip_formula chunk) chunk) (chunk_matches chunk) f cs
          (λ x e. rw n e) (In-walk_formula (strip_formula chunk) chunk f cs d (rw n at h))
  ]

  walk_regex-In :
      (rx : Option String) (chunk : String) (f : ItemTree → List Item) (cs : Childs) (x : String)
      (t : ItemTree) {i : Item}
      → get_child x cs ≡ some t
      → name_regex rx chunk x ≡ true
      → In i (f t)
      → In i (walk_regex rx chunk f cs)
  walk_regex-In none chunk f cs x t k e h = rw ((str_eq_iff chunk x).0 e, k) h
  walk_regex-In (some rx) chunk f cs x t {i} k e h = go (regex_new rx) e
    where
      go : (re : Option Regex) → name_compiled re x ≡ true → In i (walk_compiled re f cs)
      go none e' = absurd (false≢true e')
      go (some re) e' = collect-In (is_match re) f cs x t k e' h

  pub walk_chunk-In :
      (chunk : String) (f : ItemTree → List Item) (cs : Childs) (x : String) (t : ItemTree)
      {i : Item}
      → get_child x cs ≡ some t
      → chunk_matches chunk x ≡ true
      → In i (f t)
      → In i (walk_chunk chunk f cs)
  unfolding walk_chunk chunk_matches
  walk_chunk-In chunk f cs x t {i} k e h = elim (Bool-cases (str_eq chunk "+")) [
    | inl y ↦ rw y (collect-In any_name f cs x t k refl h)
    | inr n ↦ rw n (go (strip_formula chunk) (rw n at e))
  ]
    where
      go : (fm : Option String) → name_formula fm chunk x ≡ true → In i (walk_formula fm chunk f cs)
      go none e' = walk_regex-In (strip_regex chunk) chunk f cs x t k e' h
      go (some fm) e' = collect-In (formula_matches fm) f cs x t k e' h
