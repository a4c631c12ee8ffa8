-- ===== src/Logic/Parsers/Indexed.antt =====
-- svc/controller-lm/src/parser.rs: the index leads to the same messages as all groups in their order.
use mathlib.Core.List.{append-nil, append_assoc}
use eva.Base.{
  ℕ, suc, Option, none, some, Bool, true, false, not, if◌then◌else◌, List, [], ◌∷◌, ◌++◌, ◌≡◌, refl,
  sym, ap, ◌∙◌, Bool-cases, inl, inr,
}
use eva.Base.Eq.{◌==◌, beq→≡}
use eva.Base.Dict.{get, get-insert, insert}
use eva.Base.Lists.{length}
use eva.Common.{Common, oid-Eq}
use eva.Logic.{StateX}
use eva.Logic.Parsers.{
  get_elem?, ParserSdk, ParserItem, ParserGroup, Message, process_item_maps, Index, or_no_slots,
  index_items, index_groups, new, Sent, both, at_item, at_slot, on_slots, on_state_event, wants,
  is_needed,
}

get_elem?-append {ℓ} :
    {A : Type ℓ} (xs : List A) (y : A) (ys : List A) → get_elem? (xs ++ y ∷ ys) (length xs) ≡ some y
unfolding get_elem?
get_elem?-append [] y ys = refl
get_elem?-append (x ∷ xs) y ys = get_elem?-append xs y ys

length-snoc {ℓ} : {A : Type ℓ} (xs : List A) (x : A) → length (xs ++ x ∷ []) ≡ suc (length xs)
length-snoc [] x = refl
length-snoc (y ∷ ys) x = ap suc (length-snoc ys x)

module _ ⦃c : Common⦄ (sdk : ParserSdk) where
  open c use {OID}

  module _ (oid : OID) where
    -- the places of the OID
    unfoldable slots_in : ℕ → ℕ → List (ParserItem sdk) → List (ℕ × ℕ)
    slots_in gi ii [] = []
    slots_in gi ii (item ∷ rest) =
        let others = slots_in gi (suc ii) rest in
        if item.oid == oid then (gi, ii) ∷ others else others

    unfoldable slots_all : ℕ → List (ParserGroup sdk) → List (ℕ × ℕ)
    slots_all gi [] = []
    slots_all gi (g ∷ rest) = slots_in gi 0 g.items ++ slots_all (suc gi) rest

    index_items-slots :
        (gi ii : ℕ) (items : List (ParserItem sdk)) (index : Index sdk)
        → or_no_slots sdk (get oid (index_items sdk gi ii items index))
          ≡ or_no_slots sdk (get oid index) ++ slots_in gi ii items
    unfolding index_items slots_in
    index_items-slots gi ii [] index = sym (append-nil (or_no_slots sdk (get oid index)))
    index_items-slots gi ii (item ∷ rest) index =
        index_items-slots gi (suc ii) rest (insert item.oid more index)
        ∙ ap (λ o. or_no_slots sdk o ++ slots_in gi (suc ii) rest)
            (get-insert item.oid oid more index)
        ∙ placed
      where
        more : List (ℕ × ℕ)
        more = or_no_slots sdk (get item.oid index) ++ (gi, ii) ∷ []

        placed :
            or_no_slots sdk (if item.oid == oid then some more else get oid index)
              ++ slots_in gi (suc ii) rest
            ≡ or_no_slots sdk (get oid index)
              ++ (if item.oid == oid
                  then (gi, ii) ∷ slots_in gi (suc ii) rest
                  else slots_in gi (suc ii) rest)
        placed = elim (Bool-cases (item.oid == oid)) [
          | inl y ↦ rw y (
              ap
                (λ o. (or_no_slots sdk (get o index) ++ (gi, ii) ∷ []) ++ slots_in gi (suc ii) rest)
                (beq→≡ item.oid oid y)
              ∙ append_assoc (or_no_slots sdk (get oid index)) ((gi, ii) ∷ [])
                  (slots_in gi (suc ii) rest))
          | inr n ↦ rw n refl
        ]

    index_groups-slots :
        (gi : ℕ) (groups : List (ParserGroup sdk)) (index : Index sdk)
        → or_no_slots sdk (get oid (index_groups sdk gi groups index))
          ≡ or_no_slots sdk (get oid index) ++ slots_all gi groups
    unfolding index_groups slots_all
    index_groups-slots gi [] index = sym (append-nil (or_no_slots sdk (get oid index)))
    index_groups-slots gi (g ∷ rest) index =
        index_groups-slots (suc gi) rest (index_items sdk gi 0 g.items index)
        ∙ ap (λ ss. ss ++ slots_all (suc gi) rest) (index_items-slots gi 0 g.items index)
        ∙ append_assoc (or_no_slots sdk (get oid index)) (slots_in gi 0 g.items)
            (slots_all (suc gi) rest)

    module _ (st : StateX) where
      -- the messages of the items of the OID, in a group and in all groups that take events
      unfoldable pub group_messages : List (ParserItem sdk) → List (Message sdk)
      group_messages [] = []
      group_messages (item ∷ rest) =
          let others = group_messages rest in
          if item.oid == oid then process_item_maps sdk item.entries st ++ others else others

      unfoldable pub all_messages : List (ParserGroup sdk) → List (Message sdk)
      unfolding group_messages
      all_messages [] = []
      all_messages (g ∷ rest) =
          (if g.ignore_events then [] else group_messages g.items) ++ all_messages rest

      both-nil : (s : Sent sdk) → both sdk (some []) s ≡ s
      both-nil none = refl
      both-nil (some ms) = refl

      both_assoc : (x y z : Sent sdk) → both sdk x (both sdk y z) ≡ both sdk (both sdk x y) z
      both_assoc none y z = refl
      both_assoc (some a) none z = refl
      both_assoc (some a) (some b) none = refl
      both_assoc (some a) (some b) (some d) = ap (λ ms. some ms) (sym (append_assoc a b d))

      on_slots-append :
          (groups : List (ParserGroup sdk)) (xs ys : List (ℕ × ℕ))
          → on_slots sdk groups st (xs ++ ys)
            ≡ both sdk (on_slots sdk groups st xs) (on_slots sdk groups st ys)
      unfolding on_slots
      on_slots-append groups [] ys = sym (both-nil (on_slots sdk groups st ys))
      on_slots-append groups ((gi, ii) ∷ xs) ys =
          ap (both sdk (at_slot sdk st ii (get_elem? groups gi))) (on_slots-append groups xs ys)
          ∙ both_assoc (at_slot sdk st ii (get_elem? groups gi)) (on_slots sdk groups st xs)
              (on_slots sdk groups st ys)

      -- the messages of items, if their group takes events
      abbrev if_taken : Bool → List (Message sdk) → List (Message sdk)
      if_taken ignored ms = if ignored then [] else ms

      both-item :
          (ignored : Bool) (item : ParserItem sdk) (o : Option (ParserItem sdk))
          (ms : List (Message sdk))
          → o ≡ some item
          → both sdk (if ignored then some [] else at_item sdk st o) (some (if_taken ignored ms))
            ≡ some (if_taken ignored (process_item_maps sdk item.entries st ++ ms))
      both-item true item o ms h = refl
      both-item false item o ms h = rw h refl

      on_slots-slots_in :
          (groups : List (ParserGroup sdk)) (g : ParserGroup sdk) (gi : ℕ)
          (before items : List (ParserItem sdk))
          → get_elem? groups gi ≡ some g
          → before ++ items ≡ g.items
          → on_slots sdk groups st (slots_in gi (length before) items)
            ≡ some (if_taken g.ignore_events (group_messages items))
      unfolding on_slots slots_in group_messages
      on_slots-slots_in groups g gi before [] h e = taken g.ignore_events
        where
          taken : (b : Bool) → ◌≡◌ {A = Sent sdk} (some []) (some (if_taken b []))
          taken true = refl
          taken false = refl
      on_slots-slots_in groups g gi before (item ∷ rest) h e =
          let later =
            ap others (sym (length-snoc before item))
            ∙ on_slots-slots_in groups g gi (before ++ item ∷ []) rest h
                (append_assoc before (item ∷ []) rest ∙ e) in
          elim (Bool-cases (item.oid == oid)) [
            | inr n ↦ rw n later
            | inl y ↦ rw y (
                ap (λ o. both sdk (at_slot sdk st (length before) o) (others (suc (length before))))
                  h
                ∙ ap (both sdk (at_slot sdk st (length before) (some g))) later
                ∙ both-item g.ignore_events item (get_elem? g.items (length before))
                    (group_messages rest)
                    (ap (λ xs. get_elem? xs (length before)) (sym e)
                      ∙ get_elem?-append before item rest))
          ]
        where
          others : ℕ → Sent sdk
          others ii = on_slots sdk groups st (slots_in gi ii rest)

      on_slots-slots_all :
          (before groups : List (ParserGroup sdk))
          → on_slots sdk (before ++ groups) st (slots_all (length before) groups)
            ≡ some (all_messages groups)
      unfolding slots_all all_messages on_slots
      on_slots-slots_all before [] = refl
      on_slots-slots_all before (g ∷ rest) =
          on_slots-append (before ++ g ∷ rest) (slots_in (length before) 0 g.items)
            (slots_all (suc (length before)) rest)
          ∙ ap (λ x. both sdk x (others (before ++ g ∷ rest) (suc (length before))))
              (on_slots-slots_in (before ++ g ∷ rest) g (length before) [] g.items
                (get_elem?-append before g rest) refl)
          ∙ ap (both sdk (some (if_taken g.ignore_events (group_messages g.items)))) (
              ap (λ gs. others gs (suc (length before))) (sym (append_assoc before (g ∷ []) rest))
              ∙ ap (others ((before ++ g ∷ []) ++ rest)) (sym (length-snoc before g))
              ∙ on_slots-slots_all (before ++ g ∷ []) rest)
        where
          others : List (ParserGroup sdk) → ℕ → Sent sdk
          others gs gi = on_slots sdk gs st (slots_all gi rest)

      -- An item whose events are not asked for has no messages.
      is_needed-nil :
          (groups : List (ParserGroup sdk)) (slots : List (ℕ × ℕ)) (ms : List (Message sdk))
          → is_needed sdk groups slots ≡ false
          → on_slots sdk groups st slots ≡ some ms
          → ms ≡ []
      unfolding is_needed on_slots
      is_needed-nil groups [] ms n h = cc
      is_needed-nil groups ((gi, ii) ∷ rest) ms n h =
          go (get_elem? groups gi) (on_slots sdk groups st rest) refl n h
            (λ ns. is_needed-nil groups rest ns)
        where
          go :
              (o : Option (ParserGroup sdk)) (x : Sent sdk)
              → on_slots sdk groups st rest ≡ x
              → (if wants sdk o then true else is_needed sdk groups rest) ≡ false
              → both sdk (at_slot sdk st ii o) x ≡ some ms
              → ((ns : List (Message sdk))
                  → is_needed sdk groups rest ≡ false
                  → on_slots sdk groups st rest ≡ some ns
                  → ns ≡ [])
              → ms ≡ []
          go none x e w b ih = cc
          go (some g) x e w b ih = taken g.ignore_events x e w b
            where
              taken :
                  (ignored : Bool) (x : Sent sdk)
                  → on_slots sdk groups st rest ≡ x
                  → (if not ignored then true else is_needed sdk groups rest) ≡ false
                  → both sdk (if ignored then some [] else at_item sdk st (get_elem? g.items ii)) x
                    ≡ some ms
                  → ms ≡ []
              taken true none e w b = cc
              taken true (some ns) e w b = cc (ih ns w e, b)
              taken false x e w b = cc

      -- The index that ParserEngine::new builds has no place out of range, and with it a state
      -- event causes the same messages, in the same order, as going through every item of every
      -- group that takes events.
      pub on_state_event-new :
          (groups : List (ParserGroup sdk))
          → on_state_event sdk (new sdk groups) oid st ≡ some (all_messages groups)
      unfolding on_state_event new get
      on_state_event-new groups =
          ap (on_slots sdk groups st) (index_groups-slots 0 groups [])
          ∙ on_slots-slots_all [] groups
