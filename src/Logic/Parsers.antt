-- ===== src/Logic/Parsers.antt =====
-- svc/controller-lm/src/parser.rs: the parsers, which take the state of an item apart into states of
-- other items. The lookup by JSON path, the texts of values and the transformations are parameters; a
-- message is the target with the raw state that is sent on its topic.
pub mod Indexed
use eva.Base.{
  ℕ, zero, suc, ◌+◌, String, Option, none, some, Bool, true, false, not, ◌&&◌, if◌then◌else◌,
  EResult, ok, err, List, [], ◌∷◌, ◌++◌,
}
use eva.Base.Eq.{◌==◌, string-Eq}
use eva.Base.Int.{ℤ}
use eva.Base.Dict.{Dict, get, insert}
use eva.Common.{Common, oid-Eq}
use eva.Logic.{StateX}

-- the element at an index
unfoldable pub get_elem? {ℓ} : {A : Type ℓ} → List A → ℕ → Option A
get_elem? [] n = none
get_elem? (x ∷ xs) zero = some x
get_elem? (x ∷ xs) (suc n) = get_elem? xs n

module _ ⦃c : Common⦄ where
  open c use {OID, Value, F64, value_f64, to_f64}

  -- what the parsers take from eva_common and eva_sdk
  pub record ParserSdk : Type 1 where
    pub Task : Type 0
    pub jp_lookup : Value → String → EResult (Option Value)
    pub to_string : Value → String
    pub transform : List Task → OID → F64 → EResult F64

  module _ (sdk : ParserSdk) where
    open sdk use {Task, jp_lookup, to_string, transform}

    pub record ParserMapEntry : Type 0 where
      pub path : String
      pub target : OID
      pub value_map : Dict String Value
      pub tasks : List Task

    pub record ParserItem : Type 0 where
      pub oid : OID
      pub entries : List ParserMapEntry

    pub record ParserGroup : Type 0 where
      pub ignore_events : Bool
      pub interval : Option ℕ
      pub items : List ParserItem

    -- a raw state event for a target
    pub record Message : Type 0 where
      pub target : OID
      pub status : ℤ
      pub value : Value

    abbrev pub or_same : Value → Option Value → Value
    or_same v none = v
    or_same v (some w) = w

    -- the value that stands for this one; an empty map has none
    abbrev pub mapped : Dict String Value → Value → Value
    mapped m v = or_same v (get ⦃e = string-Eq⦄ (to_string v) m)

    abbrev pub of_number : EResult F64 → Option Value
    of_number (ok n) = some (value_f64 n)
    of_number (err e) = none

    abbrev pub transformed : List Task → OID → Value → Option Value
    transformed [] target v = some v
    transformed (t ∷ tasks) target v = elim (to_f64 v) [
      | none ↦ none
      | some n ↦ of_number (transform (t ∷ tasks) target n)
    ]

    abbrev pub message_for : OID → ℤ → Option Value → List Message
    message_for target status none = []
    message_for target status (some v) = record { target = target; status = status; value = v } ∷ []

    abbrev pub found : ParserMapEntry → ℤ → EResult (Option Value) → List Message
    found m status (ok (some v)) =
        message_for m.target status (transformed m.tasks m.target (mapped m.value_map v))
    found m status (ok none) = []
    found m status (err e) = []

    -- `process_item_maps`
    unfoldable pub process_item_maps : List ParserMapEntry → StateX → List Message
    process_item_maps [] st = []
    process_item_maps (m ∷ rest) st =
        found m st.status (jp_lookup st.value m.path) ++ process_item_maps rest st

    -- the places of an OID: the numbers of groups and of items in them
    abbrev pub Index : Type 0
    Index = Dict OID (List (ℕ × ℕ))

    abbrev pub or_no_slots : Option (List (ℕ × ℕ)) → List (ℕ × ℕ)
    or_no_slots none = []
    or_no_slots (some slots) = slots

    -- the loops of `ParserEngine::new`
    unfoldable pub index_items : ℕ → ℕ → List ParserItem → Index → Index
    index_items gi ii [] index = index
    index_items gi ii (item ∷ rest) index = index_items gi (suc ii) rest (
        insert ⦃e = oid-Eq⦄ item.oid
          (or_no_slots (get ⦃e = oid-Eq⦄ item.oid index) ++ (gi, ii) ∷ []) index)

    unfoldable pub index_groups : ℕ → List ParserGroup → Index → Index
    unfolding index_items
    index_groups gi [] index = index
    index_groups gi (g ∷ rest) index = index_groups (suc gi) rest (index_items gi 0 g.items index)

    pub record ParserEngine : Type 0 where
      pub groups : List ParserGroup
      pub index : Index

    unfoldable pub new : List ParserGroup → ParserEngine
    unfolding index_groups
    new groups = record { groups = groups; index = index_groups 0 groups [] }

    -- What indexing gives: none is a panic, for a place that is out of range.
    abbrev pub Sent : Type 0
    Sent = Option (List Message)

    abbrev pub both : Sent → Sent → Sent
    both none later = none
    both (some ms) none = none
    both (some ms) (some ns) = some (ms ++ ns)

    abbrev pub at_item : StateX → Option ParserItem → Sent
    at_item st none = none
    at_item st (some item) = some (process_item_maps item.entries st)

    abbrev pub at_slot : StateX → ℕ → Option ParserGroup → Sent
    at_slot st ii none = none
    at_slot st ii (some g) = if g.ignore_events then some [] else at_item st (get_elem? g.items ii)

    unfoldable pub on_slots : List ParserGroup → StateX → List (ℕ × ℕ) → Sent
    unfolding process_item_maps get_elem?
    on_slots groups st [] = some []
    on_slots groups st ((gi, ii) ∷ rest) =
        both (at_slot st ii (get_elem? groups gi)) (on_slots groups st rest)

    -- `on_state_event`
    unfoldable pub on_state_event : ParserEngine → OID → StateX → Sent
    unfolding on_slots
    on_state_event en oid st = on_slots en.groups st (or_no_slots (get ⦃e = oid-Eq⦄ oid en.index))

    abbrev pub wants : Option ParserGroup → Bool
    wants none = false
    wants (some g) = not g.ignore_events

    -- whether `event_subscription_masks` has the OID of these places
    unfoldable pub is_needed : List ParserGroup → List (ℕ × ℕ) → Bool
    unfolding get_elem?
    is_needed groups [] = false
    is_needed groups ((gi, ii) ∷ rest) =
        if wants (get_elem? groups gi) then true else is_needed groups rest
