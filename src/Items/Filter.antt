-- ===== src/Items/Filter.antt =====
-- eva/src/items.rs: `NodeFilter` and `Filter`, the test that a search puts to each item.
use eva.Base.{String, Option, none, some, Bool, true, false, not, ◌&&◌, if◌then◌else◌, is_some}
use eva.Base.Eq.{◌==◌, string-Eq}
use eva.Common.{Common}
use eva.Items.Data.{Item, Source}

pub data NodeFilter : Type 0 where
  local : NodeFilter
  remote : String → NodeFilter
  remote_any : NodeFilter

module _ ⦃c : Common⦄ where
  open c use {OID, as_str, OIDMaskList, list_matches, Regex, is_match}

  pub record Filter : Type 0 where
    pub include : Option OIDMaskList
    pub exclude : Option OIDMaskList
    pub node : Option NodeFilter
    pub pattern : Option Regex

  abbrev pub any_item : Filter
  any_item = record { include = none; exclude = none; node = none; pattern = none }

  abbrev remote_matches : String → Option Source → Bool
  remote_matches id none = false
  remote_matches id (some source) =
      not (not (id == "#") && not (id == "*") && not (source.node == id))

  abbrev node_matches : Option NodeFilter → Item → Bool
  node_matches none item = true
  node_matches (some local) item = not (is_some item.source)
  node_matches (some remote_any) item = is_some item.source
  node_matches (some (remote id)) item = remote_matches id item.source

  abbrev test_of {ℓ} : {A : Type ℓ} → (A → OID → Bool) → Option A → OID → Bool
  test_of f none oid = true
  test_of f (some a) oid = f a oid

  unfoldable pub matches : Filter → Item → Bool
  matches f item =
      if not (node_matches f.node item)
      then false
      else if not (test_of (λ re oid. is_match re (as_str oid)) f.pattern item.oid)
      then false
      else if not (test_of list_matches f.include item.oid)
      then false
      else test_of (λ l oid. not (list_matches l oid)) f.exclude item.oid
