-- ===== src/Acls/Service.antt =====
-- svc/aaa-acl/src/main.rs: the calls of the service. The registry, the announcements on the bus and
-- the table of alphanumeric characters are a parameter; a call without a payload has no arguments.
use Prim.Native.Char.{code}
use eva.Base.{
  ℕ, String, Option, none, some, Bool, true, not, ◌&&◌, ◌||◌, if◌then◌else◌, nat_eq, EResult, ok,
  err, ◌>>=◌, not_ready, not_found, invalid_data, invalid_params, access, List, [], ◌∷◌, str_eq,
}
use eva.Base.Eq.{Eq, string-Eq}
use eva.Base.Dict.{Dict, get, insert, remove, values}
use eva.Acls.{Acl, AclData, default_data, from_acl, from_acls}

-- what the service takes from its surroundings, whose state is a `W`
pub record Surroundings (Value W : Type 0) : Type 1 where
  pub Stored : Type 0
  pub to_value : Acl Value → EResult Stored
  pub key_set : String → Stored → W → W × EResult (Unit {0})
  pub key_delete : String → W → W × EResult (Unit {0})
  -- the channel to the announcements; its errors are logged
  pub send : String → Option Stored → W → W
  pub is_alphanumeric : ℕ → Bool
  -- `Value::String`
  pub of_string : String → Value

pub record Config : Type 0 where
  pub strict_acl_formatting : Bool
  pub forbid_empty_acls : Bool

-- `ACLS`, and whether `REG` is set
pub record State (Value : Type 0) : Type 0 where
  pub acls : Dict String (Acl Value)
  pub loaded : Bool

pub data AclOrId (Value : Type 0) : Type 0 where
  acl : Acl Value → AclOrId Value
  id : String → AclOrId Value

abbrev pub as_str : {Value : Type 0} → AclOrId Value → String
as_str (acl a) = a.id
as_str (id i) = i

pub data IdOrList : Type 0 where
  single : String → IdOrList
  multiple : List String → IdOrList

-- `ID_ALLOWED_SYMBOLS`, and the slash
abbrev is_allowed_symbol : ℕ → Bool
is_allowed_symbol ch =
    nat_eq ch b'_'
    || nat_eq ch b'.'
    || nat_eq ch b'('
    || nat_eq ch b')'
    || nat_eq ch b'['
    || nat_eq ch b']'
    || nat_eq ch b'-'
    || nat_eq ch b'\\'
    || nat_eq ch b'/'

module _ {Value W : Type 0} ⦃v : Eq Value⦄ (env : Surroundings Value W) where
  open env use {Stored, to_value, key_set, key_delete, send, is_alphanumeric, of_string}

  unfoldable pub valid_chars : String → Bool
  valid_chars String.[] = true
  valid_chars (String.◌∷◌ ch rest) =
      (is_alphanumeric (code ch) || is_allowed_symbol (code ch)) && valid_chars rest

  unfoldable pub valid_ids : List (Acl Value) → Bool
  unfolding valid_chars
  valid_ids [] = true
  valid_ids (a ∷ rest) = valid_chars a.id && valid_ids rest

  abbrev pub push :
      String × Stored → EResult (List (String × Stored)) → EResult (List (String × Stored))
  push entry (ok entries) = ok (entry ∷ entries)
  push entry (err e) = err e

  -- the loop that inserts the lists, and what it will store in the registry
  unfoldable pub insert_all :
      Dict String (Acl Value)
      → List (Acl Value)
      → Dict String (Acl Value) × EResult (List (String × Stored))
  insert_all acls [] = (acls, ok [])
  insert_all acls (a ∷ rest) =
      let more = insert_all (insert ⦃e = string-Eq⦄ a.id a acls) rest in
      elim (to_value a) [ ok val ↦ (more.0, push (a.id, val) more.1) | err e ↦ (acls, err e) ]

  -- the loop over the registry keys, up to the first failure
  unfoldable pub store_all : List (String × Stored) → W → W × EResult (Unit {0})
  store_all [] w = (w, ok tt)
  store_all ((key, val) ∷ rest) w =
      let (w', r) = key_set key val w in
      elim r [ ok _ ↦ store_all rest (send key (some val) w') | err e ↦ (w', err e) ]

  abbrev pub stored : EResult (List (String × Stored)) → W → W × EResult (Unit {0})
  stored (ok entries) w = store_all entries w
  stored (err e) w = (w, err e)

  -- `acl.deploy`
  unfoldable pub deploy :
      Option (List (Acl Value)) → State Value → W → State Value × (W × EResult (Unit {0}))
  unfolding valid_ids insert_all store_all
  deploy none s w = (s, (w, err invalid_params))
  deploy (some new_acls) s w =
      if not s.loaded
      then (s, (w, err not_ready))
      else if not (valid_ids new_acls)
      then (s, (w, err invalid_data))
      else let (acls, entries) = insert_all s.acls new_acls in
        (record s { acls = acls }, stored entries w)

  abbrev removed : Option (Acl Value) → List String → List String
  removed none ids = ids
  removed (some a) ids = a.id ∷ ids

  -- the loop that removes the lists, and the ids of those that were there
  unfoldable pub remove_all :
      Dict String (Acl Value) → List (AclOrId Value) → Dict String (Acl Value) × List String
  remove_all acls [] = (acls, [])
  remove_all acls (i ∷ rest) =
      let (left, ids) = remove_all (remove ⦃e = string-Eq⦄ (as_str i) acls) rest in
      (left, removed (get ⦃e = string-Eq⦄ (as_str i) acls) ids)

  unfoldable pub delete_all : List String → W → W × EResult (Unit {0})
  delete_all [] w = (w, ok tt)
  delete_all (key ∷ rest) w =
      let (w', r) = key_delete key w in
      elim r [ ok _ ↦ delete_all rest (send key none w') | err e ↦ (w', err e) ]

  -- `acl.undeploy`
  unfoldable pub undeploy :
      Option (List (AclOrId Value)) → State Value → W → State Value × (W × EResult (Unit {0}))
  unfolding remove_all delete_all
  undeploy none s w = (s, (w, err invalid_params))
  undeploy (some ids) s w =
      if not s.loaded
      then (s, (w, err not_ready))
      else let (acls, gone) = remove_all s.acls ids in (record s { acls = acls }, delete_all gone w)

  -- `acl.destroy`
  unfoldable pub destroy : Option String → State Value → W → State Value × (W × EResult (Unit {0}))
  unfolding delete_all
  destroy none s w = (s, (w, err invalid_params))
  destroy (some i) s w =
      if not s.loaded then (s, (w, err not_ready)) else elim (get ⦃e = string-Eq⦄ i s.acls) [
        | none ↦ (s, (w, err not_found))
        | some _ ↦ (record s { acls = remove ⦃e = string-Eq⦄ i s.acls }, delete_all (i ∷ []) w)
      ]

  -- `acl.get_config`
  unfoldable pub get_config : Option String → State Value → EResult (Acl Value)
  get_config none s = err invalid_params
  get_config (some i) s = elim (get ⦃e = string-Eq⦄ i s.acls) [
    | some a ↦ ok a
    | none ↦ err not_found
  ]

  -- `acl.export`, before the lists are sorted
  unfoldable pub export : Option String → State Value → EResult (List (Acl Value))
  unfolding get_config values
  export none s = err invalid_params
  export (some i) s =
      if str_eq i "#" || str_eq i "*"
      then ok (values s.acls)
      else get_config (some i) s >>= λ a. ok (a ∷ [])

  module _ (config : Config) where
    -- the lists that are found; with strict formatting, each must be
    unfoldable pub find_acls : Dict String (Acl Value) → List String → EResult (List (Acl Value))
    find_acls acls [] = ok []
    find_acls acls (i ∷ rest) =
        let more = find_acls acls rest in
        elim (get ⦃e = string-Eq⦄ i acls) [
          | some a ↦ more >>= λ found. ok (a ∷ found)
          | none ↦ if config.strict_acl_formatting then err access else more
        ]

    unfoldable pub form_data : Dict String (Acl Value) → IdOrList → EResult (AclData Value)
    unfolding find_acls from_acl from_acls
    form_data acls (single i) = elim (get ⦃e = string-Eq⦄ i acls) [
      | some a ↦ ok (from_acl a)
      | none ↦ if config.strict_acl_formatting then err access else ok default_data
    ]
    form_data acls (multiple ids) = find_acls acls ids >>= λ srcs. ok (from_acls srcs)

    abbrev pub or_empty : Option (Dict String (List Value)) → Dict String (List Value)
    or_empty none = []
    or_empty (some m) = m

    unfoldable pub with_key : Option String → AclData Value → AclData Value
    with_key none d = d
    with_key (some key_id) d = record d {
      meta = some (insert ⦃e = string-Eq⦄ "api_key_id" (of_string key_id ∷ []) (or_empty d.meta));
    }

    abbrev pub or_none : AclData Value → EResult (AclData Value)
    or_none d = elim d.sources [
      | [] ↦ if config.forbid_empty_acls then err access else ok (record d { id = "none" })
      | _ ∷ _ ↦ ok d
    ]

    -- `acl.format`
    unfoldable pub format :
        Option (IdOrList × Option String) → State Value → EResult (AclData Value)
    unfolding form_data with_key
    format none s = err invalid_params
    format (some (i, key_id)) s =
        form_data s.acls i >>= λ d. or_none d >>= λ d'. ok (with_key key_id d')
