-- ===== src/Items/Data.antt =====
-- eva/src/items.rs: `ItemData` behind its `Arc`, `ItemSource`, and the configuration of an item.
-- What an `Arc` shares and a mutex or an atomic lets change stands in cells of a heap, at the
-- address that the `Arc` holds; the rest of the structure stands in the `Arc`.
use eva.Base.{
  ℕ, String, Option, none, some, Bool, true, false, if◌then◌else◌, invalid_data, EResult, ok, err,
  ◌>>=◌, ok_or, or_else, List, [], ◌∷◌, is_some,
}
use eva.Base.Int.{ℤ, pos}
use eva.Common.{Common, ItemKind, kind_eq}
use eva.Items.State.{ItemState, Logic, RawStateEvent}

module _ ⦃c : Common⦄ where
  open c use {OID, kind, Value, value_bytes, as_bytes, value_default, F64, Ieid, ieid_new}

  -- `Arc<ItemSource>`: the node, the service, and the address of its two flags
  pub record Source : Type 0 where
    pub addr : ℕ
    pub node : String
    pub svc : String

  pub record SourceCell : Type 0 where
    pub online : Bool
    pub destroyed : Bool

  pub record ActionConfig : Type 0 where
    pub svc : String
    pub timeout : Option F64
    pub config : Option Value

  -- `Arc<ItemData>`; the mutex with the state and the flag `enabled` are in the cell
  pub record Item : Type 0 where
    pub addr : ℕ
    pub oid : OID
    pub meta : Option Value
    pub source : Option Source
    pub logic : Option Logic
    pub action : Option ActionConfig

  pub record ItemCell : Type 0 where
    pub state : Option ItemState
    pub enabled : Bool

  pub record StateData : Type 0 where
    pub status : Option ℤ
    pub value : Option Value
    pub t : Option F64

  pub record ItemConfigData : Type 0 where
    pub oid : OID
    pub meta : Option Value
    pub enabled : Bool
    pub logic : Option Logic
    pub action : Option ActionConfig
    pub status : Option ℤ
    pub value : Option Value
    pub t : Option F64

  -- eva_common::events::ReplicationInventoryItem
  pub record ReplicationInventoryItem : Type 0 where
    pub oid : OID
    pub act : Option ℕ
    pub enabled : Bool
    pub ieid : Option Ieid
    pub meta : Option Value
    pub status : Option ℤ
    pub value : Option Value
    pub t : Option F64

  abbrev own_action : OID → String → Option ActionConfig
  own_action oid sender =
      if kind_eq (kind oid) ItemKind.unit
      then some (record { svc = sender; timeout = none; config = none })
      else none

  unfoldable pub blank : OID → String → ItemConfigData
  blank oid sender = record {
    oid = oid;
    meta = none;
    enabled = true;
    logic = none;
    action = own_action oid sender;
    status = none;
    value = none;
    t = none;
  }

  unfoldable pub from_raw_event : OID → RawStateEvent → String → ItemConfigData
  from_raw_event oid ev sender = record {
    oid = oid;
    meta = none;
    enabled = true;
    logic = none;
    action = own_action oid sender;
    status = some ev.status;
    value = ev.value;
    t = ev.t;
  }

  -- `split`, the `Arc` being made at an address
  unfoldable pub split : ItemConfigData → ℕ → Item × ItemCell × StateData
  split d addr = (
    record {
      addr = addr;
      oid = d.oid;
      meta = d.meta;
      source = none;
      logic = d.logic;
      action = d.action;
    },
    record { state = none; enabled = d.enabled },
    record { status = d.status; value = d.value; t = d.t },
  )

  abbrev check_none {ℓ} : {A : Type ℓ} → Option A → EResult (Unit {0})
  check_none none = ok tt
  check_none (some _) = err invalid_data

  unfoldable pub check_item_data :
      ItemKind → Option ActionConfig → Option Logic → EResult (Unit {0})
  check_item_data ItemKind.unit action logic = ok tt
  check_item_data ItemKind.sensor action logic = check_none action
  check_item_data ItemKind.lvar action logic = check_none action
  check_item_data ItemKind.lmacro action logic = check_none logic

  abbrev repl_state : ReplicationInventoryItem → EResult ItemState
  repl_state i = do
    ieid ← ok_or i.ieid invalid_data
    t ← ok_or i.t invalid_data
    ok (record {
      status = or_else i.status (pos 0);
      value = or_else i.value value_default;
      act = i.act;
      ieid = ieid;
      t = t;
    })

  unfoldable pub from_repl_item : ReplicationInventoryItem → Source → ℕ → EResult (Item × ItemCell)
  from_repl_item i source addr = do
    state ←
        (if kind_eq (kind i.oid) ItemKind.lmacro
          then ok none
          else repl_state i >>= λ s. ok (some s))
    ok (
      record {
        addr = addr;
        oid = i.oid;
        meta = i.meta;
        source = some source;
        logic = none;
        action = none;
      },
      record { state = state; enabled = i.enabled },
    )

  -- eva_common::events::{LocalStateEvent, DbState}: the state as it is announced and as it is saved
  pub record DbState : Type 0 where
    pub status : ℤ
    pub value : Value
    pub ieid : Ieid
    pub t : F64

  pub record ItemStateAndInfo : Type 0 where
    pub oid : OID
    pub status : Option ℤ
    pub value : Option Value
    pub act : Option ℕ
    pub ieid : Option Ieid
    pub t : Option F64
    pub node : String
    pub connected : Bool

  abbrev pub is_bytes : Value → Bool
  is_bytes v = is_some (as_bytes v)

  abbrev db_state_of : ItemState → Option DbState
  db_state_of s =
      if is_bytes s.value
      then none
      else some (record { status = s.status; value = s.value; ieid = s.ieid; t = s.t })

  unfoldable pub db_state : ItemCell → Option DbState
  db_state cell = elim cell.state [ none ↦ none | some s ↦ db_state_of s ]

  -- `v.get(0..3).unwrap_or(v)`
  abbrev first_three : List ℕ → List ℕ
  first_three (a ∷ b ∷ d ∷ _) = a ∷ b ∷ d ∷ []
  first_three v = v

  -- the value that is shown: binary values are cut, unless they are asked for
  unfoldable pub shown_value : Value → Bool → Value
  shown_value v true = v
  shown_value v false = elim (as_bytes v) [
    | none ↦ v
    | some bytes ↦ value_bytes (first_three bytes)
  ]

  abbrev shown_ieid : Bool → Option ItemState → Option Ieid
  shown_ieid connected none = none
  shown_ieid true (some s) = some s.ieid
  shown_ieid false (some s) = some (ieid_new 0 0)

  abbrev state_field {ℓ} : {A : Type ℓ} → (ItemState → Option A) → Option ItemState → Option A
  state_field f none = none
  state_field f (some s) = f s

  unfoldable pub state_and_info :
      Item → ItemCell → (Source → SourceCell) → String → Bool → ItemStateAndInfo
  unfolding shown_value
  state_and_info item cell flags system_name include_binary =
      let connected : Bool = elim item.source [ none ↦ true | some src ↦ (flags src).online ] in
      record {
        oid = item.oid;
        status = state_field (λ s. some s.status) cell.state;
        value = state_field (λ s. some (shown_value s.value include_binary)) cell.state;
        act = state_field (λ s. s.act) cell.state;
        ieid = shown_ieid connected cell.state;
        t = state_field (λ s. some s.t) cell.state;
        node = elim item.source [ none ↦ system_name | some src ↦ src.node ];
        connected = connected;
      }
