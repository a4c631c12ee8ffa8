-- ===== src/Core/Replicated.antt =====
-- `update_state_from_repl` of eva/src/core.rs: the states that other nodes send, for the events that
-- carry a state. `sender` is the replication service.
use eva.Base.{
  ℕ, String, Option, none, some, Bool, true, false, not, if◌then◌else◌, ◌≡◌, EResult, ok, err,
  not_implemented, invalid_data, not_found, busy, List, [], ◌∷◌, str_eq, arith,
}
use eva.Base.Lists.{In, here, there}
use eva.Common.{Common, ItemKind}
use eva.Items.State.{ItemState, ReplicationState, set_from_rs}
use eva.Items.Data.{Item}
use eva.Items.Inventory.{World, get_item, get_or_create_source, append_remote_item}
use eva.Core.{put_state}

module _ ⦃c : Common⦄ where
  open c use {OID, kind, Ieid, ieid_new, ieid_lt, f64_zero}

  -- eva_common::events::ReplicationStateEvent
  pub record ReplicationStateEvent : Type 0 where
    pub node : String
    pub state : ReplicationState
    pub force_accept : Bool

  unfoldable pub check_payload : ItemKind → Option ℕ → EResult (Unit {0})
  check_payload ItemKind.lmacro act = err not_implemented
  check_payload ItemKind.unit act = ok tt
  check_payload ItemKind.lvar none = ok tt
  check_payload ItemKind.lvar (some _) = err invalid_data
  check_payload ItemKind.sensor none = ok tt
  check_payload ItemKind.sensor (some _) = err invalid_data

  -- the state after the event, and whether the event was newer
  unfoldable pub taken : ItemState → ReplicationState → ItemState × Bool
  taken s rpl = if ieid_lt s.ieid rpl.ieid then (set_from_rs s rpl, true) else (s, false)

  -- what is announced: the new state, or an event that is not current
  abbrev shown : ReplicationState → ItemState × Bool → ReplicationState × Bool
  shown rpl (s, false) = (rpl, false)
  shown rpl (s, true) =
      (record { status = s.status; value = s.value; act = s.act; ieid = s.ieid; t = s.t }, true)

  unfoldable pub update_on :
      World → Item → ReplicationStateEvent → World × EResult (Option (ReplicationState × Bool))
  unfolding taken
  update_on w item rse = elim (w.cells item.addr).state [
    | none ↦ (w, ok none)
    | some s ↦ elim item.source [
      | none ↦ (w, ok none)
      | some source ↦ if not (str_eq rse.node source.node) then (w, err busy) else (
        put_state item (taken s rse.state).0 w,
        ok (some (shown rse.state (taken s rse.state))),
      )
    ]
  ]

  abbrev accepted :
      ReplicationStateEvent
      → World × EResult Item
      → World × EResult (Option (ReplicationState × Bool))
  accepted rse (w, err e) = (w, err e)
  accepted rse (w, ok item) = update_on w item rse

  -- an item that is not known is created where the event must be accepted
  abbrev accept_unknown :
      World
      → OID
      → ReplicationStateEvent
      → String
      → World × EResult (Option (ReplicationState × Bool))
  accept_unknown w oid rse sender =
      let (w', source) = get_or_create_source w rse.node sender in
      accepted rse (
        append_remote_item w'
          (record {
            oid = oid;
            act = rse.state.act;
            enabled = true;
            ieid = some (ieid_new 0 0);
            meta = none;
            status = none;
            value = none;
            t = some f64_zero;
          })
          source)

  unfoldable pub update_state_from_repl :
      World
      → OID
      → ReplicationStateEvent
      → String
      → World × EResult (Option (ReplicationState × Bool))
  unfolding check_payload update_on
  update_state_from_repl w oid rse sender = elim (check_payload (kind oid) rse.state.act) [
    | err e ↦ (w, err e)
    | ok _ ↦ elim (get_item w.inv oid) [
      | some item ↦ update_on w item rse
      | none ↦ if rse.force_accept then accept_unknown w oid rse sender else (w, err not_found)
    ]
  ]

  -- the states of an item that takes one event after another
  unfoldable pub receive : ItemState → List ReplicationState → ItemState
  receive s [] = s
  receive s (rpl ∷ rest) = receive (taken s rpl).0 rest

  module _ (irreflexive : (i : Ieid) → ieid_lt i i ≡ false)
      (transitive : (i j k : Ieid)
        → ieid_lt i j ≡ true
        → ieid_lt j k ≡ true
        → ieid_lt i k ≡ true) where
    ieid-receive :
        (x : Ieid) (s : ItemState) (events : List ReplicationState)
        → ieid_lt s.ieid x ≡ false
        → ieid_lt (receive s events).ieid x ≡ false
    unfolding receive taken set_from_rs
    ieid-receive x s [] h = h
    ieid-receive x s (rpl ∷ rest) h =
        ieid-receive x (taken s rpl).0 rest (ground (arith, h, transitive s.ieid rpl.ieid x))

    ieid-taken :
        (s : ItemState) (rpl : ReplicationState) → ieid_lt (taken s rpl).0.ieid rpl.ieid ≡ false
    unfolding taken set_from_rs
    ieid-taken s rpl = ground (arith, irreflexive rpl.ieid)

    receive-newest :
        {rpl : ReplicationState} (s : ItemState) {events : List ReplicationState}
        → In rpl events
        → ieid_lt (receive s events).ieid rpl.ieid ≡ false
    unfolding receive
    receive-newest {rpl} s (here {x} {xs} e) =
        ieid-receive rpl.ieid (taken s x).0 xs (rw (← e) (ieid-taken s x))
    receive-newest s (there {x} h) = receive-newest (taken s x).0 h

    -- Where IEIDs are ordered, irreflexively and transitively, an item that takes states from its
    -- node in any order ends with an IEID that is below neither its first one nor that of any
    -- state received.
    pub receive_lem :
        (s : ItemState) (events : List ReplicationState)
        → (ieid_lt (receive s events).ieid s.ieid ≡ false)
          × ((rpl : ReplicationState)
              → In rpl events
              → ieid_lt (receive s events).ieid rpl.ieid ≡ false)
    receive_lem s events =
        (ieid-receive s.ieid s events (irreflexive s.ieid), λ rpl i. receive-newest s i)
