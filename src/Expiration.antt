-- ===== src/Expiration.antt =====
-- svc/svc-expiration/src/main.rs: the service that marks items whose state has not been updated for
-- too long. An instant is a number, `now` what the clock shows. The prefixes of topics, kinds of
-- items and paths of OIDs are a parameter.
pub mod Checked
pub mod CaughtUp
pub mod Handled
pub mod Published
mod Configured
use eva.Base.{
  ℕ, zero, suc, ◌+◌, ◌-◌, String, Option, none, some, Bool, true, false, not, ◌&&◌, if◌then◌else◌,
  ltb, leb, str_eq, str_append, List, [], ◌∷◌, ◌++◌,
}
use eva.Base.Eq.{string-Eq}
use eva.Base.Dict.{Dict, get, insert}
use eva.Base.Text.{strip_prefix}
use eva.Common.{Common, ItemKind, kind_eq}

pub record ItemWatch (Oid : Type 0) : Type 0 where
  pub oid : Oid
  pub expires : ℕ
  pub last_event : ℕ
  pub expired : Bool

-- `Instant::elapsed` stops at 0
abbrev pub is_expired : {Oid : Type 0} → ItemWatch Oid → ℕ → Bool
is_expired w now = leb w.expires (now - w.last_event)

unfoldable pub handle_event : {Oid : Type 0} → ItemWatch Oid → ℕ → ItemWatch Oid
handle_event w now = record w { last_event = now; expired = false }

unfoldable pub mark_expired : {Oid : Type 0} → ItemWatch Oid → ItemWatch Oid
mark_expired w = record w { expired = true }

abbrev pub is_due : {Oid : Type 0} → ItemWatch Oid → ℕ → Bool
is_due w now = not w.expired && is_expired w now

-- the loop over the watchers: those that are left, and the paths to publish
unfoldable pub check_all :
    {Oid : Type 0} → Dict String (ItemWatch Oid) → ℕ → Dict String (ItemWatch Oid) × List String
unfolding mark_expired
check_all [] now = ([], [])
check_all ((p, w) ∷ rest) now =
    let (marked, expired) = check_all rest now in
    if is_due w now then ((p, mark_expired w) ∷ marked, p ∷ expired) else ((p, w) ∷ marked, expired)

-- `while next_iter < now { next_iter += sleep_step }`, for at most that many rounds
unfoldable pub catch_up : ℕ → ℕ → ℕ → ℕ → Option ℕ
catch_up zero sleep_step next_iter now = none
catch_up (suc fuel) sleep_step next_iter now =
    let rest = catch_up fuel sleep_step (next_iter + sleep_step) now in
    if ltb next_iter now then rest else some next_iter

-- the rest of a turn of `checker`, when the service is not stopped: the next instant to check at. The
-- loop is entered only after a warning, and its test is the same as that of the warning.
unfoldable pub next_check : ℕ → ℕ → ℕ → ℕ → Option ℕ
unfolding catch_up
next_check fuel sleep_step next_iter now =
    if ltb (next_iter + sleep_step) now
    then catch_up fuel sleep_step (next_iter + sleep_step) now
    else some (next_iter + sleep_step)

-- what the service takes from eva_common: topics, and the kind and the path of an OID
pub record Bus : Type 1 where
  pub Oid : Type 0
  pub raw_state_topic : String
  pub local_state_topic : String
  pub kind : Oid → ItemKind
  pub as_path : Oid → String

pub record Frame : Type 0 where
  pub is_publish : Bool
  pub primary_sender : String
  pub topic : Option String

module _ (bus : Bus) where
  open bus use {Oid, raw_state_topic, local_state_topic, kind, as_path}

  abbrev pub Watchers : Type 0
  Watchers = Dict String (ItemWatch Oid)

  -- the watcher that is found takes the event
  abbrev pub touch_found : String → Watchers → ℕ → Option (ItemWatch Oid) → Watchers
  touch_found path ws now none = ws
  touch_found path ws now (some w) = insert path (handle_event w now) ws

  unfoldable pub touch : String → Watchers → ℕ → Watchers
  unfolding handle_event
  touch path ws now = touch_found path ws now (get path ws)

  abbrev pub on_topic : Option String → Option String → Watchers → ℕ → Watchers
  on_topic (some path) _ ws now = touch path ws now
  on_topic none (some path) ws now = touch path ws now
  on_topic none none ws now = ws

  abbrev pub on_frame : Option String → Watchers → ℕ → Watchers
  on_frame none ws now = ws
  on_frame (some t) ws now =
      on_topic (strip_prefix raw_state_topic t) (strip_prefix local_state_topic t) ws now

  -- `handle_frame` of the service whose name is `me`
  unfoldable pub handle_frame : String → Frame → Watchers → ℕ → Watchers
  unfolding touch
  handle_frame me frame ws now =
      if frame.is_publish && not (str_eq frame.primary_sender me)
      then on_frame frame.topic ws now
      else ws

  -- the topic to subscribe to for an OID
  unfoldable pub topic_of : Oid → String
  topic_of oid =
      str_append (if kind_eq (kind oid) ItemKind.lvar then local_state_topic else raw_state_topic)
        (as_path oid)

  -- the loop over the configuration, with the durations that Duration::from_secs_f64 makes: the topics
  -- and the watchers
  unfoldable pub configure : List (Oid × ℕ) → ℕ → Watchers → List String × Watchers
  unfolding topic_of
  configure [] now ws = ([], ws)
  configure ((oid, expires) ∷ rest) now ws =
      let w : ItemWatch Oid = record {
        oid = oid;
        expires = expires;
        last_event = now;
        expired = false;
      } in
      let (topics, all) = configure rest now (insert (as_path oid) w ws) in
      (topic_of oid ∷ topics, all)

  -- what happens to the watchers, one after another
  pub data Input : Type 0 where
    received : Frame → ℕ → Input
    checked : ℕ → Input

  -- the watchers at the end, and the paths published on the way
  unfoldable pub run : String → List Input → Watchers → Watchers × List String
  unfolding handle_frame check_all
  run me [] ws = (ws, [])
  run me (received f now ∷ rest) ws = run me rest (handle_frame me f ws now)
  run me (checked now ∷ rest) ws =
      let (marked, expired) = check_all ws now in
      let (end, later) = run me rest marked in (end, expired ++ later)
