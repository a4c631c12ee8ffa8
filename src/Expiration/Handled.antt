-- ===== src/Expiration/Handled.antt =====
-- svc/svc-expiration/src/main.rs: the frames that keep an item alive.
use eva.Base.{
  ℕ, ◌+◌, ◌≤◌, ◌<◌, String, Option, none, some, Bool, true, false, not, ◌&&◌, ◌||◌, if◌then◌else◌,
  str_eq, str_append, ◌≡◌, refl, ◌∙◌, ◌⊎◌, inl, inr, arith, Bool-cases,
}
use eva.Base.Eq.{◌==◌, option_eq, beq_refl, string-Eq, option-Eq}
use eva.Base.Dict.{get, get-insert, Distinct, Distinct-insert}
use eva.Common.{ItemKind, kind_eq}
use eva.Base.Text.{strip_prefix, strip_prefix-append, append-strip_prefix}
use eva.Expiration.{
  ItemWatch, handle_event, check_all, Bus, Frame, Watchers, touch, touch_found, on_frame, on_topic,
  handle_frame, topic_of,
}
use eva.Expiration.Checked.{count, count-check_all}

module _ (bus : Bus) where
  open bus use {Oid, raw_state_topic, local_state_topic, as_path, kind}

  abbrev pub updated_at : ℕ → Option (ItemWatch Oid) → Option (ItemWatch Oid)
  updated_at now none = none
  updated_at now (some w) = some (handle_event w now)

  get-touch :
      (p q : String) (ws : Watchers bus) (now : ℕ)
      → get q (touch bus p ws now) ≡ (if p == q then updated_at now (get q ws) else get q ws)
  unfolding touch
  get-touch p q ws now = go (get p ws) refl
    where
      go :
          (o : Option (ItemWatch Oid))
          → get p ws ≡ o
          → get q (touch_found bus p ws now o)
            ≡ (if p == q then updated_at now (get q ws) else get q ws)
      go none e = ground (arith, e, string-Eq.decides p q)
      go (some w) e =
          ground (arith, e, string-Eq.decides p q, get-insert p q (handle_event w now) ws)

  Distinct-touch :
      (p : String) (ws : Watchers bus) (now : ℕ) → Distinct ws → Distinct (touch bus p ws now)
  unfolding touch
  Distinct-touch p ws now d = go (get p ws)
    where
      go : (o : Option (ItemWatch Oid)) → Distinct (touch_found bus p ws now o)
      go none = d
      go (some w) = Distinct-insert p (handle_event w now) ws d

  abbrev pub is_topic : String → Option String → Bool
  is_topic p o =
      option_eq o (some (str_append raw_state_topic p))
      || option_eq o (some (str_append local_state_topic p))

  -- a frame of another sender on a topic of the path
  unfoldable pub is_update : String → String → Frame → Bool
  is_update me p f = (f.is_publish && not (str_eq f.primary_sender me)) && is_topic p f.topic

  -- what is found after a frame
  abbrev pub IsAt : (p : String) (updated : Bool) (now : ℕ) (before after : Watchers bus) → Type 0
  IsAt p updated now before after =
      (get p after ≡ get p before)
      ⊎ (updated ≡ true) × (get p after ≡ updated_at now (get p before))

  on_frame-IsAt :
      (p : String) (o : Option String) (ws : Watchers bus) (now : ℕ)
      → IsAt p (is_topic p o) now ws (on_frame bus o ws now)
  on_frame-IsAt p none ws now = inl refl
  on_frame-IsAt p (some t) ws now = go _ _ refl refl
    where
      go :
          (r l : Option String)
          → strip_prefix raw_state_topic t ≡ r
          → strip_prefix local_state_topic t ≡ l
          → IsAt p (is_topic p (some t)) now ws (on_topic bus r l ws now)
      go none none e h = inl refl
      go (some path) l e h = ground (
        arith,
        get-touch path p ws now,
        append-strip_prefix raw_state_topic t path e,
        string-Eq.decides path p,
        beq_refl t,
      )
      go none (some path) e h = ground (
        arith,
        get-touch path p ws now,
        append-strip_prefix local_state_topic t path h,
        string-Eq.decides path p,
        beq_refl t,
      )

  pub handle_frame-IsAt :
      (me p : String) (f : Frame) (ws : Watchers bus) (now : ℕ)
      → IsAt p (is_update me p f) now ws (handle_frame bus me f ws now)
  unfolding handle_frame is_update
  handle_frame-IsAt me p f ws now =
      elim (Bool-cases (f.is_publish && not (str_eq f.primary_sender me))) [
        | inr n ↦ rw n (inl refl)
        | inl y ↦ rw y (on_frame-IsAt p f.topic ws now)
      ]

  pub Distinct-handle_frame :
      (me : String) (f : Frame) (ws : Watchers bus) (now : ℕ)
      → Distinct ws
      → Distinct (handle_frame bus me f ws now)
  unfolding handle_frame
  Distinct-handle_frame me f ws now d =
      elim (Bool-cases (f.is_publish && not (str_eq f.primary_sender me))) [
        | inr n ↦ rw n d
        | inl y ↦ rw y (by_topic f.topic)
      ]
    where
      by_prefix : (r l : Option String) → Distinct (on_topic bus r l ws now)
      by_prefix (some path) l = Distinct-touch path ws now d
      by_prefix none (some path) = Distinct-touch path ws now d
      by_prefix none none = d

      by_topic : (o : Option String) → Distinct (on_frame bus o ws now)
      by_topic none = d
      by_topic (some t) =
          by_prefix (strip_prefix raw_state_topic t) (strip_prefix local_state_topic t)

  on_frame-topic_of :
      (oid : Oid) (ws : Watchers bus) (now : ℕ)
      → strip_prefix raw_state_topic (str_append local_state_topic (as_path oid)) ≡ none
      → on_frame bus (some (topic_of bus oid)) ws now ≡ touch bus (as_path oid) ws now
  unfolding topic_of
  on_frame-topic_of oid ws now apart = elim (Bool-cases (kind_eq (kind oid) ItemKind.lvar)) [
    | inl y ↦ rw (y, apart, strip_prefix-append local_state_topic (as_path oid)) refl
    | inr n ↦ rw (n, strip_prefix-append raw_state_topic (as_path oid)) refl
  ]

  handle_frame-topic_of :
      (me : String) (oid : Oid) (f : Frame) (ws : Watchers bus) (now : ℕ)
      → strip_prefix raw_state_topic (str_append local_state_topic (as_path oid)) ≡ none
      → f.is_publish ≡ true
      → str_eq f.primary_sender me ≡ false
      → f.topic ≡ some (topic_of bus oid)
      → handle_frame bus me f ws now ≡ touch bus (as_path oid) ws now
  unfolding handle_frame
  handle_frame-topic_of me oid f ws now apart y n e =
      rw (y, n, e) (on_frame-topic_of oid ws now apart)

  -- Where no path stands twice and the raw topic is no prefix of the local topic of the item, a
  -- frame of another sender on the topic that the service subscribes to for an item keeps every
  -- check within the allowed time after it from publishing the item.
  pub handle_frame-refreshes :
      (me : String) (oid : Oid) (f : Frame) (ws : Watchers bus) (w : ItemWatch Oid) (now t : ℕ)
      → Distinct ws
      → strip_prefix raw_state_topic (str_append local_state_topic (as_path oid)) ≡ none
      → get (as_path oid) ws ≡ some w
      → f.is_publish ≡ true
      → str_eq f.primary_sender me ≡ false
      → f.topic ≡ some (topic_of bus oid)
      → now ≤ t
      → t < now + w.expires
      → count (as_path oid) (check_all (handle_frame bus me f ws now) t).1 ≡ 0
  unfolding handle_event
  handle_frame-refreshes me oid f ws w now t d apart g y n e later soon =
      rw (handle_frame-topic_of me oid f ws now apart y n e) (
        count-check_all t (as_path oid) (touch bus (as_path oid) ws now)
          (Distinct-touch (as_path oid) ws now d)
        ∙ rw (get-touch (as_path oid) (as_path oid) ws now, beq_refl (as_path oid), g)
            (ground (arith, later, soon)))
