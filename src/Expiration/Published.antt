-- ===== src/Expiration/Published.antt =====
-- svc/svc-expiration/src/main.rs: what is published over time.
use eva.Base.{
  ℕ, suc, ◌+◌, ◌≤◌, String, Option, none, some, if◌then◌else◌, List, [], ◌∷◌, ap, inl, inr, arith,
}
use eva.Base.Eq.{string-Eq, option-Eq}
use eva.Base.Dict.{get, Distinct}
use eva.Expiration.{
  ItemWatch, mark_expired, check_all, Bus, Watchers, handle_frame, Input, received, checked, run,
}
use eva.Expiration.Checked.{
  count, count-append, marked_at, due_at, count-check_all, get-check_all, Distinct-check_all,
}
use eva.Expiration.Handled.{is_update, handle_frame-IsAt, Distinct-handle_frame}

module _ (bus : Bus) where
  open bus use {Oid}

  -- how many inputs are updates of the path
  unfoldable pub updates : String → String → List (Input bus) → ℕ
  updates me p [] = 0
  updates me p (checked now ∷ rest) = updates me p rest
  updates me p (received f now ∷ rest) =
      let n = updates me p rest in if is_update bus me p f then suc n else n

  -- how often an item can be published before its next update
  abbrev pub credit : Option (ItemWatch Oid) → ℕ
  credit none = 0
  credit (some w) = if w.expired then 0 else 1

  credit-marked_at :
      (now : ℕ) (o : Option (ItemWatch Oid)) → due_at now o + credit (marked_at now o) ≤ credit o
  unfolding mark_expired
  credit-marked_at now none = omega arith
  credit-marked_at now (some w) = ground arith

  credit-le : (o : Option (ItemWatch Oid)) → credit o ≤ 1
  credit-le none = omega arith
  credit-le (some w) = ground arith

  -- Whatever the order of frames and checks, where no path stands twice at first, an item is
  -- published as expired at most as often as it is updated by other senders, and once more if it
  -- is not marked at first.
  pub run-le :
      (me p : String) (inputs : List (Input bus)) (ws : Watchers bus)
      → Distinct ws
      → count p (run bus me inputs ws).1 ≤ credit (get p ws) + updates me p inputs
  unfolding run updates count
  run-le me p [] ws d = omega arith
  run-le me p (checked now ∷ rest) ws d = omega (
    arith,
    count-append p (check_all ws now).1 (run bus me rest (check_all ws now).0).1,
    count-check_all now p ws d,
    credit-marked_at now (get p ws),
    ap credit (get-check_all now p ws),
    run-le me p rest (check_all ws now).0 (Distinct-check_all now ws d),
  )
  run-le me p (received f now ∷ rest) ws d =
      let after = handle_frame bus me f ws now in
      let later = run-le me p rest after (Distinct-handle_frame bus me f ws now d) in
      elim (handle_frame-IsAt bus me p f ws now) [
        | inl kept ↦ ground (arith, ap credit kept, later)
        | inr (y, e) ↦ ground (arith, y, credit-le (get p after), later)
      ]
