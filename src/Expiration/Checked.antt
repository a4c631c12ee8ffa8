-- ===== src/Expiration/Checked.antt =====
-- svc/svc-expiration/src/main.rs: what one check of the watchers publishes and marks.
use eva.Base.{
  ℕ, suc, ◌+◌, ◌-◌, ◌<◌, String, Option, none, some, true, if◌then◌else◌, List, [], ◌∷◌, ◌++◌, ◌≡◌,
  ◌≤◌, false, refl, ◌⊎◌, inl, inr, arith, Bool-cases,
}
use eva.Base.Eq.{◌==◌, string-Eq}
use eva.Base.Dict.{Dict, get, Distinct}
use eva.Expiration.{ItemWatch, is_due, mark_expired, check_all}

-- how often a text stands in a list
unfoldable pub count : String → List String → ℕ
count p [] = 0
count p (q ∷ qs) = let n = count p qs in if q == p then suc n else n

pub count-append : (p : String) (xs ys : List String) → count p (xs ++ ys) ≡ count p xs + count p ys
unfolding count
count-append p [] ys = omega arith
count-append p (x ∷ xs) ys = ground (arith, count-append p xs ys)

module _ {Oid : Type 0} (now : ℕ) where
  abbrev pub marked : ItemWatch Oid → ItemWatch Oid
  marked w = if is_due w now then mark_expired w else w

  abbrev pub marked_at : Option (ItemWatch Oid) → Option (ItemWatch Oid)
  marked_at none = none
  marked_at (some w) = some (marked w)

  abbrev pub due_at : Option (ItemWatch Oid) → ℕ
  due_at none = 0
  due_at (some w) = if is_due w now then 1 else 0

  pub get-check_all :
      (p : String) (ws : Dict String (ItemWatch Oid))
      → get p (check_all ws now).0 ≡ marked_at (get p ws)
  unfolding check_all get
  get-check_all p [] = refl
  get-check_all p ((q, w) ∷ rest) = ground (arith, get-check_all p rest)

  pub count-check_all :
      (p : String) (ws : Dict String (ItemWatch Oid))
      → Distinct ws
      → count p (check_all ws now).1 ≡ due_at (get p ws)
  unfolding check_all get count
  count-check_all p [] d = refl
  count-check_all p ((q, w) ∷ rest) d =
      ground (arith, count-check_all p rest d.1, d.0, string-Eq.decides q p)

  pub Distinct-check_all :
      (ws : Dict String (ItemWatch Oid)) → Distinct ws → Distinct (check_all ws now).0
  unfolding check_all get
  Distinct-check_all [] d = tt
  Distinct-check_all ((q, w) ∷ rest) d = elim (Bool-cases (is_due w now)) [
    | inl y ↦ rw y (ground (arith, get-check_all q rest, d.0), Distinct-check_all rest d.1)
    | inr n ↦ rw n (ground (arith, get-check_all q rest, d.0), Distinct-check_all rest d.1)
  ]

  abbrev pub IsCovered : ItemWatch Oid → Type 0
  IsCovered w = (w.expired ≡ true) ⊎ (now - w.last_event < w.expires)

  -- What a check makes of the watcher of a path, and how often it publishes the path.
  abbrev pub IsChecked : Option (ItemWatch Oid) → Option (ItemWatch Oid) → ℕ → Type 0
  IsChecked none after n = (after ≡ none) × (n ≡ 0)
  IsChecked (some w) after n =
      ((w.expired ≡ false)
        × (w.expires ≤ now - w.last_event)
        × (after ≡ some (record w { expired = true }))
        × (n ≡ 1))
      ⊎ IsCovered w × (after ≡ some w) × (n ≡ 0)

  marked_at-IsChecked : (o : Option (ItemWatch Oid)) → IsChecked o (marked_at o) (due_at o)
  unfolding mark_expired
  marked_at-IsChecked none = (refl, refl)
  marked_at-IsChecked (some w) = elim (Bool-cases (is_due w now)) [
    | inl y ↦ rw y (inl (ground (arith, y), ground (arith, y), refl, refl))
    | inr n ↦ rw n (inr (covered n, refl, refl))
  ]
    where
      covered : is_due w now ≡ false → IsCovered w
      covered n = elim (Bool-cases w.expired) [ inl y ↦ inl y | inr k ↦ inr (ground (arith, n, k)) ]

  -- Where no path stands twice, a check marks a watcher that is not marked and has had no update
  -- for the time it is allowed, changing nothing else of it, and publishes its path once; it
  -- leaves every other watcher as it is, which is then marked already or still in its time, and
  -- does not publish its path, nor one that has no watcher.
  pub check_all_lem :
      (p : String) (ws : Dict String (ItemWatch Oid))
      → Distinct ws
      → IsChecked (get p ws) (get p (check_all ws now).0) (count p (check_all ws now).1)
  check_all_lem p ws d =
      rw (get-check_all p ws, count-check_all p ws d) (marked_at-IsChecked (get p ws))
