-- ===== src/Core/Locks.antt =====
-- `lock_source` and `unlock_source` of eva/src/core.rs.
use eva.Base.{String, Bool, true, false, not, if◌then◌else◌, ◌≡◌, arith}
use eva.Base.Eq.{string-Eq}
use eva.Base.Dict.{Dict, contains_key, insert, remove, get-insert, get-remove, contains_key-get}
use eva.Core.{lock_source, unlock_source}

abbrev pub locked : Dict String (Unit {0}) → String → Bool
locked locks s = contains_key ⦃e = string-Eq⦄ s locks

-- A source can be locked exactly if it is not, it is locked from then on, so that a second attempt
-- fails, until it is unlocked, and the locks of the other sources stay.
pub lock_source_lem :
    (locks : Dict String (Unit {0})) (s : String)
    → ((lock_source locks s).1 ≡ not (locked locks s))
      × ((lock_source (lock_source locks s).0 s).1 ≡ false)
      × ((t : String)
          → locked (lock_source locks s).0 t
            ≡ (if string-Eq.same s t then true else locked locks t))
      × ((t : String)
          → locked (unlock_source locks s) t
            ≡ (if string-Eq.same s t then false else locked locks t))
unfolding lock_source unlock_source
lock_source_lem locks s = (
  ground arith,
  ground (
    arith,
    contains_key-get s (insert s tt locks),
    get-insert s s tt locks,
    string-Eq.decides s s,
  ),
  λ t. ground (
    arith,
    contains_key-get t (insert s tt locks),
    contains_key-get t locks,
    get-insert s t tt locks,
    string-Eq.decides s t,
  ),
  λ t.
      ground (
        arith,
        contains_key-get t (remove s locks),
        contains_key-get t locks,
        get-remove s t locks,
      ),
)
