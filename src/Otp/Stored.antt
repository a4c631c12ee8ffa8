-- ===== src/Otp/Stored.antt =====
-- svc/aaa-otp/src/main.rs: the table of secrets and the registry, over calls that write to the
-- registry after they have released the lock of the table.
use eva.Base.{
  String, Option, none, some, Bool, true, false, EResult, ok, err, ◌≡◌, refl, arith, Bool-cases,
  inl, inr, if◌then◌else◌, List,
}
use eva.Base.Eq.{◌==◌, string-Eq}
use eva.Base.Dict.{Dict, get, get-insert, get-remove, insert, remove}
use eva.Otp.{
  Otp, Otps, Surroundings, Reply, ParamsCheck, contains, create, verify, verified, answered,
  check_found, created, check_known, check_begin, destroy_known, destroy_begin, perform, Write,
  key_write, key_erase, Progress, answer, write,
}

-- the service with the writes that calls have still to do, one for a login at most
pub record System (W : Type 0) : Type 0 where
  pub otps : Otps
  pub world : W
  pub pending : Dict String Write

-- a call of a login that has changed the table
abbrev pub begun : {W R : Type 0} → String → System W → Otps × Progress R → System W
begun login s (otps, answer r) = record s { otps = otps }
begun login s (otps, write o) = record s {
  otps = otps;
  pending = insert ⦃e = string-Eq⦄ login o s.pending;
}

module _ {W : Type 0} (env : Surroundings W) where
  open env use {key_set, key_delete, key_get}

  -- Calls of one login come one at a time: there is none while a write of the login is pending.
  pub data Step (exclude : List String) : System W → System W → Type 0 where
    check_call :
        (s : System W) (p : ParamsCheck) (secret : EResult String)
        → get p.login s.pending ≡ none
        → Step exclude s (begun p.login s (check_begin env exclude p secret s.otps))
    destroy_call :
        (s : System W) (login : String)
        → get login s.pending ≡ none
        → Step exclude s (begun login s (destroy_begin env login s.otps))
    writes :
        (s : System W) (login : String) (o : Write)
        → get login s.pending ≡ some o
        → Step exclude s (record s {
          world = (perform env login o s.world).0;
          pending = remove ⦃e = string-Eq⦄ login s.pending;
        })

  pub data Reach (exclude : List String) (s : System W) : System W → Type 0 where
    here : Reach exclude s s
    step : {t u : System W} → Reach exclude s t → Step exclude t u → Reach exclude s u

  -- A registry that holds what was set last.
  pub record Works : Type 0 where
    pub get_set :
        (k j : String) (o : Otp) (w : W)
        → key_get j (key_set k o w).0 ≡ (if k == j then some o else key_get j w)
    pub get_delete :
        (k j : String) (w : W)
        → key_get j (key_delete k w).0 ≡ (if k == j then none else key_get j w)

  abbrev pub if_active : Option Otp → Option Otp
  if_active none = none
  if_active (some o) = if o.active then some o else none

  -- what the registry holds for a login once its write is done
  abbrev pub settled : Option Write → Option Otp → Option Otp
  settled none held = held
  settled (some (key_write o)) held = some o
  settled (some key_erase) held = none

  -- For each login the registry has its secret if that is active, and none if not, once the write
  -- that is pending, if any, is done.
  abbrev pub IsStored : System W → Type 0
  IsStored s =
      (login : String)
      → settled (get login s.pending) (key_get login s.world) ≡ if_active (get login s.otps)

  verified-IsStored :
      (s : System W) (login : String) (otp : Otp)
      → IsStored s
      → IsStored (begun login s (verified env login otp s.otps))
  verified-IsStored s login otp i = go otp.active
    where
      active : Otp
      active = record otp { active = true }

      go :
          (b : Bool)
          → IsStored (
              begun {R = Reply} login s (
                if b
                then (s.otps, answer Reply.granted)
                else (insert login active s.otps, write (key_write active))))
      go true = i
      go false = λ l. ground (
        arith,
        get-insert login l active s.otps,
        get-insert login l (key_write active) s.pending,
        i l,
      )

  found-IsStored :
      (s : System W) (login : String) (otp : Otp) (o : Option String)
      → IsStored s
      → IsStored (begun login s (check_found env login otp o s.otps))
  found-IsStored s login otp none i = i
  found-IsStored s login otp (some password) i = go (verify env otp password)
    where
      go : (r : Option Reply) → IsStored (begun login s (answered env login r otp s.otps))
      go none = verified-IsStored s login otp i
      go (some reply) = i

  created-IsStored :
      (s : System W) (login : String) (r : EResult String)
      → get login s.otps ≡ none
      → IsStored s
      → IsStored (begun login s (created env login (create login r) s.otps))
  unfolding create
  created-IsStored s login (err e) g i = i
  created-IsStored s login (ok secret) g i = λ l. ground (
    arith,
    get-insert login l (record { login = login; secret = secret; active = false }) s.otps,
    string-Eq.decides login l,
    i l,
    i login,
    g,
  )

  known-IsStored :
      (s : System W) (p : ParamsCheck) (secret : EResult String) (o : Option Otp)
      → get p.login s.otps ≡ o
      → IsStored s
      → IsStored (begun p.login s (check_known env p secret o s.otps))
  known-IsStored s p secret none g i = created-IsStored s p.login secret g i
  known-IsStored s p secret (some otp) g i = found-IsStored s p.login otp p.otp i

  check-IsStored :
      (exclude : List String) (s : System W) (p : ParamsCheck) (secret : EResult String)
      → IsStored s
      → IsStored (begun p.login s (check_begin env exclude p secret s.otps))
  unfolding check_begin
  check-IsStored exclude s p secret i = elim (Bool-cases (contains exclude p.login)) [
    | inl y ↦ rw y i
    | inr n ↦ rw n (known-IsStored s p secret (get p.login s.otps) refl i)
  ]

  destroy-IsStored :
      (s : System W) (login : String) (o : Option Otp)
      → IsStored s
      → IsStored (begun login s (destroy_known env login o s.otps))
  destroy-IsStored s login none i = i
  destroy-IsStored s login (some otp) i =
      λ l. ground (arith, get-insert login l key_erase s.pending, get-remove login l s.otps, i l)

  writes-IsStored :
      (s : System W) (login : String) (o : Write)
      → Works
      → get login s.pending ≡ some o
      → IsStored s
      → IsStored
          (record s { world = (perform env login o s.world).0; pending = remove login s.pending })
  unfolding perform
  writes-IsStored s login (key_write o) works h i = λ l. ground (
    arith,
    works.get_set login l o s.world,
    get-remove login l s.pending,
    string-Eq.decides login l,
    h,
    i l,
    i login,
  )
  writes-IsStored s login key_erase works h i = λ l. ground (
    arith,
    works.get_delete login l s.world,
    get-remove login l s.pending,
    string-Eq.decides login l,
    h,
    i l,
    i login,
  )

  -- With a registry that holds what was set last, and as long as no call of otp.check or
  -- otp.destroy comes for a login whose write is pending, every order of calls and of their
  -- writes, which come when the table is not locked any more, keeps the registry in step with the
  -- table: for a login with no write pending it holds the secret if that is active and nothing if
  -- not, and for one with a write pending it does once that is done.
  pub Reach-IsStored :
      {exclude : List String} {s t : System W} → Works → IsStored s → Reach exclude s t → IsStored t
  unfolding destroy_begin
  Reach-IsStored works i here = i
  Reach-IsStored {exclude} works i (step r (check_call s p secret h)) =
      check-IsStored exclude s p secret (Reach-IsStored works i r)
  Reach-IsStored works i (step r (destroy_call s login h)) =
      destroy-IsStored s login (get login s.otps) (Reach-IsStored works i r)
  Reach-IsStored works i (step r (writes s login o h)) =
      writes-IsStored s login o works h (Reach-IsStored works i r)
