-- ===== src/Otp/Checked.antt =====
-- svc/aaa-otp/src/main.rs: what each answer of otp.check tells.
use eva.Base.{
  String, Option, none, some, Bool, true, false, EResult, ok, err, List, ◌≡◌, refl, ◌⊎◌, inl, inr,
  Bool-cases, if◌then◌else◌,
}
use eva.Base.Eq.{string-Eq}
use eva.Base.Dict.{get, insert}
use eva.Otp.{
  Otp, Surroundings, State, Reply, granted, setup, required, invalid, refused, ParamsCheck,
  contains, create, verify, verdict, Otps, verified, Progress, answer, write, key_write,
  check_begin, check_end, reply_of, perform, answered, asked, check_found, created, check_known,
  check,
}

module _ {W : Type 0} (env : Surroundings W) (exclude : List String) where
  open env use {is_valid}

  -- why a request gets its answer
  abbrev pub IsJustified : ParamsCheck → EResult String → State W → Reply → Type 0
  IsJustified p secret s granted =
      (contains exclude p.login ≡ true)
      ⊎ (otp : Otp) × (password : String) × (get p.login s.otps ≡ some otp)
        × (p.otp ≡ some password)
        × (is_valid otp.secret password ≡ ok true)
  IsJustified p secret s (setup shown) =
      (contains exclude p.login ≡ false)
      × ((get p.login s.otps ≡ none) × (secret ≡ ok shown)
          ⊎ (otp : Otp) × (get p.login s.otps ≡ some otp)
            × (otp.active ≡ false)
            × (p.otp ≡ none)
            × (otp.secret ≡ shown))
  IsJustified p secret s required =
      (otp : Otp) × (get p.login s.otps ≡ some otp) × (otp.active ≡ true) × (p.otp ≡ none)
  IsJustified p secret s invalid =
      (otp : Otp) × (password : String) × (get p.login s.otps ≡ some otp)
      × (p.otp ≡ some password)
      × (is_valid otp.secret password ≡ ok false)
  IsJustified p secret s (refused e) = contains exclude p.login ≡ false

  module _ (p : ParamsCheck) (secret : EResult String) (s : State W) where
    module _ (n : contains exclude p.login ≡ false) where
      -- a call that goes on in this way gets a reply that is justified
      abbrev Leads : Progress Reply → Type 0
      Leads (answer r) = IsJustified p secret s r
      Leads (write o) = IsJustified p secret s granted

      end-IsJustified :
          (step : Progress Reply)
          → Leads step
          → IsJustified p secret s (check_end env p.login step s.world).1
      unfolding perform
      end-IsJustified (answer r) h = h
      end-IsJustified (write o) h = go (perform env p.login o s.world).1
        where
          go : (r : EResult (Unit {0})) → IsJustified p secret s (reply_of env r)
          go (ok x) = h
          go (err e) = n

      module _ (otp : Otp) (g : get p.login s.otps ≡ some otp) where
        asked-IsJustified : p.otp ≡ none → IsJustified p secret s (asked env otp)
        asked-IsJustified e = go otp.active refl
          where
            go :
                (b : Bool)
                → otp.active ≡ b
                → IsJustified p secret s (if b then required else setup otp.secret)
            go true y = (otp, g, y, e)
            go false y = (n, inr (otp, g, y, e, refl))

        verified-IsJustified :
            (password : String)
            → p.otp ≡ some password
            → is_valid otp.secret password ≡ ok true
            → Leads (verified env p.login otp s.otps).1
        verified-IsJustified password e v = go otp.active
          where
            active : Otp
            active = record otp { active = true }

            go :
                (b : Bool)
                → let r : Otps × Progress Reply =
                    if b
                    then (s.otps, answer granted)
                    else (insert p.login active s.otps, write (key_write active)) in
                  Leads r.1
            go true = inr (otp, password, g, e, v)
            go false = inr (otp, password, g, e, v)

        answered-IsJustified :
            (password : String)
            → p.otp ≡ some password
            → Leads (answered env p.login (verify env otp password) otp s.otps).1
        unfolding verify
        answered-IsJustified password e = go (is_valid otp.secret password) refl
          where
            go :
                (r : EResult Bool)
                → is_valid otp.secret password ≡ r
                → Leads (answered env p.login (verdict env r) otp s.otps).1
            go (ok true) v = verified-IsJustified password e v
            go (ok false) v = (otp, password, g, e, v)
            go (err x) v = n

        found-IsJustified :
            (o : Option String) → p.otp ≡ o → Leads (check_found env p.login otp o s.otps).1
        found-IsJustified none e = asked-IsJustified e
        found-IsJustified (some password) e = answered-IsJustified password e

      created-IsJustified :
          (r : EResult String)
          → secret ≡ r
          → get p.login s.otps ≡ none
          → Leads (created env p.login (create p.login r) s.otps).1
      unfolding create
      created-IsJustified (ok shown) e g = (n, inl (g, e))
      created-IsJustified (err x) e g = n

      known-IsJustified :
          (o : Option Otp) → get p.login s.otps ≡ o → Leads (check_known env p secret o s.otps).1
      known-IsJustified none g = created-IsJustified secret refl g
      known-IsJustified (some otp) g = found-IsJustified otp g p.otp refl

  -- Otp.check grants only to an excluded login or for a password that is right for the secret of
  -- the login; it shows a secret only if that is new or not active yet and no password was given;
  -- it asks for a password only where the secret is active and none was given, and calls one
  -- invalid only if it is wrong.
  pub check-IsJustified :
      (p : ParamsCheck) (secret : EResult String) (s : State W)
      → IsJustified p secret s (check env exclude (some p) secret s).1
  unfolding check check_begin
  check-IsJustified p secret s = elim (Bool-cases (contains exclude p.login)) [
    | inl y ↦ rw y (inl y)
    | inr n ↦
        rw n (
          end-IsJustified p secret s n _ (known-IsJustified p secret s n (get p.login s.otps) refl))
  ]
