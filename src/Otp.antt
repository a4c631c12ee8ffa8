-- ===== src/Otp.antt =====
-- svc/aaa-otp/src/main.rs: the service of one-time passwords. The registry, whose state is a `W`, the
-- random bytes and the check of a password by libreauth are parameters.
pub mod Checked
pub mod Stored
use eva.Base.{
  String, Option, none, some, Bool, true, false, not, ◌||◌, if◌then◌else◌, str_eq, EResult, ok, err,
  Error, ◌>>=◌, not_found, invalid_params, List, [], ◌∷◌,
}
use eva.Base.Eq.{string-Eq}
use eva.Base.Dict.{Dict, get, insert, remove, values}
use eva.Base.Lists.{retain}

pub record Otp : Type 0 where
  pub login : String
  pub secret : String
  pub active : Bool

-- what the service takes from its surroundings
pub record Surroundings (W : Type 0) : Type 0 where
  -- the keys under "otp/"
  pub key_set : String → Otp → W → W × EResult (Unit {0})
  pub key_delete : String → W → W × EResult (Unit {0})
  -- what the key holds
  pub key_get : String → W → Option Otp
  -- `is_valid` of libreauth, for a secret and a password; a bad secret is an error
  pub is_valid : String → String → EResult Bool

abbrev pub Otps : Type 0
Otps = Dict String Otp

-- `OTPS`, and the state of the surroundings
pub record State (W : Type 0) : Type 0 where
  pub otps : Otps
  pub world : W

-- the answers of `otp.check`: those that ask for more data, with the secret for a setup
pub data Reply : Type 0 where
  granted : Reply
  setup : String → Reply
  required invalid : Reply
  refused : Error → Reply

pub record ParamsCheck : Type 0 where
  pub login : String
  pub otp : Option String

-- what a call leaves to be done for its login in the registry
pub data Write : Type 0 where
  key_write : Otp → Write
  key_erase : Write

-- how a call goes on after the lock of the table is released
pub data Progress (R : Type 0) : Type 0 where
  answer : R → Progress R
  write : Write → Progress R

unfoldable pub contains : List String → String → Bool
contains [] login = false
contains (e ∷ rest) login = str_eq e login || contains rest login

-- `Otp::create`, with what base32 makes of the random bytes
unfoldable pub create : String → EResult String → EResult Otp
create login secret = secret >>= λ s. ok (record { login = login; secret = s; active = false })

-- `otp.list`, before it is sorted
unfoldable pub list : Otps → List Otp
list otps = retain (λ o. o.active) (values otps)

module _ {W : Type 0} (env : Surroundings W) where
  open env use {key_set, key_delete, is_valid}

  abbrev pub verdict : EResult Bool → Option Reply
  verdict (err e) = some (refused e)
  verdict (ok true) = none
  verdict (ok false) = some invalid

  -- `Otp::verify`: none where the password is right
  unfoldable pub verify : Otp → String → Option Reply
  verify otp password = verdict (is_valid otp.secret password)

  -- A password that is right: the first one makes the secret active in the table, and leaves it to
  -- be written.
  abbrev pub verified : String → Otp → Otps → Otps × Progress Reply
  verified login otp otps =
      if otp.active
      then (otps, answer granted)
      else (let active : Otp = record otp { active = true } in
          (insert ⦃e = string-Eq⦄ login active otps, write (key_write active)))

  abbrev pub answered : String → Option Reply → Otp → Otps → Otps × Progress Reply
  answered login (some reply) otp otps = (otps, answer reply)
  answered login none otp otps = verified login otp otps

  -- without a password
  abbrev pub asked : Otp → Reply
  asked otp = if otp.active then required else setup otp.secret

  abbrev pub check_found : String → Otp → Option String → Otps → Otps × Progress Reply
  check_found login otp (some password) otps = answered login (verify otp password) otp otps
  check_found login otp none otps = (otps, answer (asked otp))

  abbrev pub created : String → EResult Otp → Otps → Otps × Progress Reply
  created login (ok otp) otps = (insert ⦃e = string-Eq⦄ login otp otps, answer (setup otp.secret))
  created login (err e) otps = (otps, answer (refused e))

  abbrev pub check_known : ParamsCheck → EResult String → Option Otp → Otps → Otps × Progress Reply
  check_known p secret (some otp) otps = check_found p.login otp p.otp otps
  check_known p secret none otps = created p.login (create p.login secret) otps

  -- `otp.check` while it has the table locked; `secret` is that of a new user
  unfoldable pub check_begin :
      List String → ParamsCheck → EResult String → Otps → Otps × Progress Reply
  unfolding verify create contains
  check_begin exclude p secret otps =
      if contains exclude p.login
      then (otps, answer granted)
      else check_known p secret (get ⦃e = string-Eq⦄ p.login otps) otps

  -- a write to the registry, which comes when the table is not locked any more
  unfoldable pub perform : String → Write → W → W × EResult (Unit {0})
  perform login (key_write otp) w = key_set login otp w
  perform login key_erase w = key_delete login w

  abbrev pub reply_of : EResult (Unit {0}) → Reply
  reply_of (ok _) = granted
  reply_of (err e) = refused e

  -- the rest of the call, at the world in which it goes on
  abbrev pub check_end : String → Progress Reply → W → W × Reply
  check_end login (answer r) w = (w, r)
  check_end login (write o) w = let (w', r) = perform login o w in (w', reply_of r)

  -- `otp.check`, for a payload, when no other call comes in between
  unfoldable pub check :
      List String → Option ParamsCheck → EResult String → State W → State W × Reply
  unfolding check_begin perform
  check exclude none secret s = (s, refused invalid_params)
  check exclude (some p) secret s =
      let (otps, step) = check_begin exclude p secret s.otps in
      let (w, r) = check_end p.login step s.world in (record { otps = otps; world = w }, r)

  -- `otp.destroy` while it has the table locked
  abbrev pub destroy_known : String → Option Otp → Otps → Otps × Progress (EResult (Unit {0}))
  destroy_known i none otps = (otps, answer (err not_found))
  destroy_known i (some _) otps = (remove ⦃e = string-Eq⦄ i otps, write key_erase)

  unfoldable pub destroy_begin : String → Otps → Otps × Progress (EResult (Unit {0}))
  destroy_begin i otps = destroy_known i (get ⦃e = string-Eq⦄ i otps) otps

  abbrev pub destroy_end : String → Progress (EResult (Unit {0})) → W → W × EResult (Unit {0})
  destroy_end i (answer r) w = (w, r)
  destroy_end i (write o) w = perform i o w

  -- `otp.destroy`, when no other call comes in between
  unfoldable pub destroy : Option String → State W → State W × EResult (Unit {0})
  unfolding destroy_begin perform
  destroy none s = (s, err invalid_params)
  destroy (some i) s =
      let (otps, step) = destroy_begin i s.otps in
      let (w, r) = destroy_end i step s.world in (record { otps = otps; world = w }, r)

-- the loop of `main` over what the registry holds
unfoldable pub load : List Otp → Otps → Otps
load [] otps = otps
load (otp ∷ rest) otps = load rest (insert ⦃e = string-Eq⦄ otp.login otp otps)
