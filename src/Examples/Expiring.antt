-- ===== src/Examples/Expiring.antt =====
-- The expiration service with a sensor and an lvar, and the service of one-time passwords.
use eva.Base.{
  ◌+◌, ◌≤◌, String, true, false, none, some, str_eq, str_append, ◌≡◌, refl, ok, [], ◌∷◌, arith,
}
use eva.Base.Eq.{string-Eq}
use eva.Base.Dict.{Dict, get, insert, remove, Distinct, get-insert, get-remove}
use eva.Base.Text.{strip_prefix}
use eva.Common.{ItemKind}
use eva.Examples.Sample.{Oid}
use eva.Expiration.{
  ItemWatch, Bus, topic_of, Frame, Watchers, received, checked, run, check_all, handle_frame,
  next_check,
}
use eva.Expiration.CaughtUp.{IsNext, next_check-IsNext}
use eva.Expiration.Checked.{count, IsChecked, check_all_lem}
use eva.Expiration.Handled.{handle_frame-refreshes}
use eva.Expiration.Published.{credit, updates, run-le}
use eva.Otp.{
  Otp, Surroundings, State, ParamsCheck, check, key_write, check_begin, destroy_begin, verify,
  create, contains, perform,
}
use eva.Otp.Checked.{IsJustified, check-IsJustified}
use eva.Otp.Stored.{
  Works, IsStored, System, Reach, here, step, check_call, destroy_call, writes, Reach-IsStored,
}

abbrev path_of : Oid → String
path_of (ItemKind.lvar, id) = str_append "lvar/" id
path_of (_, id) = str_append "sensor/" id

abbrev bus : Bus
bus = record {
  Oid = Oid;
  raw_state_topic = "RAW/";
  local_state_topic = "ST/LOC/";
  kind = λ oid. oid.0;
  as_path = path_of;
}

abbrev probe : Oid
probe = (ItemKind.sensor, "hall/t1")

abbrev watch : ItemWatch Oid
watch = record { oid = probe; expires = 5; last_event = 10; expired = false }

abbrev mode : ItemWatch Oid
mode = record { oid = (ItemKind.lvar, "mode"); expires = 100; last_event = 10; expired = false }

abbrev watchers : Watchers bus
watchers = ("sensor/hall/t1", watch) ∷ ("lvar/mode", mode) ∷ []

watchers-Distinct : Distinct watchers
unfolding get
watchers-Distinct = (refl, (refl, tt))

abbrev update : Frame
update = record { is_publish = true; primary_sender = "plc"; topic = some "RAW/sensor/hall/t1" }

next_check-IsNext_example : IsNext 10 110 137 (next_check 38 10 100 137)
next_check-IsNext_example = next_check-IsNext 38 10 100 137 (omega arith) (omega arith)

check_all_lem_example :
    IsChecked 16
      (get "sensor/hall/t1" watchers)
      (get "sensor/hall/t1" (check_all watchers 16).0)
      (count "sensor/hall/t1" (check_all watchers 16).1)
check_all_lem_example = check_all_lem 16 "sensor/hall/t1" watchers watchers-Distinct

run-le_example :
    let inputs = checked 16 ∷ checked 17 ∷ received update 18 ∷ checked 30 ∷ [] in
    count "sensor/hall/t1" (run bus "exp" inputs watchers).1
    ≤ credit bus (get "sensor/hall/t1" watchers) + updates bus "exp" "sensor/hall/t1" inputs
run-le_example =
    run-le bus "exp" "sensor/hall/t1"
      (checked 16 ∷ checked 17 ∷ received update 18 ∷ checked 30 ∷ []) watchers watchers-Distinct

found : get "sensor/hall/t1" watchers ≡ some watch
unfolding get
found = refl

handle_frame-refreshes_example :
    count "sensor/hall/t1" (check_all (handle_frame bus "exp" update watchers 14) 18).1 ≡ 0
unfolding strip_prefix topic_of
handle_frame-refreshes_example =
    handle_frame-refreshes bus "exp" probe update watchers watch 14 18 watchers-Distinct refl found
      refl refl refl (omega arith) (omega arith)

-- a registry that is a dictionary, and passwords that equal the secret
abbrev service : Surroundings (Dict String Otp)
service = record {
  key_set = λ k o w. (insert ⦃e = string-Eq⦄ k o w, ok tt);
  key_delete = λ k w. (remove ⦃e = string-Eq⦄ k w, ok tt);
  key_get = λ k w. get ⦃e = string-Eq⦄ k w;
  is_valid = λ secret password. ok (str_eq secret password);
}

service-Works : Works service
service-Works = record {
  get_set = λ k j o w. get-insert k j o w;
  get_delete = λ k j w. get-remove k j w;
}

abbrev fresh : System (Dict String Otp)
fresh = record { otps = []; world = []; pending = [] }

fresh-IsStored : IsStored service fresh
unfolding get
fresh-IsStored login = refl

abbrev known : State (Dict String Otp)
known = record {
  otps = ("ann", record { login = "ann"; secret = "ABC"; active = false }) ∷ [];
  world = [];
}

check-IsJustified_example :
    IsJustified service
      ("root" ∷ [])
      (record { login = "ann"; otp = some "ABC" })
      (ok "XYZ")
      known
      (check service
        ("root" ∷ [])
        (some (record { login = "ann"; otp = some "ABC" }))
        (ok "XYZ")
        known).1
check-IsJustified_example =
    check-IsJustified service ("root" ∷ []) (record { login = "ann"; otp = some "ABC" }) (ok "XYZ")
      known

abbrev ann : Otp
ann = record { login = "ann"; secret = "ABC"; active = false }

abbrev first_try : ParamsCheck
first_try = record { login = "ann"; otp = none }

abbrev second_try : ParamsCheck
second_try = record { login = "ann"; otp = some "ABC" }

abbrev joined : System (Dict String Otp)
joined = record fresh { otps = ("ann", ann) ∷ [] }

-- a call for another login between the change of the table and the write
abbrev activated : System (Dict String Otp)
activated = record {
  otps = ("ann", record ann { active = true }) ∷ [];
  world = ("ann", record ann { active = true }) ∷ [];
  pending = [];
}

calls : Reach service [] fresh activated
unfolding check_begin destroy_begin verify create contains perform get insert remove
calls =
    step
      (step
        (step (step here (check_call fresh first_try (ok "ABC") refl))
          (check_call joined second_try (ok "XYZ") refl))
        (destroy_call _ "bob" refl))
      (writes _ "ann" (key_write (record ann { active = true })) refl)

Reach-IsStored_example : IsStored service activated
Reach-IsStored_example = Reach-IsStored service service-Works fresh-IsStored calls
