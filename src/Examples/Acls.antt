-- ===== src/Examples/Acls.antt =====
-- The ACL service over values that are texts, with a registry that keeps the keys that were set.
use eva.Base.{
  String, none, some, true, false, ◌&&◌, ◌⊎◌, leb, ◌≡◌, refl, ok, err, access, invalid_data, List,
  [], ◌∷◌, arith, Bool-cases, inl, inr, subst, str_eq,
}
use eva.Base.Eq.{string-Eq}
use eva.Base.Dict.{get, insert, keys}
use eva.Acls.{Acl, AclData, from_acls}
use eva.Acls.Service.{
  Surroundings, Config, State, single, multiple, valid_ids, store_all, deploy, destroy, format,
}
use eva.Acls.Combine.{grants, IsMap}
use eva.Acls.Fields.{Field, field, data_field}
use eva.Acls.Found.{StoredMaps}
use eva.Acls.Formatted.{refused, expected, GrantsRest, format_lem}
use eva.Acls.Deployed.{
  IsKeyed, deployed, destroyed, Reach, start, next, Reach-IsKeyed, last_with, deploy_lem,
}

abbrev registry : Surroundings String (List String)
registry = record {
  Stored = Acl String;
  to_value = λ a. ok a;
  key_set = λ key val w. (key ∷ w, ok tt);
  key_delete = λ key w. (w, ok tt);
  send = λ key val w. w;
  is_alphanumeric = λ ch. leb b'a' ch && leb ch b'z';
  of_string = λ s. s;
}

abbrev config : Config
config = record { strict_acl_formatting = true; forbid_empty_acls = true }

abbrev ops : Acl String
ops = record {
  id = "ops";
  admin = false;
  read = some (("items", "sensor:hall" ∷ []) ∷ []);
  write = none;
  deny_read = none;
  deny_write = none;
  ops = some ("log" ∷ []);
  meta = none;
}

abbrev guests : Acl String
guests = record ops { id = "guests"; read = some (("items", "unit:lamp" ∷ []) ∷ []); ops = none }

abbrev stored_acls : State String
stored_acls = record { acls = ("ops", ops) ∷ ("guests", guests) ∷ []; loaded = true }

ops-IsMap : (f : Field) → IsMap (field f ops)
unfolding get
ops-IsMap Field.read = (refl, tt)
ops-IsMap Field.write = tt
ops-IsMap Field.deny_read = tt
ops-IsMap Field.deny_write = tt
ops-IsMap Field.meta = tt

guests-IsMap : (f : Field) → IsMap (field f guests)
unfolding get
guests-IsMap Field.read = (refl, tt)
guests-IsMap Field.write = tt
guests-IsMap Field.deny_read = tt
guests-IsMap Field.deny_write = tt
guests-IsMap Field.meta = tt

stored_maps : StoredMaps stored_acls.acls
unfolding get
stored_maps i a h f = elim (Bool-cases (str_eq "ops" i)) [
  | inl y ↦ subst (λ (b : Acl String). IsMap (field f b)) (ground (arith, h, y)) (ops-IsMap f)
  | inr n ↦ subst (λ (b : Acl String). IsMap (field f b)) (ground (arith, h, n)) (guests-IsMap f)
]

format_lem_example :
    ((format registry config (some (multiple ("ops" ∷ "guests" ∷ []), some "k1")) stored_acls
        ≡ err access)
      × (refused registry config stored_acls.acls ("ops" ∷ "guests" ∷ []) ≡ true))
    ⊎ ((d : AclData String) × (format registry config
            (some (multiple ("ops" ∷ "guests" ∷ []), some "k1"))
            stored_acls
          ≡ ok d)
        × (refused registry config stored_acls.acls ("ops" ∷ "guests" ∷ []) ≡ false)
        × ((f : Field) (k : String) (x : String)
            → grants (data_field f d) k x
              ≡ expected registry config (some "k1") stored_acls.acls ("ops" ∷ "guests" ∷ []) f k x)
        × GrantsRest registry config stored_acls.acls ("ops" ∷ "guests" ∷ []) d)
format_lem_example =
    format_lem registry config (multiple ("ops" ∷ "guests" ∷ [])) (some "k1") stored_acls
      stored_maps

abbrev at_first : State String
at_first = record { acls = []; loaded = true }

abbrev after_deploy : State String
unfolding deploy
after_deploy = (deploy registry (some (ops ∷ guests ∷ [])) at_first []).0

abbrev after_destroy : State String
unfolding deploy destroy
after_destroy = (destroy registry (some "ops") after_deploy []).0

reached : Reach registry after_destroy
unfolding after_destroy
reached =
    next (next (start true) (deployed (ops ∷ guests ∷ []) at_first []))
      (destroyed "ops" after_deploy [])

Reach-IsKeyed_example : IsKeyed registry after_destroy.acls
Reach-IsKeyed_example = Reach-IsKeyed registry reached

deploy_lem_example :
    ((valid_ids registry (ops ∷ []) ≡ false)
      × (deploy registry (some (ops ∷ [])) at_first [] ≡ (at_first, ([], err invalid_data))))
    ⊎ ((valid_ids registry (ops ∷ []) ≡ true)
        × ((i : String)
            → get i (deploy registry (some (ops ∷ [])) at_first []).0.acls
              ≡ last_with registry i (ops ∷ []) none)
        × (entries : List (String × Acl String)) × (keys entries ≡ "ops" ∷ [])
        × ((deploy registry (some (ops ∷ [])) at_first []).1 ≡ store_all registry entries []))
unfolding get
deploy_lem_example = deploy_lem registry (ops ∷ []) at_first [] refl (λ a. (a, refl))

guest_reads : grants (from_acls (ops ∷ guests ∷ [])).read "items" "unit:lamp" ≡ true
unfolding grants from_acls insert
guest_reads = refl

unknown_refused : format registry config (some (single "staff", none)) stored_acls ≡ err access
unfolding format get
unknown_refused = refl
