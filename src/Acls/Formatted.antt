-- ===== src/Acls/Formatted.antt =====
-- svc/aaa-acl/src/main.rs: when `acl.format` answers, and with what.
use eva.Base.{
  String, Option, none, some, Bool, true, false, not, ◌||◌, ◌&&◌, if◌then◌else◌, ◌≡◌, ◌≢◌, ◌⊎◌,
  refl, sym, ◌∙◌, List, [], ◌∷◌, arith, ok, err, access, Bool-cases, inl, inr,
}
use eva.Base.Eq.{Eq, ◌==◌, string-Eq}
use eva.Base.Dict.{Dict, get, insert}
use eva.Acls.{Acl, AclData, contains, from_acls, from_acl, default_data}
use eva.Acls.Service.{
  Surroundings, Config, State, IdOrList, single, multiple, find_acls, form_data, or_none, with_key,
  or_empty, format,
}
use eva.Acls.Combine.{grants, holds, listed-insert, listed-nil}
use eva.Acls.Fields.{Field, field, data_field, from_acls-grants, grants-default}
use eva.Acls.Found.{
  ids_in, look, all_known, some_known, StoredMaps, any-look, some_known-none, some_known-some,
  look-AllMaps, field-from_acl, rest-from_acl, sources-from_acls,
}

module _ {Value W : Type 0} ⦃v : Eq Value⦄ (env : Surroundings Value W) (config : Config) where
  find_acls-look :
      (acls : Dict String (Acl Value)) (ids : List String)
      → find_acls env config acls ids ≡ (
          if config.strict_acl_formatting && not (all_known acls ids)
          then err access
          else ok (look acls ids))
  unfolding find_acls
  find_acls-look acls [] = ground arith
  find_acls-look acls (i ∷ rest) = ground (arith, find_acls-look acls rest)

  -- what the answer grants in a field, as far as the key id has no part in it
  abbrev pub expected :
      Option String → Dict String (Acl Value) → List String → Field → String → Value → Bool
  expected none acls ids f k x = some_known (λ a. grants (field f a) k x) acls ids
  expected (some key_id) acls ids Field.meta k x =
      if ◌==◌ ⦃e = string-Eq⦄ "api_key_id" k
      then x == env.of_string key_id
      else some_known (λ a. grants a.meta k x) acls ids
  expected (some key_id) acls ids f k x = some_known (λ a. grants (field f a) k x) acls ids

  -- the ids are refused: one is not known, or none is, and the configuration forbids it
  abbrev pub refused : Dict String (Acl Value) → List String → Bool
  refused acls ids =
      (config.strict_acl_formatting && not (all_known acls ids))
      || (config.forbid_empty_acls && not (some_known (λ _. true) acls ids))

  -- the operations and the administrator's right
  abbrev pub GrantsRest : Dict String (Acl Value) → List String → AclData Value → Type 0
  GrantsRest acls ids d =
      ((x : String)
        → holds ⦃e = string-Eq⦄ x d.ops ≡ some_known (λ a. holds ⦃e = string-Eq⦄ x a.ops) acls ids)
      × (d.admin ≡ some_known (λ a. a.admin) acls ids)

  IsAnswer : Dict String (Acl Value) → List String → AclData Value → Type 0
  IsAnswer acls ids d =
      ((f : Field) (k : String) (x : Value)
        → grants (data_field f d) k x ≡ some_known (λ a. grants (field f a) k x) acls ids)
      × GrantsRest acls ids d
      × (some_known (λ _. true) acls ids ≡ false → d.sources ≡ [])
      × (some_known (λ _. true) acls ids ≡ true → d.sources ≢ [])

  form_data-IsAnswer :
      (acls : Dict String (Acl Value)) (i : IdOrList)
      → StoredMaps acls
      → (config.strict_acl_formatting && not (all_known acls (ids_in i))) ≡ false
      → (d : AclData Value) × (form_data env config acls i ≡ ok d) × IsAnswer acls (ids_in i) d
  unfolding form_data IsAnswer from_acl
  form_data-IsAnswer acls (single i) m h = go (get ⦃e = string-Eq⦄ i acls) refl
    where
      go :
          (o : Option (Acl Value))
          → get ⦃e = string-Eq⦄ i acls ≡ o
          → (d : AclData Value) × (form_data env config acls (single i) ≡ ok d)
            × IsAnswer acls (i ∷ []) d
      go (some a) e = (
        from_acl a,
        rw (e, form_data) refl,
        (
          λ f k x.
              field-from_acl f k x a (m i a e f)
              ∙ sym (some_known-some (λ b. grants (field f b) k x) acls i e),
          (
            λ x.
                rest-from_acl x a
                ∙ sym (some_known-some (λ b. holds ⦃e = string-Eq⦄ x b.ops) acls i e),
            sym (some_known-some (λ b. b.admin) acls i e),
          ),
          λ n. cc (some_known-some (λ _. true) acls i e),
          λ _ h. cc,
        ),
      )
      go none e = (
        default_data,
        ground (arith, e, h),
        (
          λ f k x.
              grants-default f k x ∙ sym (some_known-none (λ b. grants (field f b) k x) acls i e),
          (
            λ x. sym (some_known-none (λ b. holds ⦃e = string-Eq⦄ x b.ops) acls i e),
            sym (some_known-none (λ b. b.admin) acls i e),
          ),
          λ h. refl,
          λ y. cc (some_known-none (λ _. true) acls i e),
        ),
      )
  form_data-IsAnswer acls (multiple ids) m h = (
    from_acls (look acls ids),
    rw (find_acls-look acls ids, h) refl,
    (
      λ f k x.
          (from_acls-grants (look acls ids) (look-AllMaps acls ids m)).0 f k x
          ∙ any-look (λ a. grants (field f a) k x) acls ids,
      (
        λ x.
            (from_acls-grants (look acls ids) (look-AllMaps acls ids m)).2 x
            ∙ any-look (λ a. holds ⦃e = string-Eq⦄ x a.ops) acls ids,
        (from_acls-grants (look acls ids) (look-AllMaps acls ids m)).4
            ∙ any-look (λ a. a.admin) acls ids,
      ),
      λ n.
          (sources-from_acls (look acls ids) (look-AllMaps acls ids m)).0
            (any-look (λ _. true) acls ids ∙ n),
      λ y.
          (sources-from_acls (look acls ids) (look-AllMaps acls ids m)).1
            (any-look (λ _. true) acls ids ∙ y),
    ),
  )

  form_data-err :
      (acls : Dict String (Acl Value)) (i : IdOrList)
      → (config.strict_acl_formatting && not (all_known acls (ids_in i))) ≡ true
      → form_data env config acls i ≡ err access
  unfolding form_data
  form_data-err acls (single i) h = ground (arith, h)
  form_data-err acls (multiple ids) h = rw (find_acls-look acls ids, h) refl

  or_none-empty :
      (d : AclData Value)
      → d.sources ≡ []
      → or_none env config d
        ≡ (if config.forbid_empty_acls then err access else ok (record d { id = "none" }))
  or_none-empty d h = ground (arith, h)

  or_none-found : (d : AclData Value) → d.sources ≢ [] → or_none env config d ≡ ok d
  or_none-found d h = go d.sources refl
    where
      go : (xs : List String) → d.sources ≡ xs → or_none env config d ≡ ok d
      go [] e = absurd (h e)
      go (x ∷ xs) e = ground (arith, e)

  grants-key :
      (k j : String) (y x : Value) (m : Option (Dict String (List Value)))
      → grants (some (insert ⦃e = string-Eq⦄ j (y ∷ []) (or_empty env config m))) k x
        ≡ (if ◌==◌ ⦃e = string-Eq⦄ j k then x == y else grants m k x)
  unfolding grants contains get
  grants-key k j y x none = listed-insert j k x (y ∷ []) [] ∙ ground (arith, listed-nil k x)
  grants-key k j y x (some f) = listed-insert j k x (y ∷ []) f ∙ ground arith

  data_field-named :
      (f : Field) (d : AclData Value) (n : String)
      → data_field f (record d { id = n }) ≡ data_field f d
  data_field-named Field.read d n = refl
  data_field-named Field.write d n = refl
  data_field-named Field.deny_read d n = refl
  data_field-named Field.deny_write d n = refl
  data_field-named Field.meta d n = refl

  with_key-expected :
      (key_id : Option String) (acls : Dict String (Acl Value)) (ids : List String)
      (d : AclData Value)
      → ((f : Field) (k : String) (x : Value)
          → grants (data_field f d) k x ≡ some_known (λ a. grants (field f a) k x) acls ids)
      → (f : Field) (k : String) (x : Value)
      → grants (data_field f (with_key env config key_id d)) k x ≡ expected key_id acls ids f k x
  unfolding with_key
  with_key-expected none acls ids d h f k x = h f k x
  with_key-expected (some key_id) acls ids d h Field.read k x = h Field.read k x
  with_key-expected (some key_id) acls ids d h Field.write k x = h Field.write k x
  with_key-expected (some key_id) acls ids d h Field.deny_read k x = h Field.deny_read k x
  with_key-expected (some key_id) acls ids d h Field.deny_write k x = h Field.deny_write k x
  with_key-expected (some key_id) acls ids d h Field.meta k x =
      grants-key k "api_key_id" (env.of_string key_id) x d.meta ∙ rw (h Field.meta k x) refl

  with_key-GrantsRest :
      (key_id : Option String) (acls : Dict String (Acl Value)) (ids : List String)
      (d : AclData Value)
      → GrantsRest acls ids d
      → GrantsRest acls ids (with_key env config key_id d)
  unfolding with_key
  with_key-GrantsRest none acls ids d h = h
  with_key-GrantsRest (some key_id) acls ids d h = h

  -- Where the fields of the stored lists are maps, acl.format refuses exactly if a list is missing
  -- and the configuration is strict, or none is found and it forbids that; else the answer grants,
  -- in each field, just what one of the lists found grants, but for the key id, which is all that
  -- stands under api_key_id in the metadata where one is given; so too the operations and the
  -- right of an administrator.
  pub format_lem :
      (i : IdOrList) (key_id : Option String) (s : State Value)
      → StoredMaps s.acls
      → ((format env config (some (i, key_id)) s ≡ err access) × (refused s.acls (ids_in i) ≡ true))
        ⊎ ((d : AclData Value) × (format env config (some (i, key_id)) s ≡ ok d)
            × (refused s.acls (ids_in i) ≡ false)
            × ((f : Field) (k : String) (x : Value)
                → grants (data_field f d) k x ≡ expected key_id s.acls (ids_in i) f k x)
            × GrantsRest s.acls (ids_in i) d)
  unfolding format IsAnswer
  format_lem i key_id s m =
      elim (Bool-cases (config.strict_acl_formatting && not (all_known s.acls (ids_in i)))) [
        | inl t ↦ inl (rw (form_data-err s.acls i t) refl, ground (arith, t))
        | inr n ↦
            let (d, e, (g, rest, empty, found)) = form_data-IsAnswer s.acls i m n in
            elim (Bool-cases (some_known (λ _. true) s.acls (ids_in i))) [
              | inl y ↦ inr (
                with_key env config key_id d,
                rw (e, or_none-found d (found y)) refl,
                ground (arith, n, y),
                with_key-expected key_id s.acls (ids_in i) d g,
                with_key-GrantsRest key_id s.acls (ids_in i) d rest,
              )
              | inr z ↦ elim (Bool-cases config.forbid_empty_acls) [
                | inl b ↦ inl (rw (e, or_none-empty d (empty z), b) refl, ground (arith, z, b))
                | inr b ↦ inr (
                  with_key env config key_id (record d { id = "none" }),
                  rw (e, or_none-empty d (empty z), b) refl,
                  ground (arith, n, b),
                  with_key-expected key_id s.acls (ids_in i) (record d { id = "none" })
                      (λ f k x. rw (data_field-named f d "none") (g f k x)),
                  with_key-GrantsRest key_id s.acls (ids_in i) (record d { id = "none" }) rest,
                )
              ]
            ]
      ]
