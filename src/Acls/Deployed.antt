-- ===== src/Acls/Deployed.antt =====
-- svc/aaa-acl/src/main.rs: what stands in the table of lists after deployments and removals.
use eva.Base.{
  String, Option, none, some, Bool, true, false, if◌then◌else◌, ◌≡◌, refl, List, [], ◌∷◌, arith,
  EResult, ok, err, Bool-cases, inl, inr, not, not_found, invalid_data, ◌⊎◌, map,
}
use eva.Base.Eq.{Eq, ◌==◌, string-Eq, beq→≡}
use eva.Base.Dict.{Dict, get, insert, keys, remove, get-insert, get-remove}
use eva.Acls.{Acl}
use eva.Acls.Service.{
  Surroundings, State, AclOrId, valid_chars, valid_ids, insert_all, remove_all, store_all,
  delete_all, push, as_str, deploy, undeploy, destroy,
}

module _ {Value W : Type 0} ⦃v : Eq Value⦄ (env : Surroundings Value W) where
  -- each list stands under its own id, whose characters are allowed
  abbrev pub IsKeyed : Dict String (Acl Value) → Type 0
  IsKeyed acls =
      (i : String) (a : Acl Value)
      → get ⦃e = string-Eq⦄ i acls ≡ some a
      → (a.id ≡ i) × (valid_chars env i ≡ true)

  -- a call of the service, from one state of it to the next
  pub data Step : State Value → State Value → Type 0 where
    deployed :
        (acls : List (Acl Value)) (s : State Value) (w : W) → Step s (deploy env (some acls) s w).0
    undeployed :
        (ids : List (AclOrId Value)) (s : State Value) (w : W)
        → Step s (undeploy env (some ids) s w).0
    destroyed : (i : String) (s : State Value) (w : W) → Step s (destroy env (some i) s w).0

  pub data Reach : State Value → Type 0 where
    start : (loaded : Bool) → Reach (record { acls = []; loaded = loaded })
    next : {s t : State Value} → Reach s → Step s t → Reach t

  insert-IsKeyed :
      (a : Acl Value) (acls : Dict String (Acl Value))
      → valid_chars env a.id ≡ true
      → IsKeyed acls
      → IsKeyed (insert ⦃e = string-Eq⦄ a.id a acls)
  insert-IsKeyed a acls h k i b g =
      ground
        (arith, get-insert ⦃e = string-Eq⦄ a.id i a acls, beq→≡ ⦃e = string-Eq⦄ a.id i, g, h, k i b)

  remove-IsKeyed :
      (j : String) (acls : Dict String (Acl Value))
      → IsKeyed acls
      → IsKeyed (remove ⦃e = string-Eq⦄ j acls)
  remove-IsKeyed j acls k i b g = ground (arith, get-remove ⦃e = string-Eq⦄ j i acls, g, k i b)

  insert_all-IsKeyed :
      (acls : Dict String (Acl Value)) (new_acls : List (Acl Value))
      → valid_ids env new_acls ≡ true
      → IsKeyed acls
      → IsKeyed (insert_all env acls new_acls).0
  unfolding insert_all valid_ids
  insert_all-IsKeyed acls [] h k = k
  insert_all-IsKeyed acls (a ∷ rest) h k = go (env.to_value a) (
      insert_all-IsKeyed (insert ⦃e = string-Eq⦄ a.id a acls) rest (ground (arith, h))
        (insert-IsKeyed a acls (ground (arith, h)) k))
    where
      go :
          (o : EResult env.Stored)
          → IsKeyed (insert_all env (insert ⦃e = string-Eq⦄ a.id a acls) rest).0
          → IsKeyed
              (elim o as (λ _. Dict String (Acl Value) × EResult (List (String × env.Stored))) [
                | ok val ↦ (
                  (insert_all env (insert ⦃e = string-Eq⦄ a.id a acls) rest).0,
                  push env (a.id, val) (insert_all env (insert ⦃e = string-Eq⦄ a.id a acls) rest).1,
                )
                | err e ↦ (acls, err e)
              ]).0
      go (ok val) r = r
      go (err e) r = k

  remove_all-IsKeyed :
      (acls : Dict String (Acl Value)) (ids : List (AclOrId Value))
      → IsKeyed acls
      → IsKeyed (remove_all env acls ids).0
  unfolding remove_all
  remove_all-IsKeyed acls [] k = k
  remove_all-IsKeyed acls (i ∷ rest) k =
      remove_all-IsKeyed (remove ⦃e = string-Eq⦄ (as_str i) acls) rest
        (remove-IsKeyed (as_str i) acls k)

  Step-IsKeyed : {s t : State Value} → Step s t → IsKeyed s.acls → IsKeyed t.acls
  unfolding deploy undeploy destroy
  Step-IsKeyed (deployed acls s w) k = elim (Bool-cases (not s.loaded)) [
    | inl t ↦ rw t k
    | inr l ↦ rw l (elim (Bool-cases (valid_ids env acls)) [
      | inl t ↦ rw t (insert_all-IsKeyed s.acls acls t k)
      | inr f ↦ rw f k
    ])
  ]
  Step-IsKeyed (undeployed ids s w) k = elim (Bool-cases (not s.loaded)) [
    | inl t ↦ rw t k
    | inr l ↦ rw l (remove_all-IsKeyed s.acls ids k)
  ]
  Step-IsKeyed (destroyed i s w) k = elim (Bool-cases (not s.loaded)) [
    | inl t ↦ rw t k
    | inr l ↦ rw l (go (get ⦃e = string-Eq⦄ i s.acls))
  ]
    where
      go :
          (o : Option (Acl Value))
          → IsKeyed
              (elim o as (λ _. State Value × (W × EResult (Unit {0}))) [
                | none ↦ (s, (w, err not_found))
                | some _ ↦
                    (record s { acls = remove ⦃e = string-Eq⦄ i s.acls }, delete_all env (i ∷ []) w)
              ]).0.acls
      go none = k
      go (some a) = remove-IsKeyed i s.acls k

  -- In every state of the service that deployments and removals reach from an empty one, whatever
  -- the registry answers, each list stands under its own id, and the characters of the id are
  -- allowed.
  pub Reach-IsKeyed : {s : State Value} → Reach s → IsKeyed s.acls
  unfolding get
  Reach-IsKeyed (start loaded) = λ i a h. cc
  Reach-IsKeyed (next r step) = Step-IsKeyed step (Reach-IsKeyed r)

  -- the last of the lists with an id, or what stood there
  abbrev pub last_with : String → List (Acl Value) → Option (Acl Value) → Option (Acl Value)
  last_with i [] old = old
  last_with i (a ∷ rest) old =
      last_with i rest (if ◌==◌ ⦃e = string-Eq⦄ a.id i then some a else old)

  get-insert_all :
      (i : String) (acls : Dict String (Acl Value)) (new_acls : List (Acl Value))
      → ((a : Acl Value) → (x : env.Stored) × (env.to_value a ≡ ok x))
      → get ⦃e = string-Eq⦄ i (insert_all env acls new_acls).0
        ≡ last_with i new_acls (get ⦃e = string-Eq⦄ i acls)
  unfolding insert_all
  get-insert_all i acls [] h = refl
  get-insert_all i acls (a ∷ rest) h =
      let (x, e) = h a in
      rw
        (
          insert_all,
          e,
          get-insert_all i (insert ⦃e = string-Eq⦄ a.id a acls) rest h,
          get-insert ⦃e = string-Eq⦄ a.id i a acls,
        )
        refl

  keys-insert_all :
      (acls : Dict String (Acl Value)) (new_acls : List (Acl Value))
      → ((a : Acl Value) → (x : env.Stored) × (env.to_value a ≡ ok x))
      → (entries : List (String × env.Stored)) × ((insert_all env acls new_acls).1 ≡ ok entries)
        × (keys entries ≡ map (λ (a : Acl Value). a.id) new_acls)
  unfolding insert_all keys
  keys-insert_all acls [] h = ([], refl, refl)
  keys-insert_all acls (a ∷ rest) h =
      let (x, e) = h a in
      let (entries, g, l) = keys-insert_all (insert ⦃e = string-Eq⦄ a.id a acls) rest h in
      ((a.id, x) ∷ entries, rw (insert_all, e, g) refl, rw l refl)

  -- Once the registry is set and where each list can be stored as a value, a deployment with an id
  -- that is not allowed changes nothing; any other leaves, under each id, the last list given for
  -- it or what stood there, whatever the registry answers, and hands the ids to the registry in
  -- their order.
  pub deploy_lem :
      (new_acls : List (Acl Value)) (s : State Value) (w : W)
      → s.loaded ≡ true
      → ((a : Acl Value) → (x : env.Stored) × (env.to_value a ≡ ok x))
      → ((valid_ids env new_acls ≡ false)
          × (deploy env (some new_acls) s w ≡ (s, (w, err invalid_data))))
        ⊎ ((valid_ids env new_acls ≡ true)
            × ((i : String)
                → get ⦃e = string-Eq⦄ i (deploy env (some new_acls) s w).0.acls
                  ≡ last_with i new_acls (get ⦃e = string-Eq⦄ i s.acls))
            × (entries : List (String × env.Stored)) × (keys entries
                ≡ map (λ (a : Acl Value). a.id) new_acls)
            × ((deploy env (some new_acls) s w).1 ≡ store_all env entries w))
  unfolding deploy
  deploy_lem new_acls s w l h = elim (Bool-cases (valid_ids env new_acls)) [
    | inl t ↦
        let (entries, g, k) = keys-insert_all s.acls new_acls h in
        inr (t, λ i. rw (l, t) (get-insert_all i s.acls new_acls h), entries, k, rw (l, t, g) refl)
    | inr f ↦ inl (f, rw (l, f) refl)
  ]
