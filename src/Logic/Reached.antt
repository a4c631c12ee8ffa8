-- ===== src/Logic/Reached.antt =====
-- svc/controller-lm/src/main.rs: process_state, as it looks to one rule.
use eva.Base.{
  ℕ, ◌<◌, Option, none, some, Bool, true, false, if◌then◌else◌, ltb, not, ◌&&◌, ◌≡◌, ◌≢◌, refl, sym,
  ◌∙◌, subst, arith, Bool-cases, inl, inr, ap, ◌⊎◌, EResult, ok, err, List, [], ◌∷◌,
}
use eva.Base.Dict.{get}
use eva.Base.Eq.{nat-Eq}
use eva.Base.Lists.{In, here, there, In-cons_inv, not-In_nil}
use eva.Common.{Common}
use eva.Logic.{
  StateX, Chillout, Rule, Sdk, Effect, process, sort, Chillouts, put, Entry, continued,
  process_rules,
}
use eva.Logic.Ranked.{is_stop, IsRanked, HasNoTies, In-sort, In-sort_inv, sort-IsRanked}

module _ ⦃c : Common⦄ (sdk : Sdk) where
  open c use {OID}

  continued-go :
      (entry : Entry sdk) (a : EResult Bool) (chs : Chillouts sdk)
      (more : Chillouts sdk × List (Entry sdk))
      → is_stop sdk a ≡ false
      → continued sdk entry a chs more ≡ (more.0, entry ∷ more.1)
  continued-go entry (ok true) chs more h = refl
  continued-go entry (ok false) chs more h = cc
  continued-go entry (err e) chs more h = refl

  continued-stop :
      (entry : Entry sdk) (a : EResult Bool) (chs : Chillouts sdk)
      (more : Chillouts sdk × List (Entry sdk))
      → is_stop sdk a ≡ true
      → continued sdk entry a chs more ≡ (chs, entry ∷ [])
  continued-stop entry (ok true) chs more h = cc
  continued-stop entry (ok false) chs more h = refl
  continued-stop entry (err e) chs more h = cc

  put_ne : (n m : ℕ) (ch : Chillout) (chs : Chillouts sdk) → m ≢ n → put sdk n ch chs m ≡ chs m
  unfolding put
  put_ne n m ch chs h = ground (arith, h)

  put_same : (n : ℕ) (ch : Chillout) (chs : Chillouts sdk) → put sdk n ch chs n ≡ ch
  unfolding put
  put_same n ch chs = ground arith

  module _ (oid : OID) (st : StateX) (prev : Option StateX) (now : ℕ → ℕ) where
    -- what a rule does with its chill-out
    abbrev pub step : Rule → Chillout → Chillout × (List (Effect sdk) × EResult Bool)
    step r ch = process sdk r oid st prev (now r.priority) ch

    abbrev pub stops : Rule → Chillouts sdk → Bool
    stops r chs = is_stop sdk (step r (chs r.priority)).1.1

    abbrev pub run_rules : List Rule → Chillouts sdk → Chillouts sdk × List (Entry sdk)
    run_rules rs chs = process_rules sdk oid st prev now rs chs

    -- the rules after the first, where it does not stop the loop
    abbrev rest_of : Rule → List Rule → Chillouts sdk → Chillouts sdk × List (Entry sdk)
    rest_of r rs chs = run_rules rs (put sdk r.priority (step r (chs r.priority)).0 chs)

    run_rules-go :
        (r : Rule) (rs : List Rule) (chs : Chillouts sdk)
        → stops r chs ≡ false
        → run_rules (r ∷ rs) chs ≡ (
          (rest_of r rs chs).0,
          (r.priority, (step r (chs r.priority)).1.0) ∷ (rest_of r rs chs).1,
        )
    unfolding process_rules
    run_rules-go r rs chs h = continued-go _ (step r (chs r.priority)).1.1 _ (rest_of r rs chs) h

    run_rules-stop :
        (r : Rule) (rs : List Rule) (chs : Chillouts sdk)
        → stops r chs ≡ true
        → run_rules (r ∷ rs) chs ≡ (
          put sdk r.priority (step r (chs r.priority)).0 chs,
          (r.priority, (step r (chs r.priority)).1.0) ∷ [],
        )
    unfolding process_rules
    run_rules-stop r rs chs h =
        continued-stop _ (step r (chs r.priority)).1.1 _ (rest_of r rs chs) h

    -- no rule with this priority has touched its chill-out or caused an effect
    abbrev pub IsKept : ℕ → Chillouts sdk → Chillouts sdk × List (Entry sdk) → Type 0
    IsKept n chs (chs', entries) = (chs' n ≡ chs n) × (get n entries ≡ none)

    cons-IsKept :
        (x : Rule) (n : ℕ) (chs : Chillouts sdk) (more : Chillouts sdk × List (Entry sdk))
        → n ≢ x.priority
        → IsKept n (put sdk x.priority (step x (chs x.priority)).0 chs) more
        → IsKept n chs (more.0, (x.priority, (step x (chs x.priority)).1.0) ∷ more.1)
    unfolding get
    cons-IsKept x n chs more h k =
        (k.0 ∙ put_ne x.priority n (step x (chs x.priority)).0 chs h, ground (arith, k.1, h))

    -- the first rule stops the loop
    stop-IsKept :
        (x : Rule) (xs : List Rule) (n : ℕ) (chs : Chillouts sdk)
        → n ≢ x.priority
        → stops x chs ≡ true
        → IsKept n chs (run_rules (x ∷ xs) chs)
    unfolding get
    stop-IsKept x xs n chs h y =
        subst (λ (z : Chillouts sdk × List (Entry sdk)). IsKept n chs z)
          (sym (run_rules-stop x xs chs y))
          (cons-IsKept x n chs (put sdk x.priority (step x (chs x.priority)).0 chs, []) h
            (refl, refl))

    go-IsKept :
        (x : Rule) (xs : List Rule) (n : ℕ) (chs : Chillouts sdk)
        → n ≢ x.priority
        → stops x chs ≡ false
        → IsKept n (put sdk x.priority (step x (chs x.priority)).0 chs) (rest_of x xs chs)
        → IsKept n chs (run_rules (x ∷ xs) chs)
    go-IsKept x xs n chs h g k =
        subst (λ (z : Chillouts sdk × List (Entry sdk)). IsKept n chs z)
          (sym (run_rules-go x xs chs g)) (cons-IsKept x n chs (rest_of x xs chs) h k)

    -- A priority that no rule has is left alone.
    run_rules-other :
        (n : ℕ) (rs : List Rule) (chs : Chillouts sdk)
        → ((q : Rule) → In q rs → n < q.priority)
        → IsKept n chs (run_rules rs chs)
    unfolding process_rules get
    run_rules-other n [] chs h = (refl, refl)
    run_rules-other n (x ∷ xs) chs h =
        let apart : n ≢ x.priority = ground (arith, h x (here refl)) in
        elim (Bool-cases (stops x chs)) [
          | inl y ↦ stop-IsKept x xs n chs apart y
          | inr g ↦ go-IsKept x xs n chs apart g (run_rules-other n xs _ (λ q m. h q (there m)))
        ]

    -- Every rule of a lower priority has let the state through.
    abbrev pub IsReached : List Rule → Chillouts sdk → Rule → Type 0
    IsReached rs chs r = (q : Rule) → In q rs → q.priority < r.priority → stops q chs ≡ false

    -- the rule has processed the state
    abbrev pub IsProcessed : Rule → Chillouts sdk → Chillouts sdk × List (Entry sdk) → Type 0
    IsProcessed r chs (chs', entries) =
        (chs' r.priority ≡ (step r (chs r.priority)).0)
        × (get r.priority entries ≡ some (step r (chs r.priority)).1.0)

    stops-put :
        (r q : Rule) (ch : Chillout) (chs : Chillouts sdk)
        → r.priority < q.priority
        → stops q (put sdk r.priority ch chs) ≡ stops q chs
    stops-put r q ch chs h =
        ap (λ x. is_stop sdk (step q x).1.1)
          (put_ne r.priority q.priority ch chs (ground (arith, h)))

    IsProcessed-first :
        (x : Rule) (xs : List Rule) (chs : Chillouts sdk)
        → ((q : Rule) → In q xs → x.priority < q.priority)
        → IsProcessed x chs (run_rules (x ∷ xs) chs)
    unfolding get
    IsProcessed-first x xs chs above =
        let ch = (step x (chs x.priority)).0 in
        elim (Bool-cases (stops x chs)) [
          | inl y ↦
              subst (λ (z : Chillouts sdk × List (Entry sdk)). IsProcessed x chs z)
                (sym (run_rules-stop x xs chs y)) (put_same x.priority ch chs, ground arith)
          | inr g ↦
              subst (λ (z : Chillouts sdk × List (Entry sdk)). IsProcessed x chs z)
                (sym (run_rules-go x xs chs g))
                (
                  (run_rules-other x.priority xs (put sdk x.priority ch chs) above).0
                      ∙ put_same x.priority ch chs,
                  ground arith,
                )
        ]

    run_rules-IsProcessed :
        (rs : List Rule) (chs : Chillouts sdk) (r : Rule)
        → IsRanked sdk rs
        → In r rs
        → IsReached rs chs r
        → IsProcessed r chs (run_rules rs chs)
    unfolding get
    run_rules-IsProcessed [] chs r d m reached = absurd (not-In_nil m)
    run_rules-IsProcessed (x ∷ xs) chs r d m reached = elim (In-cons_inv m) [
      | inl e ↦
          subst (λ (z : Rule). IsProcessed z chs (run_rules (x ∷ xs) chs)) e
            (IsProcessed-first x xs chs d.0)
      | inr k ↦
          let ch = (step x (chs x.priority)).0 in
          let later =
            run_rules-IsProcessed xs (put sdk x.priority ch chs) r d.1 k
              (λ q mq l. stops-put x q ch chs (d.0 q mq) ∙ reached q (there mq) l) in
          let (same, entry) =
            subst
              (λ (z : Chillout).
                ((rest_of x xs chs).0 r.priority ≡ (step r z).0)
                × (get r.priority (rest_of x xs chs).1 ≡ some (step r z).1.0))
              (put_ne x.priority r.priority ch chs (ground (arith, d.0 r k))) later in
          subst (λ (z : Chillouts sdk × List (Entry sdk)). IsProcessed r chs z)
            (sym (run_rules-go x xs chs (reached x (here refl) (d.0 r k))))
            (same, ground (arith, entry, d.0 r k))
    ]

    run_rules-IsKept :
        (rs : List Rule) (chs : Chillouts sdk) (q r : Rule)
        → IsRanked sdk rs
        → In q rs
        → q.priority < r.priority
        → stops q chs ≡ true
        → IsKept r.priority chs (run_rules rs chs)
    run_rules-IsKept [] chs q r d m l y = absurd (not-In_nil m)
    run_rules-IsKept (x ∷ xs) chs q r d m l y = elim (In-cons_inv m) [
      | inl e ↦
          stop-IsKept x xs r.priority chs (below (inl e)) (ap (λ (z : Rule). stops z chs) e ∙ y)
      | inr k ↦ elim (Bool-cases (stops x chs)) [
        | inl z ↦ stop-IsKept x xs r.priority chs (below (inr k)) z
        | inr g ↦
            go-IsKept x xs r.priority chs (below (inr k)) g
              (run_rules-IsKept xs _ q r d.1 k l (stops-put x q _ chs (d.0 q k) ∙ y))
      ]
    ]
      where
        below : (x ≡ q) ⊎ In q xs → r.priority ≢ x.priority
        below (inl e) = ground (arith, ap (λ (z : Rule). z.priority) e, l)
        below (inr k) = ground (arith, d.0 q k, l)

    -- no rule of a lower priority stops the state
    unfoldable pub is_reached : Rule → List Rule → Chillouts sdk → Bool
    is_reached r [] chs = true
    is_reached r (q ∷ qs) chs =
        not (ltb q.priority r.priority && stops q chs) && is_reached r qs chs

    is_reached-IsReached :
        (r : Rule) (rs : List Rule) (chs : Chillouts sdk)
        → is_reached r rs chs ≡ true
        → IsReached rs chs r
    unfolding is_reached
    is_reached-IsReached r [] chs h q m l = absurd (not-In_nil m)
    is_reached-IsReached r (x ∷ xs) chs h q m l = elim (In-cons_inv m) [
      | inl e ↦
          subst (λ (z : Rule). z.priority < r.priority → stops z chs ≡ false) e
            (λ below. ground (arith, h, below)) l
      | inr k ↦ is_reached-IsReached r xs chs (ground (arith, h)) q k l
    ]

    is_reached-false :
        (r : Rule) (rs : List Rule) (chs : Chillouts sdk)
        → is_reached r rs chs ≡ false
        → (q : Rule) × In q rs × (q.priority < r.priority) × (stops q chs ≡ true)
    unfolding is_reached
    is_reached-false r [] chs h = cc
    is_reached-false r (x ∷ xs) chs h =
        elim (Bool-cases (ltb x.priority r.priority && stops x chs)) [
          | inl y ↦ (x, here refl, ground (arith, y), ground (arith, y))
          | inr n ↦
              let (q, m, l, y) = is_reached-false r xs chs (ground (arith, h, n)) in
              (q, there m, l, y)
        ]

    -- Where no two subscribed rules have the same priority, a subscribed rule processes a state,
    -- on its own chill-out and with its own effects, exactly if no rule of a lower priority stops
    -- the state; otherwise its chill-out stays as it was and it has no effects.
    pub process_rules_lem :
        (subscribers : List Rule) (chs : Chillouts sdk) (r : Rule)
        → HasNoTies sdk subscribers
        → In r subscribers
        → ((run_rules (sort sdk subscribers) chs).0 r.priority ≡ (
            if is_reached r subscribers chs then (step r (chs r.priority)).0 else chs r.priority))
          × (get r.priority (run_rules (sort sdk subscribers) chs).1
              ≡ (if is_reached r subscribers chs then some (step r (chs r.priority)).1.0 else none))
    process_rules_lem subscribers chs r apart m =
        let ranked = sort-IsRanked sdk subscribers apart in
        elim (Bool-cases (is_reached r subscribers chs)) [
          | inl y ↦ rw y (
              run_rules-IsProcessed (sort sdk subscribers) chs r ranked
                (In-sort sdk r subscribers m)
                λ q k. is_reached-IsReached r subscribers chs y q (In-sort_inv sdk q subscribers k))
          | inr n ↦
              let (q, k, l, y) = is_reached-false r subscribers chs n in
              rw n (
                run_rules-IsKept (sort sdk subscribers) chs q r ranked (In-sort sdk q subscribers k)
                  l y)
        ]
