-- ===== src/Seq/Ran.antt =====
-- eva/src/seq.rs: what it takes for the entries of a sequence to succeed, told without the code of
-- `launch_action_sequence`.
use eva.Base.{
  ℕ, ◌≤◌, Option, some, true, false, ◌≡◌, refl, ap, subst, arith, EResult, ok, err, List, [], ◌∷◌,
  Bool-cases, inl, inr, ltb,
}
use eva.Base.Lists.{In, here, there, In-cons_inv}
use eva.Seq.{
  ActionLaunchResult, entry_result, SequenceEntry, Runtime, launch_entry, within, if_enough,
  launch_batch, max_wait, launch_action_entry, launch_action_sequence_batch, launch_action_sequence,
  and_then, state, delay, actions, single, multi,
}
use eva.Seq.Order.{batch_result_iff}

module _ {World Op A : Type 0} (rt : Runtime World Op A) where
  -- No action of the batch is expected to take longer than this one.
  abbrev pub IsLongest : A → List A → Type 0
  IsLongest a batch = In a batch × ((b : A) → In b batch → rt.wait_of b ≤ rt.wait_of a)

  -- The entry succeeded: there was time for it, and each of its launches reported success. The
  -- second world is the one it left.
  abbrev pub EntryRan : Op → World → SequenceEntry A → World → Type 0
  EntryRan op w (delay d) v = (rt.enough op w d ≡ ok tt) × (v ≡ rt.sleep w d)
  EntryRan op w (actions (single a)) v =
      (rt.enough op w (rt.wait_of a) ≡ ok tt) × (rt.launch w a ≡ (v, ok (state true)))
  EntryRan op w (actions (multi [])) v = v ≡ w
  EntryRan op w (actions (multi (a ∷ more))) v =
      (longest : A) × IsLongest longest (a ∷ more)
      × (rt.enough op w (rt.wait_of longest) ≡ ok tt)
      × (rs : List (EResult (EResult ActionLaunchResult))) × (rt.launch_all w (a ∷ more) ≡ (v, rs))
      × ((r : EResult (EResult ActionLaunchResult)) → In r rs → r ≡ ok (ok (state true)))

  -- The entries succeeded one after another, each in the world that the one before it left.
  abbrev pub Ran : Op → World → List (SequenceEntry A) → World → Type 0
  Ran op w [] w' = w' ≡ w
  Ran op w (entry ∷ rest) w' = (v : World) × EntryRan op w entry v × Ran op v rest w'

  module _ (op : Op) where
    within_ok :
        (w : World) (d : ℕ) (next : World → World × EResult (Unit {0})) (v : World)
        → within rt op w d next ≡ (v, ok tt)
        → (rt.enough op w d ≡ ok tt) × (next w ≡ (v, ok tt))
    within_ok w d next v h = split (rt.enough op w d) refl h
      where
        split :
            (r : EResult (Unit {0}))
            → rt.enough op w d ≡ r
            → if_enough rt r w next ≡ (v, ok tt)
            → (rt.enough op w d ≡ ok tt) × (next w ≡ (v, ok tt))
        split (ok _) e k = (e, k)
        split (err x) e k = cc

    entry_result_ok :
        (r : EResult ActionLaunchResult) → entry_result r ≡ ok tt → r ≡ ok (state true)
    unfolding entry_result
    entry_result_ok (err e) h = cc
    entry_result_ok (ok (state true)) h = refl
    entry_result_ok (ok (state false)) h = cc
    entry_result_ok (ok ActionLaunchResult.local_result) h = cc
    entry_result_ok (ok ActionLaunchResult.remote_result) h = cc

    launch_action_entry_ok :
        (w : World) (a : A) (v : World)
        → launch_action_entry rt w a ≡ (v, ok tt)
        → rt.launch w a ≡ (v, ok (state true))
    unfolding launch_action_entry
    launch_action_entry_ok w a v h = go (rt.launch w a) h
      where
        go :
            (r : World × EResult ActionLaunchResult)
            → ◌≡◌ {A = World × EResult (Unit {0})} (r.0, entry_result r.1) (v, ok tt)
            → r ≡ (v, ok (state true))
        go (u, r) k = let e = entry_result_ok r (ap (λ x. x.1) k) in cc

    launch_action_sequence_batch_ok :
        (w : World) (batch : List A) (v : World)
        → launch_action_sequence_batch rt w batch ≡ (v, ok tt)
        → (rs : List (EResult (EResult ActionLaunchResult))) × (rt.launch_all w batch ≡ (v, rs))
          × ((r : EResult (EResult ActionLaunchResult)) → In r rs → r ≡ ok (ok (state true)))
    unfolding launch_action_sequence_batch
    launch_action_sequence_batch_ok w batch v h =
        ((rt.launch_all w batch).1, cc, (batch_result_iff _).0 (ap (λ x. x.1) h))

    max_wait-IsLongest :
        (a : A) (more : List A)
        → (longest : A) × IsLongest longest (a ∷ more)
          × (max_wait rt (a ∷ more) ≡ some (rt.wait_of longest))
    max_wait-IsLongest a [] = (
      a,
      (here refl, λ b i. elim (In-cons_inv i) [ inl e ↦ ground (arith, e) | inr k ↦ elim k [ ] ]),
      refl,
    )
    max_wait-IsLongest a (b ∷ more) = go (max_wait-IsLongest b more)
      where
        go :
            (longest : A) × IsLongest longest (b ∷ more)
              × (max_wait rt (b ∷ more) ≡ some (rt.wait_of longest))
            → (longest : A) × IsLongest longest (a ∷ b ∷ more)
              × (max_wait rt (a ∷ b ∷ more) ≡ some (rt.wait_of longest))
        go (l, (i, most), e) = elim (Bool-cases (ltb (rt.wait_of a) (rt.wait_of l))) [
          | inl y ↦ (
            l,
            (
              there i,
              λ x j. elim (In-cons_inv j) [ inl q ↦ ground (arith, q, y) | inr k ↦ most x k ],
            ),
            rw (e, y) refl,
          )
          | inr n ↦ (
            a,
            (
              here refl,
              λ x j. elim (In-cons_inv j) [
                | inl q ↦ ground (arith, q)
                | inr k ↦ ground (arith, most x k, n)
              ],
            ),
            rw (e, n) refl,
          )
        ]

    launch_entry-EntryRan :
        (w : World) (entry : SequenceEntry A) (v : World)
        → launch_entry rt op w entry ≡ (v, ok tt)
        → EntryRan op w entry v
    unfolding launch_entry
    launch_entry-EntryRan w (delay d) v h =
        let (e, k) = within_ok w d (λ u. (rt.sleep u d, ok tt)) v h in (e, cc)
    launch_entry-EntryRan w (actions (single a)) v h =
        let (e, k) = within_ok w (rt.wait_of a) (λ u. launch_action_entry rt u a) v h in
        (e, launch_action_entry_ok w a v k)
    launch_entry-EntryRan w (actions (multi [])) v h = cc
    launch_entry-EntryRan w (actions (multi (a ∷ more))) v h =
        let (l, most, e) = max_wait-IsLongest a more in
        let (t, k) =
          within_ok w (rt.wait_of l) (λ u. launch_action_sequence_batch rt u (a ∷ more)) v
            (subst (λ (o : Option ℕ). launch_batch rt op w (a ∷ more) o ≡ (v, ok tt)) e h) in
        let (rs, q, all) = launch_action_sequence_batch_ok w (a ∷ more) v k in
        (l, most, t, rs, q, all)

    pub launch_action_sequence-Ran :
        (w : World) (entries : List (SequenceEntry A))
        → (launch_action_sequence rt op w entries).1 ≡ ok tt
        → Ran op w entries (launch_action_sequence rt op w entries).0
    unfolding launch_action_sequence
    launch_action_sequence-Ran w [] h = refl
    launch_action_sequence-Ran w (entry ∷ rest) h =
        go (launch_entry rt op w entry) refl (λ v. launch_action_sequence-Ran v rest) h
      where
        go :
            (r : World × EResult (Unit {0}))
            → launch_entry rt op w entry ≡ r
            → ((v : World)
                → (launch_action_sequence rt op v rest).1 ≡ ok tt
                → Ran op v rest (launch_action_sequence rt op v rest).0)
            → (and_then rt r (λ v. launch_action_sequence rt op v rest)).1 ≡ ok tt
            → Ran op w (entry ∷ rest) (and_then rt r (λ v. launch_action_sequence rt op v rest)).0
        go (v, err e) q tail k = cc
        go (v, ok _) q tail k = (v, launch_entry-EntryRan w entry v q, tail v k)
