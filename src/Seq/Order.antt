-- ===== src/Seq/Order.antt =====
-- `launch_action_sequence` of eva/src/seq.rs: entries in order, and the results of a batch.
use eva.Base.{
  true, false, ◌≡◌, ◌↔◌, refl, EResult, ok, err, List, [], ◌∷◌, ◌++◌, Bool-cases, inl, inr, sym, ap,
  ◌∙◌,
}
use eva.Base.Lists.{In, here, there, In-cons_inv}
use eva.Seq.{
  ActionLaunchResult, entry_result, succeeded, batch_result, SequenceEntry, Runtime, launch_entry,
  launch_action_sequence, and_then, state,
}

module _ {World Op A : Type 0} (rt : Runtime World Op A) where
  -- A sequence made of two parts runs the first, and the second in the world that the first
  -- leaves, unless the first has failed: then nothing of the second is launched, and its error is
  -- the answer.
  launch_action_sequence-++ :
      (op : Op) (w : World) (xs ys : List (SequenceEntry A))
      → launch_action_sequence rt op w (xs ++ ys)
        ≡ and_then rt (launch_action_sequence rt op w xs) (λ v. launch_action_sequence rt op v ys)
  unfolding launch_action_sequence
  launch_action_sequence-++ op w [] ys = refl
  launch_action_sequence-++ op w (x ∷ xs) ys =
      go (launch_entry rt op w x) (λ v. launch_action_sequence-++ op v xs ys)
    where
      go :
          (r : World × EResult (Unit {0}))
          → ((v : World)
              → launch_action_sequence rt op v (xs ++ ys)
                ≡ and_then rt
                    (launch_action_sequence rt op v xs)
                    (λ u. launch_action_sequence rt op u ys))
          → and_then rt r (λ v. launch_action_sequence rt op v (xs ++ ys))
            ≡ and_then rt
                (and_then rt r (λ v. launch_action_sequence rt op v xs))
                (λ v. launch_action_sequence rt op v ys)
      go (w', err e) tail = refl
      go (w', ok _) tail = tail w'

failed_once :
    (rs : List (EResult (EResult ActionLaunchResult)))
    → batch_result false rs ≡ ok tt
    → false ≡ true
unfolding batch_result
failed_once [] h = cc
failed_once (err e ∷ rest) h = cc
failed_once (ok r ∷ rest) h = failed_once rest h

entry_ok :
    (r : EResult ActionLaunchResult) → succeeded (entry_result r) ≡ true → r ≡ ok (state true)
unfolding entry_result
entry_ok (err e) h = cc
entry_ok (ok (state true)) h = refl
entry_ok (ok (state false)) h = cc
entry_ok (ok ActionLaunchResult.local_result) h = cc
entry_ok (ok ActionLaunchResult.remote_result) h = cc

inner_ok : (q : EResult ActionLaunchResult) → ok q ≡ ok (ok (state true)) → q ≡ ok (state true)
inner_ok q h = cc

-- A batch answers success exactly if the task of each of its actions ends and reports an action
-- that has succeeded.
pub batch_result_iff :
    (rs : List (EResult (EResult ActionLaunchResult)))
    → (batch_result true rs ≡ ok tt)
      ↔ ((r : EResult (EResult ActionLaunchResult)) → In r rs → r ≡ ok (ok (state true)))
unfolding batch_result entry_result
batch_result_iff [] = (λ h r i. elim i [ ], λ h. refl)
batch_result_iff (err e ∷ rest) = (λ h. cc, λ h. cc (h (err e) (here refl)))
batch_result_iff (ok q ∷ rest) = (
  λ h r i. elim (Bool-cases (succeeded (entry_result q))) [
    | inl y ↦ elim (In-cons_inv i) [
      | inl e ↦ sym e ∙ ap ok (entry_ok q y)
      | inr k ↦ (batch_result_iff rest).0 (rw y at h) r k
    ]
    | inr n ↦ cc (failed_once rest (rw n at h))
  ],
  λ h. rw (inner_ok q (h (ok q) (here refl))) ((batch_result_iff rest).1 (λ r k. h r (there k))),
)
