-- ===== src/Expiration/Configured.antt =====
-- svc/svc-expiration/src/main.rs: the start of the service.
use eva.Base.{ℕ, String, true, List, [], ◌∷◌, ◌≡◌, refl, ap, is_some, arith}
use eva.Base.Eq.{beq_refl, string-Eq, option-Eq}
use eva.Base.Dict.{get, get-insert, Distinct, Distinct-insert}
use eva.Base.Lists.{In, here, there}
use eva.Expiration.{Bus, Watchers, topic_of, configure}

module _ (bus : Bus) where
  open bus use {Oid, raw_state_topic, local_state_topic, as_path, kind}

  configure-keeps :
      (config : List (Oid × ℕ)) (now : ℕ) (p : String) (ws : Watchers bus)
      → is_some (get p ws) ≡ true
      → is_some (get p (configure bus config now ws).1) ≡ true
  unfolding configure
  configure-keeps [] now p ws h = h
  configure-keeps ((oid, expires) ∷ rest) now p ws h =
      configure-keeps rest now p _ (rw (get-insert (as_path oid) p _ ws) (ground (arith, h)))

  Distinct-configure :
      (config : List (Oid × ℕ)) (now : ℕ) (ws : Watchers bus)
      → Distinct ws
      → Distinct (configure bus config now ws).1
  unfolding configure
  Distinct-configure [] now ws d = d
  Distinct-configure ((oid, expires) ∷ rest) now ws d =
      Distinct-configure rest now _ (Distinct-insert (as_path oid) _ ws d)

  -- Each configured item has a subscription and a watcher.
  configure_lem :
      (config : List (Oid × ℕ)) (now : ℕ) (ws : Watchers bus) {entry : Oid × ℕ}
      → In entry config
      → In (topic_of bus entry.0) (configure bus config now ws).0
        × (is_some (get (as_path entry.0) (configure bus config now ws).1) ≡ true)
  unfolding configure
  configure_lem [] now ws h = elim h [ ]
  configure_lem ((oid, expires) ∷ rest) now ws {entry} (here e) = (
    here (ap (λ (x : Oid × ℕ). topic_of bus x.0) e),
    configure-keeps rest now (as_path entry.0) _ (
        rw
          (
            ap (λ (x : Oid × ℕ). as_path x.0) e,
            get-insert (as_path entry.0) (as_path entry.0) _ ws,
            beq_refl (as_path entry.0),
          )
          refl),
  )
  configure_lem ((oid, expires) ∷ rest) now ws (there h) =
      let (topics, watched) = configure_lem rest now _ h in (there topics, watched)
