-- ===== src/Keys/Applying/Rollback.antt =====
-- keys-panel/store.go: what Apply leaves in the profiles file.
use tproxy_server.Base.{
  ℕ, ◌≡◌, ◌≢◌, refl, sym, ap, ◌∙◌, Bool, true, false, Option, none, some, List, [], ◌∷◌, ltb, ◌==◌,
  length, All, on_if, bytes_equal,
}
use tproxy_server.Token.{codes}
use tproxy_server.Keys.{Profile, BackendInfo, KeyError}
use tproxy_server.Keys.Secrets.{upsert_secret_args}
use tproxy_server.Keys.Applying.{
  Read, content, missing, unreadable, System, ApplyError, bad_key, not_marshalled, no_registry,
  Synced, rewritten, sync_content, sync_read, changed_too, then_sync, sync_backend_secrets, then_go,
  restart_stack, restore, rolled_back, restart_again, roll_back, restarted, synced, installed,
  checked, with_previous, with_registry, apply, joined_arguments,
}

-- A file that is written is read back, one that could not be written is as it was, and no call
-- changes another file.
pub record SystemLaws (W : Type 0) (s : System W) : Type 0 where
  pub reads_written :
      (p c : List ℕ) (w : W)
      → (s.write_file p c w).0 ≡ true
      → s.read_file p (s.write_file p c w).1 ≡ content c
  pub reads_elsewhere :
      (p q c : List ℕ) (w : W) → p ≢ q → s.read_file q (s.write_file p c w).1 ≡ s.read_file q w
  pub reads_unwritten :
      (p c : List ℕ) (w : W)
      → (s.write_file p c w).0 ≡ false
      → s.read_file p (s.write_file p c w).1 ≡ s.read_file p w
  pub reads_checked :
      (c q : List ℕ) (w : W) → s.read_file q (s.relay_accepts c w).1 ≡ s.read_file q w
  pub reads_restarted : (u q : List ℕ) (w : W) → s.read_file q (s.restart u w).1 ≡ s.read_file q w
  pub reads_ready : (q : List ℕ) (w : W) → s.read_file q (s.await_ready w).1 ≡ s.read_file q w

module _ {W : Type 0} ⦃s : System W⦄ (laws : SystemLaws W s) (path : List ℕ) where
  go-Same :
      (w : W) (r : Bool × W) (f : W → Bool × W)
      → s.read_file path r.1 ≡ s.read_file path w
      → ((v : W) → s.read_file path (f v).1 ≡ s.read_file path v)
      → s.read_file path (then_go r f).1 ≡ s.read_file path w
  go-Same w (false, v) f h k = h
  go-Same w (true, v) f h k = k v ∙ h

  restart_stack-Same :
      (units : List (List ℕ)) (w : W)
      → s.read_file path (restart_stack units w).1 ≡ s.read_file path w
  unfolding restart_stack
  restart_stack-Same [] w =
      go-Same w (s.restart (codes "tproxy-server.service") w) s.await_ready
        (laws.reads_restarted (codes "tproxy-server.service") path w) (laws.reads_ready path)
  restart_stack-Same (unit ∷ units) w =
      go-Same w (s.restart unit w) (restart_stack units) (laws.reads_restarted unit path w)
        (restart_stack-Same units)

  rewritten-state : (unit : List ℕ) (r : Bool × W) → (rewritten unit r).1 ≡ r.1
  rewritten-state unit (true, w) = refl
  rewritten-state unit (false, w) = refl

  content-Same :
      (b : BackendInfo) (ps : List Profile) (existing : List ℕ) (w : W)
      → b.env_file ≢ path
      → s.read_file path (sync_content b ps existing w).1 ≡ s.read_file path w
  content-Same b ps existing w n =
      on_if (λ (r : Synced W). s.read_file path r.1 ≡ s.read_file path w)
        (bytes_equal existing (upsert_secret_args existing (joined_arguments b.address ps))) _ _
        (λ e. refl)
        (λ e.
          ap (s.read_file path) (rewritten-state b.unit _)
          ∙ laws.reads_elsewhere b.env_file path
              (upsert_secret_args existing (joined_arguments b.address ps)) w n)

  read-Same :
      (b : BackendInfo) (ps : List Profile) (w : W) (r : Read)
      → b.env_file ≢ path
      → s.read_file path (sync_read b ps w r).1 ≡ s.read_file path w
  read-Same b ps w unreadable n = refl
  read-Same b ps w missing n = content-Same b ps [] w n
  read-Same b ps w (content existing) n = content-Same b ps existing w n

  then-Same :
      (w : W) (r : Synced W) (f : W → Synced W)
      → s.read_file path r.1 ≡ s.read_file path w
      → ((v : W) → s.read_file path (f v).1 ≡ s.read_file path v)
      → s.read_file path (then_sync r f).1 ≡ s.read_file path w
  then-Same w (none, v) f h k = h
  then-Same w (some units, v) f h k = ap (s.read_file path) (too (f v)) ∙ k v ∙ h
    where
      too : (r : Synced W) → (changed_too units r).1 ≡ r.1
      too (none, x) = refl
      too (some later, x) = refl

  sync-Same :
      (registry : List BackendInfo) (ps : List Profile) (w : W)
      → All (λ b. b.env_file ≢ path) registry
      → s.read_file path (sync_backend_secrets registry ps w).1 ≡ s.read_file path w
  unfolding sync_backend_secrets
  sync-Same [] ps w h = refl
  sync-Same (b ∷ registry) ps w h =
      then-Same w (sync_read b ps w (s.read_file b.env_file w)) (sync_backend_secrets registry ps)
        (read-Same b ps w (s.read_file b.env_file w) h.0) (λ v. sync-Same registry ps v h.1)

  -- A success leaves the candidate, an error what was there.
  abbrev pub Leaves : List Profile → W → Option ApplyError × W → Type 0
  Leaves ps w (none, w') =
      (candidate : List ℕ) × (s.marshal ps ≡ some candidate)
      × (s.read_file path w' ≡ content candidate)
  Leaves ps w (some e, w') = s.read_file path w' ≡ s.read_file path w

  module _ (writable : (c : List ℕ) (w : W) → (s.write_file path c w).0 ≡ true) where
    rolled_back-Leaves :
        (ps : List Profile) (w : W) (r : Bool × W)
        → s.read_file path r.1 ≡ s.read_file path w
        → Leaves ps w (rolled_back path r)
    rolled_back-Leaves ps w (true, v) h = h
    rolled_back-Leaves ps w (false, v) h = h

    -- What the rollback writes stays.
    roll_back-Leaves :
        (ps : List Profile) (registry : List BackendInfo) (previous : List ℕ)
        (units : List (List ℕ)) (w v : W)
        → All (λ b. b.env_file ≢ path) registry
        → s.read_file path w ≡ content previous
        → Leaves ps w (roll_back path registry previous units v)
    unfolding roll_back restore
    roll_back-Leaves ps registry previous units w v n h = go (s.unmarshal previous)
      where
        back : W
        back = restore path previous v

        back-Same : s.read_file path back ≡ s.read_file path w
        back-Same = laws.reads_written path previous v (writable previous v) ∙ sym h

        again :
            (r : Synced W)
            → s.read_file path r.1 ≡ s.read_file path w
            → Leaves ps w (restart_again path units r)
        again (none, x) e =
            rolled_back-Leaves ps w (restart_stack units x) (restart_stack-Same units x ∙ e)
        again (some later, x) e =
            rolled_back-Leaves ps w (restart_stack later x) (restart_stack-Same later x ∙ e)

        go :
            (o : Option (List Profile))
            → Leaves ps w (elim o [
              | none ↦ rolled_back path (restart_stack units back)
              | some old ↦ restart_again path units (sync_backend_secrets registry old back)
            ])
        go none =
            rolled_back-Leaves ps w (restart_stack units back)
              (restart_stack-Same units back ∙ back-Same)
        go (some old) =
            again (sync_backend_secrets registry old back)
              (sync-Same registry old back n ∙ back-Same)

    installed-Leaves :
        (ps : List Profile) (registry : List BackendInfo) (candidate previous : List ℕ) (w v : W)
        → All (λ b. b.env_file ≢ path) registry
        → s.marshal ps ≡ some candidate
        → s.read_file path w ≡ content previous
        → Leaves ps w (installed path registry ps previous (s.write_file path candidate v))
    unfolding restore
    installed-Leaves ps registry candidate previous w v n m h =
        written (s.write_file path candidate v) (writable candidate v)
          (laws.reads_written path candidate v (writable candidate v))
      where
        stack :
            (units : List (List ℕ)) (r : Bool × W)
            → s.read_file path r.1 ≡ content candidate
            → Leaves ps w (restarted path registry previous units r)
        stack units (true, x) e = (candidate, m, e)
        stack units (false, x) e = roll_back-Leaves ps registry previous units w x n h

        secrets :
            (r : Synced W)
            → s.read_file path r.1 ≡ content candidate
            → Leaves ps w (synced path registry previous r)
        secrets (none, x) e = laws.reads_written path previous x (writable previous x) ∙ sym h
        secrets (some units, x) e =
            stack units (restart_stack units x) (restart_stack-Same units x ∙ e)

        written :
            (r : Bool × W)
            → r.0 ≡ true
            → s.read_file path r.1 ≡ content candidate
            → Leaves ps w (installed path registry ps previous r)
        written (false, x) e k = cc
        written (true, x) e k =
            secrets (sync_backend_secrets registry ps x) (sync-Same registry ps x n ∙ k)

    -- Where the profiles file can be written and no backend has it for its env file, Apply
    -- without an error leaves the candidate in the profiles file, and Apply with any error
    -- leaves what was there, rollbacks included.
    pub apply-Leaves :
        (ps : List Profile) (w : W)
        → ((registry : List BackendInfo)
            → s.load_backends w ≡ some registry
            → All (λ b. b.env_file ≢ path) registry)
        → Leaves ps w (apply path ps w)
    unfolding apply
    apply-Leaves ps w n =
        on_if (Leaves ps w) (length ps == 0) _ _ (λ e. refl)
          (λ e.
            on_if (Leaves ps w) (ltb (s.max_profiles w) (length ps)) _ _ (λ f. refl)
              (λ f. found (s.load_backends w) n))
      where
        accepted :
            (registry : List BackendInfo) (candidate previous : List ℕ) (r : Bool × W)
            → All (λ b. b.env_file ≢ path) registry
            → s.marshal ps ≡ some candidate
            → s.read_file path w ≡ content previous
            → s.read_file path r.1 ≡ s.read_file path w
            → Leaves ps w (checked path registry ps candidate previous r)
        accepted registry candidate previous (false, x) k m h e = e
        accepted registry candidate previous (true, x) k m h e =
            installed-Leaves ps registry candidate previous w x k m h

        read :
            (registry : List BackendInfo) (candidate : List ℕ) (r : Read)
            → All (λ b. b.env_file ≢ path) registry
            → s.marshal ps ≡ some candidate
            → s.read_file path w ≡ r
            → Leaves ps w (with_previous path registry ps candidate w r)
        read registry candidate missing k m h = refl
        read registry candidate unreadable k m h = refl
        read registry candidate (content previous) k m h =
            accepted registry candidate previous (s.relay_accepts candidate w) k m h
              (laws.reads_checked candidate path w)

        marshalled :
            (registry : List BackendInfo) (o : Option (List ℕ)) (c : Option KeyError)
            → All (λ b. b.env_file ≢ path) registry
            → s.marshal ps ≡ o
            → Leaves ps w (elim c [
              | some e ↦ (some (bad_key e), w)
              | none ↦ elim o [
                | none ↦ (some not_marshalled, w)
                | some candidate ↦ with_previous path registry ps candidate w (s.read_file path w)
              ]
            ])
        marshalled registry o (some e) k m = refl
        marshalled registry none none k m = refl
        marshalled registry (some candidate) none k m =
            read registry candidate (s.read_file path w) k m refl

        found :
            (o : Option (List BackendInfo))
            → ((registry : List BackendInfo)
                → o ≡ some registry
                → All (λ b. b.env_file ≢ path) registry)
            → Leaves ps w (elim o [
              | none ↦ (some no_registry, w)
              | some registry ↦ with_registry path registry ps w
            ])
        found none k = refl
        found (some registry) k = marshalled registry (s.marshal ps) _ (k registry refl) refl
