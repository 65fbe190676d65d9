-- ===== src/Ipc/Listen/Safe.antt =====
-- internal/ipc/ipc.go: what Listen never does to another daemon, to the socket's mode and to the umask.
use gpu_bouncer.Base.{
  ℕ, ◌≡◌, refl, ◌∙◌, String, ◌==◌, not, ◌&&◌, Option, none, some, [], ◌∷◌, done, ltb, Bool-cases,
  inl, inr,
}
use Prim.Native.String.{len}
use gpu_bouncer.Ipc.Listen.{
  mkdir_all, stat, dial, remove, bind, set_umask, chmod, Made, Host, all_modes, socket_mode,
  and_not, umask_of, Listening, max_socket_path, moded, bound, bind_socket, removed, dialled,
  stated, claim_path, made_dir, in_dir, listen,
}

module _ (host : Host) where
  -- The last call dialled this path, and nothing answered.
  abbrev pub Unanswered : String → Made → Type 0
  Unanswered path (dial p ∷ t) = (p ≡ path) × ((e : String) × (host.reply (dial p) t ≡ some e))
  Unanswered path _ = ⊥

  -- A path is only removed when nothing answers there, and a socket is only bound under a umask that
  -- leaves it the mode 0660 from its first moment.
  abbrev pub IsSafe : Made → Type 0
  IsSafe [] = Unit
  IsSafe (remove path ∷ t) = Unanswered path t × IsSafe t
  IsSafe (bind path ∷ t) =
      (and_not 9 all_modes (umask_of host.first_umask t) ≡ socket_mode) × IsSafe t
  IsSafe (c ∷ t) = IsSafe t

  -- The calls behind a result are safe, and leave the umask as it was.
  abbrev pub Leaves : ℕ → Listening → Type 0
  Leaves mask (r, t) = IsSafe t × (umask_of host.first_umask t ≡ mask)

  moded-Leaves :
      (mask : ℕ) (path : String) (t : Made) (r : Option String)
      → Leaves mask (done path, t)
      → Leaves mask (moded host path t r)
  unfolding umask_of
  moded-Leaves mask path t none h = h
  moded-Leaves mask path t (some e) h = h

  bound-Leaves :
      (mask : ℕ) (path : String) (t : Made) (r : Option String)
      → Leaves mask (done path, t)
      → Leaves mask (bound host path t r)
  unfolding umask_of
  bound-Leaves mask path t (some e) h = h
  bound-Leaves mask path t none h =
      moded-Leaves mask path (chmod path socket_mode ∷ t) (host.reply (chmod path socket_mode) t) h

  bind_socket-Leaves :
      (path : String) (t : Made)
      → IsSafe t
      → Leaves (umask_of host.first_umask t) (bind_socket host path t)
  unfolding bind_socket umask_of and_not
  bind_socket-Leaves path t h =
      let old = umask_of host.first_umask t in
      let masked = set_umask (and_not 9 all_modes socket_mode) ∷ t in
      bound-Leaves old path (set_umask old ∷ bind path ∷ masked) (host.reply (bind path) masked)
        ((refl, h), refl)

  removed-Leaves :
      (mask : ℕ) (path : String) (t : Made) (r : Option String)
      → Leaves mask (done path, t)
      → Leaves mask (removed host path t r)
  removed-Leaves mask path t (some e) h = h
  removed-Leaves mask path t none (h, m) = let (s, k) = bind_socket-Leaves path t h in (s, k ∙ m)

  dialled-Leaves :
      (mask : ℕ) (path : String) (t : Made) (r : Option String)
      → host.reply (dial path) t ≡ r
      → Leaves mask (done path, t)
      → Leaves mask (dialled host path (dial path ∷ t) r)
  unfolding umask_of
  dialled-Leaves mask path t none q h = h
  dialled-Leaves mask path t (some e) q (h, m) =
      let called = dial path ∷ t in
      removed-Leaves mask path (remove path ∷ called) (host.reply (remove path) called)
        (((refl, (e, q)), h), m)

  stated-Leaves :
      (mask : ℕ) (path : String) (t : Made) (r : Option String)
      → Leaves mask (done path, t)
      → Leaves mask (stated host path t r)
  stated-Leaves mask path t (some e) h = removed-Leaves mask path t none h
  stated-Leaves mask path t none h = dialled-Leaves mask path t (host.reply (dial path) t) refl h

  claim_path-Leaves :
      (mask : ℕ) (path : String) (t : Made)
      → Leaves mask (done path, t)
      → Leaves mask (claim_path host path t)
  unfolding claim_path umask_of
  claim_path-Leaves mask path t h =
      stated-Leaves mask path (stat path ∷ t) (host.reply (stat path) t) h

  made_dir-Leaves :
      (mask : ℕ) (path dir : String) (t : Made) (r : Option String)
      → Leaves mask (done path, t)
      → Leaves mask (made_dir host path dir t r)
  made_dir-Leaves mask path dir t (some e) h = h
  made_dir-Leaves mask path dir t none h = claim_path-Leaves mask path t h

  in_dir-Leaves :
      (mask : ℕ) (path dir : String) (t : Made)
      → Leaves mask (done path, t)
      → Leaves mask (in_dir host path dir t)
  unfolding umask_of
  in_dir-Leaves mask path dir t h = elim (Bool-cases (not (dir == "") && not (dir == "."))) [
    | inl e ↦
        rw e (made_dir-Leaves mask path dir (mkdir_all dir ∷ t) (host.reply (mkdir_all dir) t) h)
    | inr e ↦ rw e (claim_path-Leaves mask path t h)
  ]

  -- Whatever the operating system answers, and whether Listen succeeds or not: it removes a path only
  -- when it has just dialled it and nothing answered, it binds a socket only under a umask that leaves
  -- the socket the mode 0660, and the umask behind it is the umask before.
  pub listen-IsSafe :
      (path : String) (t : Made)
      → IsSafe t
      → IsSafe (listen host path t).1
        × (umask_of host.first_umask (listen host path t).1 ≡ umask_of host.first_umask t)
  unfolding listen
  listen-IsSafe path t h = elim (Bool-cases (ltb max_socket_path (len path))) [
    | inl e ↦ rw e (h, refl)
    | inr e ↦ rw e (in_dir-Leaves (umask_of host.first_umask t) path (host.dir path) t (h, refl))
  ]
