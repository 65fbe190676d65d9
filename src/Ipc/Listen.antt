-- ===== src/Ipc/Listen.antt =====
-- internal/ipc/ipc.go: the binding of the daemon's socket. The operating system answers each call as
-- any function of the calls made before; `none` is a call that succeeds.
pub mod Safe
use Prim.Native.String.{len}
use gpu_bouncer.Base.{
  ℕ, zero, suc, ◌+◌, ◌*◌, ◌/◌, ◌%◌, String, ◌==◌, Bool, not, ◌&&◌, Option, none, some, List, [],
  ◌∷◌, ltb, eqb, if◌then◌else◌, Result, done, failed,
}
use gpu_bouncer.Base.Int.{ℤ, pos, ltb_ℤ}

pub data HostCall : Type 0 where
  mkdir_all stat dial remove bind : (path : String) → HostCall
  set_umask : (mask : ℕ) → HostCall
  chmod : (path : String) (mode : ℕ) → HostCall
  close_socket : (path : String) → HostCall

-- The calls made so far, the last one first.
abbrev pub Made : Type 0
Made = List HostCall

-- The answers, `filepath.Dir`, and the umask that the process starts with.
pub record Host : Type 0 where
  pub reply : HostCall → Made → Option String
  pub dir : String → String
  pub first_umask : ℕ

pub data ListenFault : Type 0 where
  path_too_long : (bytes : ℕ) (path : String) → ListenFault
  no_directory : (dir text : String) → ListenFault
  already_listening : (path : String) → ListenFault
  stale_socket_stays : (path text : String) → ListenFault
  not_bound : (path text : String) → ListenFault
  mode_not_set : (path text : String) → ListenFault

abbrev pub max_socket_path : ℕ
max_socket_path = 107

-- 0o777 and 0o660
abbrev pub all_modes : ℕ
all_modes = 511

abbrev pub socket_mode : ℕ
socket_mode = 432

-- `a &^ b`, on the lowest bits.
unfoldable pub and_not : ℕ → ℕ → ℕ → ℕ
and_not zero a b = 0
and_not (suc bits) a b =
    (if eqb (a % 2) 1 && not (eqb (b % 2) 1) then 1 else 0) + 2 * and_not bits (a / 2) (b / 2)

-- The umask that the calls so far leave.
unfoldable pub umask_of : ℕ → Made → ℕ
umask_of first [] = first
umask_of first (set_umask mask ∷ t) = mask
umask_of first (c ∷ t) = umask_of first t

abbrev pub Listening : Type 0
Listening = Result ListenFault String × Made

-- `SetBudget`, on the budget.
unfoldable pub set_budget : ℤ → ℤ → ℤ
set_budget d budget = if ltb_ℤ (pos 0) d then d else budget

module _ (host : Host) where
  -- The result of the last call is `failed` with the text, or the next step.
  abbrev pub moded : String → Made → Option String → Listening
  moded path t none = (done path, t)
  moded path t (some e) = (failed (mode_not_set path e), close_socket path ∷ t)

  abbrev pub bound : String → Made → Option String → Listening
  bound path t (some e) = (failed (not_bound path e), t)
  bound path t none =
      moded path (chmod path socket_mode ∷ t) (host.reply (chmod path socket_mode) t)

  -- The socket is bound under a umask that leaves it its mode, and the umask is put back.
  unfoldable pub bind_socket : String → Made → Listening
  bind_socket path t =
      let old = umask_of host.first_umask t in
      let masked = set_umask (and_not 9 all_modes socket_mode) ∷ t in
      bound path (set_umask old ∷ bind path ∷ masked) (host.reply (bind path) masked)

  abbrev pub removed : String → Made → Option String → Listening
  removed path t (some e) = (failed (stale_socket_stays path e), t)
  removed path t none = bind_socket path t

  -- A socket that answers is another daemon's; one that does not is removed.
  abbrev pub dialled : String → Made → Option String → Listening
  dialled path t none = (failed (already_listening path), t)
  dialled path t (some e) = removed path (remove path ∷ t) (host.reply (remove path) t)

  abbrev pub stated : String → Made → Option String → Listening
  stated path t (some e) = bind_socket path t
  stated path t none = dialled path (dial path ∷ t) (host.reply (dial path) t)

  unfoldable pub claim_path : String → Made → Listening
  claim_path path t = stated path (stat path ∷ t) (host.reply (stat path) t)

  abbrev pub made_dir : String → String → Made → Option String → Listening
  made_dir path dir t (some e) = (failed (no_directory dir e), t)
  made_dir path dir t none = claim_path path t

  abbrev pub in_dir : String → String → Made → Listening
  in_dir path dir t =
      if not (dir == "") && not (dir == ".")
      then made_dir path dir (mkdir_all dir ∷ t) (host.reply (mkdir_all dir) t)
      else claim_path path t

  unfoldable pub listen : String → Made → Listening
  listen path t =
      if ltb max_socket_path (len path)
      then (failed (path_too_long (len path) path), t)
      else in_dir path (host.dir path) t
