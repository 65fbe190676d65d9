-- ===== src/Ipc/Client/First.antt =====
-- internal/ipc/ipc.go: which daemon answers, and when none is said to be there.
use gpu_bouncer.Base.{◌≡◌, String, List, [], ◌∷◌, ◌++◌, Result, done, failed, All}
use gpu_bouncer.Ipc.{Request, Response}
use gpu_bouncer.Ipc.Client.{
  Sockets, Exchanged, answered, unconnected, broken, ExchangeFault, no_daemon, daemon_failed,
  Dialled, do_at, search_paths,
}

module _ (net : Sockets) (req : Request) where
  -- No connection was made at this path.
  abbrev pub Refuses : String → Type 0
  Refuses path = (e : String) × (do_at net req path ≡ unconnected e)

  -- The first path that did not refuse came out so, and nothing behind it was dialled.
  abbrev pub First : Exchanged → Dialled → Type 0
  First outcome dialled =
      (before : List String) × (path : String) × (after : List String) × (search_paths net
        ≡ before ++ path ∷ after)
      × All Refuses before
      × (do_at net req path ≡ outcome)
      × (dialled ≡ before ++ path ∷ [])

  -- How a result came about.
  abbrev pub Decided : Result ExchangeFault Response × Dialled → Type 0
  Decided (done resp, dialled) = First (answered resp) dialled
  Decided (failed (daemon_failed e), dialled) = First (broken e) dialled
  Decided (failed (no_daemon tried last), dialled) =
      (tried ≡ search_paths net) × (dialled ≡ search_paths net) × All Refuses (search_paths net)
