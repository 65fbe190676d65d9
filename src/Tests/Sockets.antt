-- ===== src/Tests/Sockets.antt =====
-- Examples for the binding of the socket: a stale socket in a directory that is there.
use gpu_bouncer.Base.{◌≡◌, String, Option, none, some, []}
use gpu_bouncer.Ipc.Listen.{HostCall, dial, Made, Host, umask_of, listen}
use gpu_bouncer.Ipc.Listen.Safe.{IsSafe, listen-IsSafe}

abbrev refusing : HostCall → Made → Option String
refusing (dial path) t = some "connection refused"
refusing _ t = none

abbrev crashed : Host
crashed = record { reply = refusing; dir = λ path. "/run/gpu-bouncer"; first_umask = 18 }

listen-IsSafe_example :
    IsSafe crashed (listen crashed "/run/gpu-bouncer/gpu-bouncer.sock" []).1
    × (umask_of 18 (listen crashed "/run/gpu-bouncer/gpu-bouncer.sock" []).1 ≡ umask_of 18 [])
listen-IsSafe_example = listen-IsSafe crashed "/run/gpu-bouncer/gpu-bouncer.sock" [] tt
