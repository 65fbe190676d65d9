-- ===== src/Gpu/Nvml/Processes.antt =====
-- internal/gpu/nvml_cgo.go: the processes of a device, against a direct account of them.
use gpu_bouncer.Base.{
  ℕ, ◌/◌, ◌<◌, ◌≤◌, ◌≡◌, ◌⊎◌, refl, ap, subst, ◌∙◌, false, Option, none, some, List, [], ◌∷◌, ◌++◌,
  arith, inl, inr, ltb, eqb, if◌then◌else◌, Bool-cases, Option-cases, done, All, Pairwise,
  Pairwise-imp, Permᴰ,
}
use gpu_bouncer.Base.Sort.{IsOrder, sort_stable-perm, sort_stable-IsSorted}
use gpu_bouncer.Gpu.Sysfs.Reading.{bytes_per_mib}
use gpu_bouncer.Gpu.Nvml.{
  Process, ProcessInfo, Nvml, note_process, note_processes, listed_before, processes, merged,
}

-- The figure of a process in a list, if it is there.
abbrev pub figure : ℕ → List Process → Option ℕ
figure pid [] = none
figure pid (p ∷ ps) = if eqb p.pid pid then some p.used_mib else figure pid ps

abbrev pub larger : Option ℕ → ℕ → ℕ
larger none n = n
larger (some m) n = if ltb m n then n else m

-- The largest figure that the library gives for a process.
abbrev pub largest : ℕ → List ProcessInfo → Option ℕ
largest pid [] = none
largest pid (info ∷ infos) =
    if eqb info.pid pid
    then some (larger (largest pid infos) (info.used_gpu_memory / bytes_per_mib))
    else largest pid infos

abbrev pub both : Option ℕ → Option ℕ → Option ℕ
both none o = o
both (some m) none = some m
both (some m) (some n) = some (if ltb m n then n else m)

abbrev pub DistinctPids : List Process → Type 0
DistinctPids = Pairwise (λ p q. eqb p.pid q.pid ≡ false)

listed_before-IsOrder : IsOrder listed_before
unfolding listed_before
listed_before-IsOrder = record { asym = λ a b h. ground arith; trans = λ a b c h g. ground arith }

figure-note_process :
    (pid : ℕ) (info : ProcessInfo) (seen : List Process)
    → figure pid (note_process info seen) ≡ (
        if eqb info.pid pid
        then some (larger (figure pid seen) (info.used_gpu_memory / bytes_per_mib))
        else figure pid seen)
unfolding note_process
figure-note_process pid info [] = refl
figure-note_process pid info (p ∷ ps) = ground (arith, figure-note_process pid info ps)

figure-note_processes :
    (pid : ℕ) (infos : List ProcessInfo) (seen : List Process)
    → figure pid (note_processes infos seen) ≡ both (figure pid seen) (largest pid infos)
unfolding note_processes
figure-note_processes pid [] seen = ground arith
figure-note_processes pid (info ∷ infos) seen =
    figure-note_processes pid infos (note_process info seen)
    ∙ ap (λ o. both o (largest pid infos)) (figure-note_process pid info seen)
    ∙ ground arith

All-note_process :
    (pid : ℕ) (info : ProcessInfo) (seen : List Process)
    → eqb pid info.pid ≡ false
    → All (λ q. eqb pid q.pid ≡ false) seen
    → All (λ q. eqb pid q.pid ≡ false) (note_process info seen)
unfolding note_process
All-note_process pid info [] n h = (n, tt)
All-note_process pid info (p ∷ ps) n h = elim (Bool-cases (eqb p.pid info.pid)) [
  | inl e ↦ elim (Bool-cases (ltb p.used_mib (info.used_gpu_memory / bytes_per_mib))) [
    | inl l ↦ rw (e, l) h
    | inr l ↦ rw (e, l) h
  ]
  | inr e ↦ rw e (h.0, All-note_process pid info ps n h.1)
]

note_process-DistinctPids :
    (info : ProcessInfo) (seen : List Process)
    → DistinctPids seen
    → DistinctPids (note_process info seen)
unfolding note_process
note_process-DistinctPids info [] h = (tt, tt)
note_process-DistinctPids info (p ∷ ps) h = elim (Bool-cases (eqb p.pid info.pid)) [
  | inl e ↦ elim (Bool-cases (ltb p.used_mib (info.used_gpu_memory / bytes_per_mib))) [
    | inl l ↦ rw (e, l) h
    | inr l ↦ rw (e, l) h
  ]
  | inr e ↦ rw e (All-note_process p.pid info ps e h.0, note_process-DistinctPids info ps h.1)
]

note_processes-DistinctPids :
    (infos : List ProcessInfo) (seen : List Process)
    → DistinctPids seen
    → DistinctPids (note_processes infos seen)
unfolding note_processes
note_processes-DistinctPids [] seen h = h
note_processes-DistinctPids (info ∷ infos) seen h =
    note_processes-DistinctPids infos (note_process info seen)
      (note_process-DistinctPids info seen h)

-- The larger figure goes first, and the smaller PID among equal figures.
abbrev pub GoesFirst : Process → Process → Type 0
GoesFirst p q = (q.used_mib < p.used_mib) ⊎ ((p.used_mib ≡ q.used_mib) × (p.pid ≤ q.pid))

listed_before-GoesFirst : (p q : Process) → listed_before q p ≡ false → GoesFirst p q
unfolding listed_before
listed_before-GoesFirst p q h = elim (Bool-cases (ltb q.used_mib p.used_mib)) [
  | inl l ↦ inl (ground (arith, l))
  | inr l ↦ inr (ground (arith, l, h), ground (arith, l, h))
]

-- The processes of a device are ordered by their figures, the largest first, and then by PID; each PID
-- stands there once; and its figure is the largest that either of the library's two lists gives.
pub processes-Largest :
    (nvml : Nvml) (index : ℕ) (ps : List Process) (compute graphics : List ProcessInfo)
    → processes nvml index ≡ done ps
    → nvml.compute_processes index ≡ done compute
    → nvml.graphics_processes index ≡ done graphics
    → Pairwise GoesFirst ps
      × (seen : List Process) × Permᴰ ps seen
      × DistinctPids seen
      × ((pid : ℕ) → figure pid seen ≡ largest pid (compute ++ graphics))
unfolding processes
processes-Largest nvml index ps compute graphics h c g = elim (Option-cases (nvml.handle index)) [
  | inr (e, q) ↦ cc (rw (q, processes) at h)
  | inl q ↦
      let same : merged compute graphics ≡ ps = cc (rw (q, processes, c, g) at h) in
      let seen = note_processes (compute ++ graphics) [] in
      subst
        (λ l.
          Pairwise GoesFirst l
          × (seen : List Process) × Permᴰ l seen
          × DistinctPids seen
          × ((pid : ℕ) → figure pid seen ≡ largest pid (compute ++ graphics)))
        same
        (
          Pairwise-imp (λ p q. listed_before q p ≡ false) GoesFirst _ listed_before-GoesFirst
              (sort_stable-IsSorted listed_before listed_before-IsOrder seen),
          seen,
          sort_stable-perm listed_before seen,
          note_processes-DistinctPids (compute ++ graphics) [] tt,
          λ pid. figure-note_processes pid (compute ++ graphics) [],
        )
]
