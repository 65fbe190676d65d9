-- ===== src/Cli/Flags/Anywhere.antt =====
-- internal/cli/commands.go: the loop over the flag package is one pass over the arguments.
use gpu_bouncer.Base.{
  ℕ, zero, suc, ◌<◌, ◌≤◌, ◌≡◌, refl, ap, sym, ◌∙◌, String, Option, none, some, List, [], ◌∷◌, ◌++◌,
  length, arith, Result, done, failed,
}
use mathlib.Core.List.{append_assoc, append-nil}
use gpu_bouncer.Cli.Flags.{
  FlagSet, FlagFault, Step, stops, ends, fails, sets, waits, step, at_end, parse_from, parse_args,
}

abbrev pub with_positional :
    {S : Type 0} → String → Result FlagFault (S × List String) → Result FlagFault (S × List String)
with_positional p (failed e) = failed e
with_positional p (done (s, ps)) = done (s, p ∷ ps)

abbrev pub prepend :
    {S : Type 0}
    → List String
    → Result FlagFault (S × List String)
    → Result FlagFault (S × List String)
prepend ps (failed e) = failed e
prepend ps (done (s, qs)) = done (s, ps ++ qs)

-- What the next argument is for: itself or the value of a flag, or it stands behind `--`.
pub data Mode : Type 0 where
  reading : Option String → Mode
  taken_as_is : Mode

module _ {S : Type 0} (flags : FlagSet S) where
  -- One pass: a flag sets its value wherever it stands, any other argument is a positional, and so is
  -- the one behind a `--`.
  unfoldable pub scan : Mode → S → List String → Result FlagFault (S × List String)
  scan (reading waiting) s [] = at_end flags waiting s
  scan taken_as_is s [] = done (s, [])
  scan taken_as_is s (p ∷ rest) = with_positional p (scan (reading none) s rest)
  scan (reading waiting) s (a ∷ rest) = elim (step flags waiting s a) [
    | stops ↦ with_positional a (scan (reading none) s rest)
    | ends ↦ scan taken_as_is s rest
    | fails e ↦ failed e
    | sets s' ↦ scan (reading none) s' rest
    | waits name ↦ scan (reading (some name)) s rest
  ]

  abbrev resume : Result FlagFault (S × List String) → Result FlagFault (S × List String)
  resume (failed e) = failed e
  resume (done (s, [])) = done (s, [])
  resume (done (s, p ∷ rest)) = with_positional p (scan (reading none) s rest)

  scan-taken_as_is :
      (s : S) (rest : List String) → scan taken_as_is s rest ≡ resume (done (s, rest))
  unfolding scan
  scan-taken_as_is s [] = refl
  scan-taken_as_is s (p ∷ rest) = refl

  -- The pass up to the first positional is the flag package's.
  scan-parse_from :
      (w : Option String) (s : S) (args : List String)
      → scan (reading w) s args ≡ resume (parse_from flags w s args)
  unfolding scan parse_from
  scan-parse_from none s [] = refl
  scan-parse_from (some name) s [] = refl
  scan-parse_from w s (a ∷ rest) = by_step (λ v t. scan-parse_from v t rest) (step flags w s a) refl
    where
      by_step :
          ((v : Option String) (t : S)
            → scan (reading v) t rest ≡ resume (parse_from flags v t rest))
          → (c : Step S) → step flags w s a ≡ c
          → scan (reading w) s (a ∷ rest) ≡ resume (parse_from flags w s (a ∷ rest))
      by_step ih stops q = rw (q, scan, parse_from)
      by_step ih ends q = rw (q, scan, parse_from) (scan-taken_as_is s rest)
      by_step ih (fails e) q = rw (q, scan, parse_from)
      by_step ih (sets t) q = rw (q, scan, parse_from) (ih none t)
      by_step ih (waits name) q = rw (q, scan, parse_from) (ih (some name) s)

  length-parse_from :
      (w : Option String) (s s' : S) (args rest : List String)
      → parse_from flags w s args ≡ done (s', rest)
      → length rest ≤ length args
  unfolding parse_from
  length-parse_from none s s' [] rest e = ground (arith, e)
  length-parse_from (some name) s s' [] rest e = cc
  length-parse_from w s s' (a ∷ args) rest e =
      by_step (λ v t. length-parse_from v t s' args rest) (step flags w s a) refl
    where
      by_step :
          ((v : Option String) (t : S)
            → parse_from flags v t args ≡ done (s', rest)
            → length rest ≤ length args)
          → (c : Step S) → step flags w s a ≡ c
          → length rest ≤ length (a ∷ args)
      by_step ih stops q =
          let same : a ∷ args ≡ rest = cc (rw (q, parse_from) at e) in omega (arith, ap length same)
      by_step ih ends q =
          let same : args ≡ rest = cc (rw (q, parse_from) at e) in omega (arith, ap length same)
      by_step ih (fails f) q = cc (rw (q, parse_from) at e)
      by_step ih (sets t) q = omega (arith, ih none t (rw (q, parse_from) at e))
      by_step ih (waits name) q = omega (arith, ih (some name) s (rw (q, parse_from) at e))

  regrouped :
      (taken : List String) (p : String) (r : Result FlagFault (S × List String))
      → some (prepend (taken ++ p ∷ []) r) ≡ some (prepend taken (with_positional p r))
  regrouped taken p (failed e) = refl
  regrouped taken p (done (s, qs)) = ap (λ l. some (done (s, l))) (append_assoc taken (p ∷ []) qs)

  parse_args-scan_from :
      (fuel : ℕ) (s : S) (args taken : List String)
      → length args < fuel
      → parse_args flags fuel s args taken ≡ some (prepend taken (scan (reading none) s args))
  unfolding parse_args
  parse_args-scan_from zero s args taken h = absurd (omega arith)
  parse_args-scan_from (suc fuel) s args taken h =
      by_result (λ t rest more. parse_args-scan_from fuel t rest more)
        (parse_from flags none s args) refl
    where
      rescanned :
          (r : Result FlagFault (S × List String))
          → parse_from flags none s args ≡ r
          → some (prepend taken (resume r)) ≡ some (prepend taken (scan (reading none) s args))
      rescanned r q =
          ap (λ x. some (prepend taken x)) (sym (scan-parse_from none s args ∙ ap resume q))

      by_result :
          ((t : S) (rest more : List String)
            → length rest < fuel
            → parse_args flags fuel t rest more ≡ some (prepend more (scan (reading none) t rest)))
          → (r : Result FlagFault (S × List String)) → parse_from flags none s args ≡ r
          → parse_args flags (suc fuel) s args taken
            ≡ some (prepend taken (scan (reading none) s args))
      by_result ih (failed e) q = rw (q, parse_args) (rescanned (failed e) q)
      by_result ih (done (t, [])) q =
          rw (q, parse_args)
            (ap (λ l. some (done (t, l))) (sym (append-nil taken)) ∙ rescanned (done (t, [])) q)
      by_result ih (done (t, p ∷ rest)) q =
          let shorter = length-parse_from none s t args (p ∷ rest) q in
          rw (q, parse_args)
            (ih t rest (taken ++ p ∷ []) (omega (arith, shorter))
              ∙ regrouped taken p (scan (reading none) t rest)
              ∙ rescanned (done (t, p ∷ rest)) q)

  -- `parseArgs`, which parses again behind each positional, is one pass over the arguments; one more
  -- round than there are arguments is enough for it.
  pub parse_args-scan :
      (fuel : ℕ) (s : S) (args : List String)
      → length args < fuel
      → parse_args flags fuel s args [] ≡ some (scan (reading none) s args)
  parse_args-scan fuel s args h =
      parse_args-scan_from fuel s args [] h ∙ unprepended (scan (reading none) s args)
    where
      unprepended : (r : Result FlagFault (S × List String)) → some (prepend [] r) ≡ some r
      unprepended (failed e) = refl
      unprepended (done r) = refl
