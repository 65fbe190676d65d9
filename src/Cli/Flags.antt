-- ===== src/Cli/Flags.antt =====
-- internal/cli/commands.go: flags anywhere among the arguments. `parse` is `flag.FlagSet.Parse`.
-- A command's flags are a parameter: their kinds, and the setting of one, on values of a type `S`.
pub mod Anywhere
use Prim.Native.Char.{code}
use gpu_bouncer.Base.{
  ℕ, zero, suc, String, ◌==◌, Bool, true, false, ◌||◌, Option, none, some, List, [], ◌∷◌, ◌++◌,
  length, eqb, if◌then◌else◌, Result, done, failed,
}
use gpu_bouncer.Base.Cutting.{cut_at}

pub data FlagKind : Type 0 where
  bool_flag value_flag : FlagKind

pub data FlagFault : Type 0 where
  help_wanted : FlagFault
  bad_flag_syntax : (arg : String) → FlagFault
  not_defined : (name : String) → FlagFault
  needs_argument : (name : String) → FlagFault
  invalid_value : (value name : String) → FlagFault

-- The flags of a command, and what they set.
pub record FlagSet (S : Type 0) : Type 0 where
  pub kind : String → Option FlagKind
  pub set : String → String → S → Option S

-- What one argument is: no flag, `--`, or a flag with or without a value of its own.
pub data Argument : Type 0 where
  positional : Argument
  terminator : Argument
  malformed : Argument
  flag : (name : String) (value : Option String) → Argument

abbrev minus : ℕ
minus = b'-'

abbrev split_value : String → Option (String × String) → Argument
split_value name none = flag name none
split_value name (some (before, value)) = flag before (some value)

abbrev named : String → Argument
named String.[] = malformed
named (String.◌∷◌ c s) =
    if eqb (code c) minus || eqb (code c) b'='
    then malformed
    else split_value (String.◌∷◌ c s) (cut_at b'=' (String.◌∷◌ c s))

abbrev after_minus : String → Argument
after_minus String.[] = positional
after_minus (String.◌∷◌ c s) =
    if eqb (code c) minus then (if s == "" then terminator else named s) else named (String.◌∷◌ c s)

unfoldable pub classify : String → Argument
classify String.[] = positional
classify (String.◌∷◌ c s) = if eqb (code c) minus then after_minus s else positional

abbrev unknown_flag : String → FlagFault
unknown_flag name = if name == "help" || name == "h" then help_wanted else not_defined name

abbrev bool_value : Option String → String
bool_value none = "true"
bool_value (some value) = value

-- What one argument does to the parse: it is a positional, it ends the flags, it is an error, it sets
-- a flag, or it names a flag whose value follows.
pub data Step (S : Type 0) : Type 0 where
  stops ends : Step S
  fails : FlagFault → Step S
  sets : S → Step S
  waits : (name : String) → Step S

module _ {S : Type 0} (flags : FlagSet S) where
  abbrev pub set_flag : String → String → S → Step S
  set_flag name value s = elim (flags.set name value s) [
    | none ↦ fails (invalid_value value name)
    | some s' ↦ sets s'
  ]

  abbrev flag_step : Option FlagKind → String → Option String → S → Step S
  flag_step none name value s = fails (unknown_flag name)
  flag_step (some bool_flag) name value s = set_flag name (bool_value value) s
  flag_step (some value_flag) name none s = waits name
  flag_step (some value_flag) name (some value) s = set_flag name value s

  abbrev argument_step : Argument → String → S → Step S
  argument_step positional a s = stops
  argument_step terminator a s = ends
  argument_step malformed a s = fails (bad_flag_syntax a)
  argument_step (flag name value) a s = flag_step (flags.kind name) name value s

  -- `parseOne`; `waiting` is the flag whose value the argument is, whatever it looks like.
  unfoldable pub step : Option String → S → String → Step S
  step none s a = argument_step (classify a) a s
  step (some name) s a = set_flag name a s

  abbrev pub at_end : Option String → S → Result FlagFault (S × List String)
  at_end none s = done (s, [])
  at_end (some name) s = failed (needs_argument name)

  -- `flag.FlagSet.Parse`: up to the first argument that is no flag.
  unfoldable pub parse_from : Option String → S → List String → Result FlagFault (S × List String)
  parse_from waiting s [] = at_end waiting s
  parse_from waiting s (a ∷ rest) = elim (step waiting s a) [
    | stops ↦ done (s, a ∷ rest)
    | ends ↦ done (s, rest)
    | fails e ↦ failed e
    | sets s' ↦ parse_from none s' rest
    | waits name ↦ parse_from (some name) s rest
  ]

  -- `parseArgs`: parse, take one positional, and parse the rest, on fuel: none where it is used up.
  unfoldable pub parse_args :
      ℕ → S → List String → List String → Option (Result FlagFault (S × List String))
  parse_args zero s args taken = none
  parse_args (suc fuel) s args taken = elim (parse_from none s args) [
    | failed e ↦ some (failed e)
    | done r ↦ elim r.1 [
      | [] ↦ some (done (r.0, taken))
      | p ∷ rest ↦ parse_args fuel r.0 rest (taken ++ p ∷ [])
    ]
  ]
