-- ===== src/Cli/Main.antt =====
-- internal/cli/cli.go: Main and dispatch. The commands are a parameter: what each returns for its
-- arguments.
use gpu_bouncer.Base.{
  ℕ, ◌≡◌, refl, String, ◌==◌, Bool, false, ◌||◌, Option, none, some, List, [], ◌∷◌, if◌then◌else◌,
  Result, done, failed, append_text,
}
use gpu_bouncer.Cli.Flags.{FlagFault}
use gpu_bouncer.Cli.Calls.{CommandFault, bad_flags, misuse, exit_code_of}

pub data Command : Type 0 where
  daemon status plan request release evict version : Command

-- The global flags, as far as Main reads them, and the command line behind them.
pub record Line : Type 0 where
  pub show_version : Bool
  pub rest : List String

unfoldable pub command_of : String → Option Command
command_of name =
    if name == "daemon"
    then some daemon
    else if name == "status"
    then some status
    else if name == "plan"
    then some plan
    else if name == "request"
    then some request
    else if name == "release"
    then some release
    else if name == "evict"
    then some evict
    else if name == "version"
    then some version
    else none

module _ (run : Command → List String → Option CommandFault) (quote : String → String) where
  abbrev run_command : String → List String → Option Command → Option CommandFault
  run_command name args (some command) = run command args
  run_command name args none =
      if name == "help" || (name == "--help" || name == "-h")
      then none
      else some (misuse (append_text "unknown command " (quote name)))

  -- The usage text is what `help` prints.
  unfoldable pub dispatch_command : String → List String → Option CommandFault
  dispatch_command name args = run_command name args (command_of name)

  abbrev main_rest : List String → Option CommandFault
  main_rest [] = some (misuse "no command given")
  main_rest (name ∷ args) = dispatch_command name args

  -- A failure to print the version is reported as any other error.
  abbrev version_code : Option CommandFault → ℕ
  version_code none = 0
  version_code (some e) = 1

  -- The exit code, from the parse of the global flags.
  unfoldable pub main_code : Result FlagFault Line → ℕ
  main_code (failed e) = exit_code_of (some (bad_flags e))
  main_code (done line) =
      if line.show_version
      then version_code (run version [])
      else exit_code_of (main_rest line.rest)

  no_command_fails : main_code (done (record { show_version = false; rest = [] })) ≡ 2
  unfolding main_code exit_code_of
  no_command_fails = refl

  -- A name that is no command ends with the code 2, and nothing is run for it.
  unknown_command_fails :
      (name : String) (args : List String)
      → command_of name ≡ none
      → (name == "help" || (name == "--help" || name == "-h")) ≡ false
      → main_code (done (record { show_version = false; rest = name ∷ args })) ≡ 2
  unfolding main_code dispatch_command exit_code_of
  unknown_command_fails name args c h = rw (c, h) refl
