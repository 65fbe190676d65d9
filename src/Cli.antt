-- ===== src/Cli.antt =====
-- internal/cli: the command line. `Flags` reads arguments, `Calls` turns them into requests of the
-- daemon and its answers into exit codes, `Output` is what is shown, `Shapes` what --json prints of
-- a reply, `Status` the report of status, `Printed` the text of it, and
-- `Main` the choice of the command.
pub mod Flags
pub mod Calls
pub mod Output
pub mod Shapes
pub mod Status
pub mod Printed
pub mod Main
