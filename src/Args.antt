-- ===== src/Args.antt =====
-- src/cli_args.cpp: the command line, the compiler's arguments, and where binaries go.
pub mod Number
pub mod Parse
pub mod Compiler
pub mod Artifact
