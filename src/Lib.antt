-- ===== src/Lib.antt =====
-- coretrace-runtime-analyzer compiles a C or C++ program with the CoreTrace instrumentation, runs
-- it, reads what the runtime printed, and reports the defects found. This library models, from the
-- sources of the repository, how it reads its command line, what it tells the compiler, how a run
-- and a batch of runs go, and how findings, events and the verdict are read from the output.
--
-- Parts, each with the code it is about:
--
-- - Types: the structs and enums of include/runtime_analyzer.hpp, with their defaults.
-- - Findings: src/findings.cpp and src/findings.hpp. Catalogue has the rules (`kRules`,
--   `kBoundsRules`, `kVtableRules`, `DescribeRule`); Site has `Field`, `TakeNumber`, `ParseSite`
--   and, from src/runtime_analyzer.cpp, `PrintLocation`; Box has `DiagnosticBox`; Parser has
--   `BoundsFinding`, `OneLineFinding` and `ParseFindings`, whose loop body is `step` on the
--   record `ParseState` of its local variables.
-- - Events: src/events.cpp and src/events.hpp: `StripAnsi`, `UpdateSummary`, `CollectEvents`,
--   `MergeSummaries` and `Verdict`.
-- - Args: src/cli_args.cpp and src/cli_args.hpp. Parse has `ParseArgs`, Number what it reads behind
--   `--timeout`, Compiler the compiler's arguments, and Artifact the paths of a batch's binaries.
-- - Sarif: src/sarif.cpp: the JSON value of a log, as a data type of its own.
-- - World: what is asked of everything outside the program's own code.
-- - Sources: of src/runtime_analyzer.cpp, `DiscoverSourceFiles`, over the order of paths.
-- - Analyzer: of src/runtime_analyzer.cpp, `Run`, `RunBatch` and `AllFindings`. `Run` builds the
--   compiler's arguments (Args), compiles and runs, and reads both outputs (Events and Findings);
--   `RunBatch` does so for each source (Sources) and joins the results.
-- - Process: src/process.cpp, `AppendFromFd` and `RunProcess`, over what the system answers to its
--   calls. Process itself is the parent behind the fork; Process/Setup adds the pipes and the fork,
--   Process/Child is the child, and Process/Deadline the time that `select` is given.
-- - Toolchain: src/shipped_toolchain.cpp, which changes the environment of the compiler.
-- - Reports: of src/runtime_analyzer.cpp, what `PrintResult` and `PrintBatchResult` print.
-- - Main: of src/runtime_analyzer.cpp, `PrintHelp` and `Main`, which reads the command line (Args),
--   sets up the toolchain (Toolchain), runs (Analyzer) and reports (Reports or Sarif). What is
--   written on the two outputs is part of the result.
-- - Base and Text: what the parts share: lists, machine words, integers, and the members of
--   `std::string` that the code calls. Tests: runs of the definitions.
--
-- How the model corresponds to the code. A `std::string` is the list of its bytes, and
-- `std::string_view` the list of what it views; `std::optional` is Option; a vector is a list; an
-- `std::uint64_t` is a number with its wrap-around written out. Code that sets variables returns
-- the record of them, in the order of the code, and an early return is a value. What would be
-- undefined in C++, such as `findings.back()` on an empty vector, is none in `ParseFindings`.
--
-- What is not under src/ of the repository, or only asks the operating system, is a parameter: the
-- record `World` has the compiler (`compilerlib::compile`), `RunProcess`, `std::filesystem`, the
-- environment and the reading of a file, each as a function of a state that the caller chooses, with
-- no assumption about it but that `<=` on paths is a total preorder and, where a theorem says so,
-- that `getenv` gives what `setenv` has set. `Run` reaches `RunProcess` through that record too,
-- with no assumption about the result of a process; Process takes the answers of the system calls
-- as lists instead, and a call that would go on where a list ends is none.
-- The version that the build puts in and LLVM's JSON are the record `Build`. An
-- `llvm::json::Value` keeps a text that is UTF-8, and takes the repaired text of another, as LLVM
-- does where its assertions are off; with assertions on, such a text stops the program. The record
-- `JsonStrings` has the test for UTF-8 and the repair, of which it is assumed only that ASCII is
-- UTF-8.
-- `std::stoll`, `std::from_chars`, the number formats of streams, and the parts of a POSIX path
-- (`filename`, `extension`, `/`) are functions that follow the standard's description of them.
-- `std::ranges::sort` is an insertion sort; where it leaves the order of equal paths open, the model
-- keeps them in order.
--
-- Bounds and fuel. The loop of `ParseFindings` runs on fuel of one more than the text's length, and
-- each round takes at least one byte, so the fuel is enough. The loop of `Field` has fuel in the
-- same way, each round starting behind the last match. The digits of n are written with fuel n + 1,
-- and n gets smaller in every round. The loop of `ParseArgs` is by recursion on the arguments, and
-- needs none.
--
-- Where C++ leaves a signed overflow open, in the conversion of a timeout to milliseconds and in the
-- deadline in nanoseconds, the model wraps around.
--
-- Not modelled: `RunProcess` on Windows, which returns an error, and the process group that the child
-- makes; an error in the middle of the directory that `UseShippedClangHeaders` looks through, which
-- throws; and `main` of main.cpp, which only calls `Main`.
pub mod Base
pub mod Text
pub mod Types
pub mod Findings
pub mod Events
pub mod Args
pub mod Sarif
pub mod World
pub mod Sources
pub mod Analyzer
pub mod Process
pub mod Toolchain
pub mod Reports
pub mod Main
mod Tests
