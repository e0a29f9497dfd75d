-- ===== src/Main.antt =====
-- src/runtime_analyzer.cpp: `PrintHelp` and `Main`. The version that the build puts in and LLVM's
-- printing of JSON are parameters.
pub mod Logs
pub mod Exit
use coretrace_runtime_analyz.Base.{
  Bytes, List, [], codes, if◌then◌else◌, is_empty, not, ℕ, ◌*◌, ◌++◌,
}
use coretrace_runtime_analyz.Types.{AnalyzerOptions, AnalyzerResult, BatchResult, Finding}
use coretrace_runtime_analyz.Events.{exit_not_analyzed, verdict}
use coretrace_runtime_analyz.World.{World}
use coretrace_runtime_analyz.Args.Parse.{ParseResult, parse_args, sarif, set_options, text}
use coretrace_runtime_analyz.Args.Compiler.{has_compile_only_action}
use coretrace_runtime_analyz.Analyzer.{all_findings, end_line, run_analyzer, run_batch}
use coretrace_runtime_analyz.Sarif.{Json, JsonStrings, sarif_log}
use coretrace_runtime_analyz.Toolchain.{shipped_link_arguments, use_shipped_clang_headers}
use coretrace_runtime_analyz.Reports.{print_batch_result, print_result}
use mathlib.Core.Option

-- `PrintHelp`
abbrev pub help_text : Bytes
help_text =
    codes "Usage: runtime-analyzer [options] -- <compiler args>\n"
    ++ (codes "\n"
        ++ (codes
              "Builds an instrumented binary with coretrace-compiler library mode, runs it, and collects basic runtime events.\n"
            ++ (codes "\n"
                ++ (codes "Options:\n"
                    ++ (codes
                          "  -o, --output <path>       Instrumented binary path when compiler args do not contain -o\n"
                        ++ (codes
                              "  --run-arg <value>         Argument passed to the instrumented binary\n"
                            ++ (codes
                                  "  --env NAME=VALUE          Environment variable passed to the instrumented binary\n"
                                ++ (codes
                                      "  --cwd <path>              Working directory used when running the binary\n"
                                    ++ (codes
                                          "  --timeout <seconds>       Kill the binary after this long (default 60, 0 disables)\n"
                                        ++ (codes
                                              "  --test-dir <path>         Run every C/C++ source file under a test directory\n"
                                            ++ (codes
                                                  "  --output-dir <path>       Artifact directory used by --test-dir\n"
                                                ++ (codes
                                                      "  --strict-test-exit        Make batch mode fail when any test binary exits non-zero\n"
                                                    ++ (codes
                                                          "  --no-run                  Compile only, without executing the binary\n"
                                                        ++ (codes
                                                            "  --show-output             Print captured stdout/stderr after the summary\n"
                                                            ++ (codes
                                                            "  --show-events             Print collected CoreTrace event lines\n"
                                                            ++ (codes
                                                            "  --format <text|sarif>     Print a text summary (default) or a SARIF log of the findings\n"
                                                            ++ (codes
                                                            "  -h, --help                Show this help\n"
                                                            ++ (codes
                                                            "  --version                 Print the version and exit\n"
                                                            ++ (codes "\n"
                                                            ++ (codes
                                                            "Exit status: 0 without findings, 1 with findings, 2 when the program could not be built or run.\n"
                                                            ++ (codes "\n"
                                                            ++ (codes "Example:\n"
                                                            ++ (codes
                                                            "  runtime-analyzer -o ./app -- --ct-modules=trace,alloc,bounds main.c\n")))))))))))))))))))))))

-- What the program gives back: its exit status, and what it wrote on its two outputs.
pub record Outcome : Type 0 where
  pub status : ℕ
  pub out : Bytes
  pub err : Bytes

-- How LLVM takes a text into JSON, `formatv("{0:2}", log)` of a log, and `kVersion`
pub record Build : Type 0 where
  pub json_strings : JsonStrings
  pub print_json : Json → Bytes
  pub version : Bytes

-- `if (result.output_path.empty()) result.output_path = parsed.options.output_path;`
unfoldable pub name_output : AnalyzerOptions → AnalyzerResult → AnalyzerResult
name_output options result =
    if is_empty result.output_path
    then record result { output_path = options.output_path }
    else result

module _ (b : Build) where
  -- `WriteSarif`
  unfoldable pub write_sarif : List Finding → Bytes
  write_sarif findings = b.print_json (sarif_log b.json_strings findings) ++ codes "\n"

  -- The end of `Main` for a batch.
  unfoldable pub report_batch : ParseResult → BatchResult → Outcome
  report_batch parsed result = record {
    status = result.exit_code;
    out = elim parsed.format [
      | sarif ↦ write_sarif (all_findings result.tests)
      | text ↦ print_batch_result result parsed.options
    ];
    err = end_line result.diagnostics;
  }

  -- The end of `Main` for one run, whose result has its output path.
  unfoldable pub report_run : ParseResult → AnalyzerResult → Outcome
  report_run parsed result = record {
    status = verdict result parsed.options.run_program;
    out = elim parsed.format [
      | sarif ↦ write_sarif result.findings
      | text ↦ print_result result parsed.options
    ];
    err = end_line result.diagnostics;
  }

  module _ (w : World) where
    -- The arguments that link against the shipped C++ runtime are added.
    unfoldable pub add_link_arguments : ParseResult → Bytes → w.State → ParseResult
    add_link_arguments parsed executable s =
        if not (has_compile_only_action parsed.options.compiler_args)
        then set_options parsed (record parsed.options {
          compiler_args = parsed.options.compiler_args ++ shipped_link_arguments w executable s;
        })
        else parsed

    -- `Main` for a command line that was accepted.
    unfoldable pub run_accepted : ParseResult → w.State → Outcome × w.State
    run_accepted parsed s =
        if not (is_empty parsed.options.test_directories)
        then (let (result, s') = run_batch w parsed.options s in (report_batch parsed result, s'))
        else (let (result, s') = run_analyzer w parsed.options s in
            (report_run parsed (name_output parsed.options result), s'))

    -- `Main` behind the shipped toolchain.
    unfoldable pub run_parsed : ParseResult → w.State → Outcome × w.State
    run_parsed parsed s =
        if not parsed.ok
        then (
          record {
            status = exit_not_analyzed;
            out = [];
            err = codes "runtime-analyzer: " ++ (parsed.error_text ++ (codes "\n" ++ help_text));
          },
          s,
        )
        else run_accepted parsed s

    -- `Main`, of the arguments behind the program's name.
    unfoldable pub main : List Bytes → w.State → Outcome × w.State
    main argv s =
        let parsed = parse_args argv in
        if parsed.help
        then (record { status = 0; out = help_text; err = [] }, s)
        else if parsed.version
        then (
          record {
            status = 0;
            out = codes "runtime-analyzer " ++ (b.version ++ codes "\n");
            err = [];
          },
          s,
        )
        else (let executable = w.main_executable s in
            let (used, s') = use_shipped_clang_headers w executable s in
            run_parsed (add_link_arguments parsed executable s') s')
