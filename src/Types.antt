-- ===== src/Types.antt =====
-- The public types of include/runtime_analyzer.hpp. A time in milliseconds is an integer
-- `ℤ` (`std::chrono::milliseconds` counts in a signed 64-bit number).
use coretrace_runtime_analyz.Base.{Bool, Bytes, List, Option, [], codes, false, none, true, ℕ}
use coretrace_runtime_analyz.Base.Int.{pos, ℤ}

pub record SourceLocation : Type 0 where
  pub file : Bytes
  pub line : ℕ
  -- 0 when the runtime reports none
  pub column : ℕ

pub data Severity : Type 0 where
  warning error : Severity

pub record Finding : Type 0 where
  pub rule : Bytes
  pub cwe : Bytes
  pub severity : Severity
  pub message : Bytes
  pub location : Option SourceLocation
  pub allocation : Option SourceLocation

-- `Finding finding;`
abbrev pub default_finding : Finding
default_finding = record {
  rule = [];
  cwe = [];
  severity = error;
  message = [];
  location = none;
  allocation = none;
}

pub record CollectionSummary : Type 0 where
  pub coretrace_lines : ℕ
  pub entry_events : ℕ
  pub exit_events : ℕ
  pub allocation_events : ℕ
  pub bounds_errors : ℕ
  pub leak_reports : ℕ
  pub vtable_events : ℕ
  pub warnings : ℕ
  pub errors : ℕ

-- `CollectionSummary summary;`
abbrev pub empty_summary : CollectionSummary
empty_summary = record {
  coretrace_lines = 0;
  entry_events = 0;
  exit_events = 0;
  allocation_events = 0;
  bounds_errors = 0;
  leak_reports = 0;
  vtable_events = 0;
  warnings = 0;
  errors = 0;
}

pub record AnalyzerOptions : Type 0 where
  pub compiler_args : List Bytes
  pub program_args : List Bytes
  pub environment : List Bytes
  pub test_directories : List Bytes
  pub output_path : Bytes
  pub output_directory : Bytes
  pub working_directory : Bytes
  pub timeout : ℤ
  pub explicit_output_path : Bool
  pub run_program : Bool
  pub show_program_output : Bool
  pub show_events : Bool
  pub strict_test_exit : Bool

-- `AnalyzerOptions options;`
abbrev pub default_options : AnalyzerOptions
default_options = record {
  compiler_args = [];
  program_args = [];
  environment = [];
  test_directories = [];
  output_path = codes "runtime-analyzer.out";
  output_directory = codes "runtime-analyzer-artifacts";
  working_directory = [];
  timeout = pos 60000;
  explicit_output_path = false;
  run_program = true;
  show_program_output = false;
  show_events = false;
  strict_test_exit = false;
}

pub record AnalyzerResult : Type 0 where
  pub success : Bool
  pub compile_success : Bool
  pub executed : Bool
  pub timed_out : Bool
  pub exit_code : ℤ
  pub output_path : Bytes
  pub diagnostics : Bytes
  pub stdout_text : Bytes
  pub stderr_text : Bytes
  pub coretrace_events : List Bytes
  pub findings : List Finding
  pub summary : CollectionSummary

-- `AnalyzerResult result;`
abbrev pub default_result : AnalyzerResult
default_result = record {
  success = false;
  compile_success = false;
  executed = false;
  timed_out = false;
  exit_code = pos 1;
  output_path = [];
  diagnostics = [];
  stdout_text = [];
  stderr_text = [];
  coretrace_events = [];
  findings = [];
  summary = empty_summary;
}

pub record TestFileResult : Type 0 where
  pub source_path : Bytes
  pub analyzer_result : AnalyzerResult

pub record BatchResult : Type 0 where
  pub success : Bool
  pub exit_code : ℕ
  pub tests : List TestFileResult
  pub summary : CollectionSummary
  pub diagnostics : Bytes
  pub compile_failures : ℕ
  pub runtime_failures : ℕ
  pub timeouts : ℕ

-- `BatchResult batch;`
abbrev pub default_batch : BatchResult
default_batch = record {
  success = false;
  exit_code = 2;
  tests = [];
  summary = empty_summary;
  diagnostics = [];
  compile_failures = 0;
  runtime_failures = 0;
  timeouts = 0;
}
