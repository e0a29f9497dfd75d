-- ===== src/Tests/SourceRuns.antt =====
-- Finding the sources of a batch, and running them.

use coretrace_runtime_analyz.Sources.Same.{SamePaths}
use coretrace_runtime_analyz.Base.{All, Bytes, List, [], any, codes, refl, true, ◌∷◌, ◌≡◌}
use coretrace_runtime_analyz.Text.{bytes_eq, rfind, starts_with}
use coretrace_runtime_analyz.Types.{AnalyzerOptions, default_options}
use coretrace_runtime_analyz.Args.Compiler.{extension, filename}
use coretrace_runtime_analyz.Sources.{
  discover_source_files, insert_path, is_source_file, path_eq, scan_directories, scan_directory,
  sort_paths, source_files, unique_behind, unique_paths,
}
use coretrace_runtime_analyz.Sources.Order.{IsStrict, has}
use coretrace_runtime_analyz.Sources.Found.{
  AmongOf, discover_source_files-IsStrict, discover_source_files-SamePaths, holds_source,
}
use coretrace_runtime_analyz.Analyzer.{run_batch}
use coretrace_runtime_analyz.Analyzer.Discovered.{IsBatchResult, run_batch-IsBatchResult}
use coretrace_runtime_analyz.Reports.Statuses.{IsCounted, run_batch-IsCounted}
use coretrace_runtime_analyz.Tests.Worlds.{by_length, counting}

discover : List Bytes → List Bytes × Bytes
unfolding discover_source_files scan_directories scan_directory sort_paths insert_path unique_paths
    unique_behind source_files is_source_file extension filename rfind starts_with bytes_eq
discover = discover_source_files counting 0

discovered :
    discover (codes "d" ∷ codes "file" ∷ codes "d" ∷ [])
    ≡ (codes "d/a.c" ∷ codes "d/bb.c" ∷ [], codes "test path is not a directory: file\n")
unfolding discover
discovered = refl

abbrev once : List Bytes
once = codes "d" ∷ codes "file" ∷ []

abbrev twice : List Bytes
twice = codes "file" ∷ codes "d" ∷ codes "d" ∷ []

among : AmongOf once twice × AmongOf twice once
unfolding bytes_eq
among = ((refl, (refl, tt)), (refl, (refl, (refl, tt))))

discover_source_files-IsStrict_example :
    let sources = (discover_source_files counting 0 twice).0 in
    IsStrict by_length sources
    × All (λ p. any (holds_source counting 0 (bytes_eq p)) twice ≡ true) sources
    × ((z : Bytes)
        → has by_length sources z ≡ any (holds_source counting 0 (path_eq by_length z)) twice)
discover_source_files-IsStrict_example = discover_source_files-IsStrict counting 0 twice

discover_source_files-SamePaths_example :
    SamePaths by_length
      (discover_source_files counting 0 once).0
      (discover_source_files counting 0 twice).0
discover_source_files-SamePaths_example =
    discover_source_files-SamePaths counting 0 once twice among.0 among.1

abbrev batch_options : AnalyzerOptions
batch_options = record default_options { test_directories = twice; strict_test_exit = true }

run_batch-IsBatchResult_example :
    IsBatchResult counting batch_options 0 (run_batch counting batch_options 0)
run_batch-IsBatchResult_example = run_batch-IsBatchResult counting batch_options 0

run_batch-IsCounted_example : IsCounted (run_batch counting batch_options 0).0
run_batch-IsCounted_example = run_batch-IsCounted counting batch_options 0
