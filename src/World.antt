-- ===== src/World.antt =====
-- What the analyzer asks of everything outside its own code: the compiler, the process runner, the
-- file system and the environment. Each call sees a state, and may change it.

use coretrace_runtime_analyz.Base.{Bool, Bytes, List, Option, true, ◌≡◌, ◌⊎◌}
use coretrace_runtime_analyz.Base.Int.{ℤ}

-- `ProcessSpec` and `ProcessResult` of src/process.hpp
pub record ProcessSpec : Type 0 where
  pub executable : Bytes
  pub args : List Bytes
  pub environment : List Bytes
  pub working_directory : Bytes
  pub timeout : ℤ

pub record ProcessResult : Type 0 where
  pub exit_code : ℤ
  pub stdout_text : Bytes
  pub stderr_text : Bytes
  pub error_text : Bytes
  pub timed_out : Bool

-- What the analyzer reads of `compilerlib::CompileResult`.
pub record CompileResult : Type 0 where
  pub success : Bool
  pub diagnostics : Bytes

-- The order of `std::filesystem::path`, by which `std::ranges::sort` and `unique` go. Two paths
-- that are spelled differently may be equal, as "a/b" and "a//b" are.
pub record PathOrder : Type 0 where
  pub le : Bytes → Bytes → Bool
  pub le_total : (a b : Bytes) → (le a b ≡ true) ⊎ (le b a ≡ true)
  pub le_trans : (a b c : Bytes) → le a b ≡ true → le b c ≡ true → le a c ≡ true

-- An entry of a directory, with what `is_regular_file` answers.
pub record DirectoryEntry : Type 0 where
  pub path : Bytes
  pub is_regular : Bool

-- The entries that a `recursive_directory_iterator` reaches, and the message of the error that it
-- ends with, if any.
pub record Scan : Type 0 where
  pub entries : List DirectoryEntry
  pub failure : Option Bytes

pub record World : Type 1 where
  pub State : Type 0
  -- `compilerlib::compile(args, ToFile, true)`
  pub compile : List Bytes → State → CompileResult × State
  -- `RunProcess`
  pub run_process : ProcessSpec → State → ProcessResult × State
  -- `std::filesystem::absolute`, `none` where it reports an error
  pub absolute : Bytes → State → Option Bytes
  -- `std::filesystem::relative`, `none` where it reports an error
  pub relative : Bytes → State → Option Bytes
  -- `ReadSmallTextFile`
  pub read_file : Bytes → State → Bytes
  -- `std::filesystem::remove`
  pub remove : Bytes → State → State
  -- `std::filesystem::create_directories`, with the message of its error
  pub create_directories : Bytes → State → Option Bytes × State
  -- `std::filesystem::exists`, `is_directory` and `is_regular_file`
  pub exists : Bytes → State → Bool
  pub is_directory : Bytes → State → Bool
  pub is_regular_file : Bytes → State → Bool
  -- `recursive_directory_iterator` with `skip_permission_denied`
  pub scan : Bytes → State → Scan
  -- the paths that `directory_iterator` reaches, none where it reports an error
  pub list_directory : Bytes → State → List Bytes
  pub paths : PathOrder
  -- `path.parent_path()` and `path.lexically_normal()`
  pub parent_path : Bytes → Bytes
  pub lexically_normal : Bytes → Bytes
  -- `std::getenv`, and `setenv` with its `overwrite` set, which tells whether it succeeded
  pub getenv : Bytes → State → Option Bytes
  pub setenv : Bytes → Bytes → State → Bool × State
  -- `llvm::sys::fs::getMainExecutable`
  pub main_executable : State → Bytes
