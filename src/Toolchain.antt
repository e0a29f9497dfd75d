-- ===== src/Toolchain.antt =====
-- src/shipped_toolchain.cpp: the headers and the C++ runtime that are installed beside the program.
pub mod Kept
use coretrace_runtime_analyz.Base.{
  Bool, Bytes, List, Option, [], codes, false, if◌then◌else◌, is_empty, none, not, some, true, ◌*◌,
  ◌++◌, ◌||◌, ◌∷◌,
}
use coretrace_runtime_analyz.World.{World}
use coretrace_runtime_analyz.Args.Artifact.{join_path}

abbrev pub ct_clang : Bytes
ct_clang = codes "CT_CLANG"

-- `configured != nullptr && *configured != '\0'`
abbrev pub is_configured : Option Bytes → Bool
is_configured none = false
is_configured (some value) = not (is_empty value)

module _ (w : World) where
  -- `executable.parent_path() / ".." / "lib"`
  abbrev pub lib_beside : Bytes → Bytes
  lib_beside executable =
      join_path (join_path (w.parent_path executable) (codes "..")) (codes "lib")

  -- The test of the loop over the versions.
  abbrev pub has_headers : w.State → Bytes → Bool
  has_headers s version =
      w.is_regular_file (join_path (join_path version (codes "include")) (codes "stddef.h")) s

  -- The loop over the versions.
  unfoldable pub use_version : Bytes → List Bytes → w.State → Bool × w.State
  use_version executable [] s = (false, s)
  use_version executable (version ∷ versions) s = elim (has_headers s version) [
    | true ↦ w.setenv ct_clang executable s
    | false ↦ use_version executable versions s
  ]

  -- `UseShippedClangHeaders`
  unfoldable pub use_shipped_clang_headers : Bytes → w.State → Bool × w.State
  use_shipped_clang_headers executable s =
      if is_empty executable || is_configured (w.getenv ct_clang s)
      then (false, s)
      else use_version executable
          (w.list_directory (join_path (lib_beside executable) (codes "clang")) s) s

  -- `ShippedLinkArguments`
  unfoldable pub shipped_link_arguments : Bytes → w.State → List Bytes
  shipped_link_arguments executable s =
      if is_empty executable
      then []
      else (let lib = w.lexically_normal (lib_beside executable) in
          if not (w.is_regular_file (join_path lib (codes "libstdc++.so")) s)
          then []
          else (codes "-L" ++ lib) ∷ (codes "-Wl,-rpath," ++ lib) ∷ [])
