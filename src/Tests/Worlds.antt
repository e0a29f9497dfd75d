-- ===== src/Tests/Worlds.antt =====
-- The world that the runs are made in.

use coretrace_runtime_analyz.Base.{
  Bytes, List, Option, [], any, arith, codes, false, if◌then◌else◌, leb, length, ltb, map, none,
  not, some, suc, true, ℕ, ◌++◌, ◌∷◌, ◌≡◌, ◌⊎◌,
}
use coretrace_runtime_analyz.Base.Int.{pos}
use coretrace_runtime_analyz.Text.{bytes_eq}
use coretrace_runtime_analyz.Sarif.{JsonStrings, is_ascii}
use coretrace_runtime_analyz.World.{PathOrder, World}

pub length_total :
    (a b : Bytes) → (leb (length a) (length b) ≡ true) ⊎ (leb (length b) (length a) ≡ true)
length_total a b = ground arith

pub length_trans :
    (a b c : Bytes)
    → leb (length a) (length b) ≡ true
    → leb (length b) (length c) ≡ true
    → leb (length a) (length c) ≡ true
length_trans a b c h k = ground arith

abbrev pub by_length : PathOrder
by_length = record {
  le = λ a b. leb (length a) (length b);
  le_total = length_total;
  le_trans = length_trans;
}

abbrev pub two_files : List Bytes
two_files = codes "/bb.c" ∷ codes "/a.c" ∷ codes "/a.h" ∷ []

-- A world that counts what is asked of it; "bad.c" does not compile, and the program prints a leak
-- and fails.
abbrev pub counting : World
counting = record {
  State = ℕ;
  compile = λ args s. (
    record { success = not (any (λ a. bytes_eq a (codes "bad.c")) args); diagnostics = [] },
    suc s,
  );
  run_process = λ spec s. (
    record {
      exit_code = pos 3;
      stdout_text = codes "hello";
      stderr_text = codes "==ct== [WARN] leaks detected";
      error_text = [];
      timed_out = false;
    },
    suc s,
  );
  absolute = λ path s. some path;
  relative = λ path s. some path;
  read_file = λ path s. [];
  remove = λ path s. suc s;
  create_directories = λ path s. (none, suc s);
  exists = λ path s. true;
  is_directory = λ path s. not (bytes_eq path (codes "file"));
  is_regular_file = λ path s. true;
  scan = λ path s. record {
    entries = map (λ name. record { path = path ++ name; is_regular = true }) two_files;
    failure = none;
  };
  list_directory = λ path s. (path ++ codes "/20") ∷ [];
  paths = by_length;
  parent_path = λ path. path;
  lexically_normal = λ path. path;
  getenv = λ name s. none;
  setenv = λ name value s. (true, suc s);
  main_executable = λ s. codes "bin";
}

-- A world that knows nothing but one variable of the environment.
abbrev pub remembering : World
remembering = record {
  State = Option Bytes;
  compile = λ args s. (record { success = false; diagnostics = [] }, s);
  run_process = λ spec s. (
    record {
      exit_code = pos 1;
      stdout_text = [];
      stderr_text = [];
      error_text = codes "none";
      timed_out = false;
    },
    s,
  );
  absolute = λ path s. none;
  relative = λ path s. none;
  read_file = λ path s. [];
  remove = λ path s. s;
  create_directories = λ path s. (none, s);
  exists = λ path s. false;
  is_directory = λ path s. false;
  is_regular_file = λ path s. true;
  scan = λ path s. record { entries = []; failure = none };
  list_directory = λ path s. (path ++ codes "/20") ∷ [];
  paths = by_length;
  parent_path = λ path. path;
  lexically_normal = λ path. path;
  getenv = λ name s. s;
  setenv = λ name value s. (true, some value);
  main_executable = λ s. codes "bin";
}

-- Texts of JSON where only ASCII is taken as it is, and other bytes become question marks.
abbrev pub ascii_only : JsonStrings
ascii_only = record {
  is_utf8 = is_ascii;
  fix_utf8 = map (λ c. if ltb c 128 then c else 63);
  ascii_utf8 = λ s h. h;
}
