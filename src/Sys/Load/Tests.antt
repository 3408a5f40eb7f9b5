-- ===== src/Sys/Load/Tests.antt =====
-- A system whose loader has one library, without one of its functions, and a package of three functions.
use text.Mathlib.Text.{◌==◌ as str_eq}
use purego_gen.Prelude.{◌≡◌, refl, true, false, [], ◌∷◌, ◌++◌, none, if◌then◌else◌}
use purego_gen.Prelude.Text.{codes, text_eq}
use purego_gen.Go.Exec.{ok, err}
use purego_gen.Libload.{
  Platform, handle, refused, candidates, open_library, dedupe, dedupe_from, lib_stem,
}
use purego_gen.Sys.Load.{Package, System, Library, unresolved, load, sqlite_package}
use purego_gen.Sys.Load.Once.{Loads, load-Loads}

abbrev pub linux : Platform
linux = record {
  darwin = false;
  join = λ d f. d ++ b'/' ∷ f;
  glob = λ pattern. none;
  is_regular_file = λ t. false;
  dlopen =
      λ t. if text_eq t (codes "libsqlite3.so.0") then handle 5 else refused (codes "not found");
}

abbrev system : System
system = record {
  platform = linux;
  getenv = λ v. [];
  dlsym = λ h s. if str_eq s "sqlite3_step" then refused (codes "undefined symbol") else handle 700;
}

abbrev three : Package
three = record {
  label = codes "libsqlite3";
  name = codes "sqlite3";
  path_variable = [];
  dir_variable = [];
  symbols = "sqlite3_open_v2" ∷ "sqlite3_step" ∷ "sqlite3_reset" ∷ [];
}

abbrev pub unloaded : Library
unloaded = record { load_once = false; load_err = ok tt; bound = [] }

load-Loads_example :
    Loads system sqlite_package
      (load system sqlite_package unloaded).0
      (load system sqlite_package unloaded).1.bound
    × (load system sqlite_package (load system sqlite_package unloaded).1
        ≡ load system sqlite_package unloaded)
load-Loads_example = load-Loads system sqlite_package unloaded refl refl

missing_step : load system three unloaded ≡ (
  err (unresolved "sqlite3_step" (codes "undefined symbol")),
  record {
    load_once = true;
    load_err = err (unresolved "sqlite3_step" (codes "undefined symbol"));
    bound = ("sqlite3_open_v2", 700) ∷ [];
  },
)
unfolding load candidates dedupe_from lib_stem open_library dedupe
missing_step = refl
