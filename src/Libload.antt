-- ===== src/Libload.antt =====
-- libload/libload.go and libload/resolve.go: where a shared library may be, and opening it.
pub mod Dedupe
pub mod Search
pub mod Tests
use purego_gen.Prelude.{
  ℕ, Bool, true, false, ◌||◌, List, [], ◌∷◌, ◌++◌, Option, none, some, if◌then◌else◌,
}
use purego_gen.Prelude.Text.{has_prefix, Text, codes, text_eq, is_empty}
use purego_gen.Go.{errorf, str, Arg}
use purego_gen.Go.Exec.{Outcome, ok, err}
use purego_gen.Go.Url.{text_lt}

-- What purego.Dlopen answers: a handle, or the text of its error.
pub data Opened : Type 0 where
  handle : ℕ → Opened
  refused : Text → Opened

-- The platform: runtime.GOOS, the directories, and the dynamic loader. filepath.Join cleans a path by
-- the rules of the operating system; filepath.Glob may fail on a malformed pattern.
pub record Platform : Type 0 where
  pub darwin : Bool
  pub join : Text → Text → Text
  pub glob : Text → Option (List Text)
  pub is_regular_file : Text → Bool
  pub dlopen : Text → Opened

abbrev pub has : Text → List Text → Bool
has t [] = false
has t (u ∷ us) = text_eq t u || has t us

unfoldable pub lib_stem : Text → Text
lib_stem name = if has_prefix name (codes "lib") then name else codes "lib" ++ name

-- sort.Strings
abbrev pub insert : Text → List Text → List Text
insert t [] = t ∷ []
insert t (u ∷ us) = let rest = insert t us in if text_lt u t then u ∷ rest else t ∷ u ∷ us

unfoldable pub sort_strings : List Text → List Text
sort_strings [] = []
sort_strings (t ∷ ts) = insert t (sort_strings ts)

-- The loop of dedupe, with the values seen so far.
unfoldable pub dedupe_from : List Text → List Text → List Text
dedupe_from seen [] = []
dedupe_from seen (v ∷ vs) =
    let skip = dedupe_from seen vs in
    let keep = dedupe_from (v ∷ seen) vs in
    if is_empty v then skip else if has v seen then skip else v ∷ keep

unfoldable pub dedupe : List Text → List Text
unfolding dedupe_from
dedupe values = dedupe_from [] values

abbrev pub or_empty : Option (List Text) → List Text
or_empty none = []
or_empty (some ts) = ts

-- The first candidate that the loader accepts; the failures of those before it are collected.
abbrev pub open_next : (Text → Opened) → Text → List Arg → List Text → Outcome ℕ
open_next dlopen label errs [] = err (errorf "open %s: %v" (str label ∷ errs))
open_next dlopen label errs (c ∷ cs) = elim (dlopen c) [
  | handle h ↦ ok h
  | refused why ↦ open_next dlopen label (errs ++ str (c ++ codes ": " ++ why) ∷ []) cs
]

module _ (p : Platform) where
  unfoldable pub dir_candidates : Text → Text → List Text
  unfolding sort_strings
  dir_candidates lib_dir library_name =
      let stem = lib_stem library_name in
      if p.darwin
      then p.join lib_dir (stem ++ codes ".dylib") ∷ []
      else p.join lib_dir (stem ++ codes ".so")
        ∷ sort_strings (or_empty (p.glob (p.join lib_dir (stem ++ codes ".so.*"))))

  abbrev all_candidates : List Text → Text → List Text
  all_candidates [] library_name = []
  all_candidates (d ∷ ds) library_name =
      dir_candidates d library_name ++ all_candidates ds library_name

  unfoldable pub candidates : Text → List Text → List Text → List Text
  candidates library_name extra_paths lib_dirs =
      let stem = lib_stem library_name in
      let names =
        if p.darwin
        then (stem ++ codes ".dylib") ∷ []
        else (stem ++ codes ".so") ∷ (stem ++ codes ".so.0") ∷ [] in
      dedupe (extra_paths ++ all_candidates lib_dirs library_name ++ names)

  unfoldable pub open_library : Text → List Text → Outcome ℕ
  open_library label [] = err (errorf "open %s: no candidates provided" (str label ∷ []))
  open_library label (c ∷ cs) = open_next p.dlopen label [] (c ∷ cs)

  -- The loop over the matches.
  abbrev pub first_regular : List Text → Option Text
  first_regular [] = none
  first_regular (t ∷ ts) =
      let rest = first_regular ts in if p.is_regular_file t then some t else rest

  abbrev pub from_matches : Option (List Text) → Option Text
  from_matches none = none
  from_matches (some []) = none
  from_matches (some (t ∷ ts)) = first_regular (sort_strings (t ∷ ts))

  unfoldable pub resolve_from_dir : Text → Text → Option Text
  resolve_from_dir lib_dir library_name =
      let stem = lib_stem library_name in
      let dylib = p.join lib_dir (stem ++ codes ".dylib") in
      let exact = p.join lib_dir (stem ++ codes ".so") in
      if p.darwin
      then if p.is_regular_file dylib then some dylib else none
      else if p.is_regular_file exact
      then some exact
      else from_matches (p.glob (p.join lib_dir (stem ++ codes ".so.*")))
