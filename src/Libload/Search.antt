-- ===== src/Libload/Search.antt =====
-- libload.go and resolve.go: which file is found and which library is opened.
use purego_gen.Prelude.{ℕ, ◌≡◌, refl, ap, List, [], ◌∷◌, ◌++◌, arith}
use purego_gen.Prelude.Text.{Text, codes}
use purego_gen.Go.{Arg, str}
use purego_gen.Go.Exec.{Outcome, ok, err, panics, diverges}
use purego_gen.Libload.{
  Platform, Opened, handle, refused, sort_strings, dir_candidates, first_regular, resolve_from_dir,
  open_next, open_library,
}

-- ResolveFromDir returns the first of the candidates of DirCandidates that is a regular file, and none
-- if there is no such candidate.
pub resolve_from_dir_lem :
    (p : Platform) (lib_dir library_name : Text)
    → resolve_from_dir p lib_dir library_name
      ≡ first_regular p (dir_candidates p lib_dir library_name)
unfolding resolve_from_dir dir_candidates sort_strings
resolve_from_dir_lem p lib_dir library_name = ground arith

abbrev pub AllRefused : (Text → Opened) → List Text → Type 0
AllRefused dlopen [] = Unit {0}
AllRefused dlopen (c ∷ cs) = ((why : Text) × (dlopen c ≡ refused why)) × AllRefused dlopen cs

-- What Open returns: the handle of a candidate before which the loader refused all, or an error after
-- it refused every one.
abbrev pub OpensFirst : (Text → Opened) → List Text → Outcome ℕ → Type 0
OpensFirst dlopen cs (ok h) =
    (before : List Text) × (c : Text) × (after : List Text) × (cs ≡ before ++ c ∷ after)
    × (dlopen c ≡ handle h)
    × AllRefused dlopen before
OpensFirst dlopen cs (err e) = AllRefused dlopen cs
OpensFirst dlopen cs panics = ⊥
OpensFirst dlopen cs diverges = ⊥

prepend_refused :
    (dlopen : Text → Opened) (c why : Text) (cs : List Text) (r : Outcome ℕ)
    → dlopen c ≡ refused why
    → OpensFirst dlopen cs r
    → OpensFirst dlopen (c ∷ cs) r
prepend_refused dlopen c why cs (ok h) n (before, d, after, e, o, all) =
    (c ∷ before, d, after, ap (λ us. c ∷ us) e, o, ((why, n), all))
prepend_refused dlopen c why cs (err f) n all = ((why, n), all)
prepend_refused dlopen c why cs panics n h = h
prepend_refused dlopen c why cs diverges n h = h

open_next-OpensFirst :
    (dlopen : Text → Opened) (label : Text) (errs : List Arg) (cs : List Text)
    → OpensFirst dlopen cs (open_next dlopen label errs cs)
open_next-OpensFirst dlopen label errs [] = tt
open_next-OpensFirst dlopen label errs (c ∷ cs) =
    by_answer (dlopen c) refl (λ es. open_next-OpensFirst dlopen label es cs)
  where
    by_answer :
        (o : Opened)
        → dlopen c ≡ o
        → ((es : List Arg) → OpensFirst dlopen cs (open_next dlopen label es cs))
        → OpensFirst dlopen (c ∷ cs) (elim o [
          | handle h ↦ ok h
          | refused why ↦ open_next dlopen label (errs ++ str (c ++ codes ": " ++ why) ∷ []) cs
        ])
    by_answer (handle h) e k = ([], c, cs, refl, e, tt)
    by_answer (refused why) e k = prepend_refused dlopen c why cs _ e (k _)

-- Open returns the handle of the first candidate that the loader accepts, and an error only if it accepts
-- none.
pub open_library-OpensFirst :
    (p : Platform) (label : Text) (cs : List Text)
    → OpensFirst p.dlopen cs (open_library p label cs)
unfolding open_library
open_library-OpensFirst p label [] = tt
open_library-OpensFirst p label (c ∷ cs) = open_next-OpensFirst p.dlopen label [] (c ∷ cs)
