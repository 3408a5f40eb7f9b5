-- ===== src/Sys/Load/Once.antt =====
-- sqlite3/sqlite3sys/load.go and duckdb/duckdbsys/load.go: what Load binds and answers.
use Prim.Native.String.{String}
use purego_gen.Prelude.{ℕ, ◌≡◌, refl, true, false, ◌⊎◌, inl, inr, List, [], ◌∷◌}
use mathlib.Core.List.{append-nil}
use purego_gen.Prelude.Text.{Text}
use purego_gen.Go.{GoError}
use purego_gen.Go.Exec.{Outcome, ok, err, panics, diverges}
use purego_gen.Libload.{Opened, handle, refused}
use purego_gen.Libload.Search.{AllRefused, OpensFirst, open_library-OpensFirst}
use purego_gen.Sys.Load.{
  Package, System, Library, Bindings, unresolved, bind_symbol, register_functions,
  library_candidates, open_package, load_opened, load,
}

module _ (y : System) (h : ℕ) where
  -- Every symbol is bound, in order, to the address that the loader gives for it.
  abbrev pub Resolves : List String → Bindings → Type 0
  Resolves [] [] = Unit
  Resolves (s ∷ ss) ((name, address) ∷ b) =
      (name ≡ s) × (y.dlsym h s ≡ handle address) × Resolves ss b
  Resolves ss b = ⊥

  -- The symbols before the first that is missing are bound, and the error names that one.
  abbrev pub FirstMissing : List String → Bindings → GoError → Type 0
  FirstMissing (s ∷ ss) [] e = (why : Text) × (y.dlsym h s ≡ refused why) × (e ≡ unresolved s why)
  FirstMissing (s ∷ ss) ((name, address) ∷ b) e =
      (name ≡ s) × (y.dlsym h s ≡ handle address) × FirstMissing ss b e
  FirstMissing [] b e = ⊥

  abbrev Registers : List String → Outcome (Unit {0}) × Bindings → Type 0
  Registers ss (ok u, b) = Resolves ss b
  Registers ss (err e, b) = FirstMissing ss b e
  Registers ss (panics, b) = ⊥
  Registers ss (diverges, b) = ⊥

  bind_symbol-Registers :
      (s : String) (ss : List String) (o : Opened) (r : Outcome (Unit {0}) × Bindings)
      → y.dlsym h s ≡ o
      → Registers ss r
      → Registers (s ∷ ss) (bind_symbol s o r)
  bind_symbol-Registers s ss (refused why) r e k = (why, e, refl)
  bind_symbol-Registers s ss (handle a) (ok u, b) e k = (refl, e, k)
  bind_symbol-Registers s ss (handle a) (err f, b) e k = (refl, e, k)
  bind_symbol-Registers s ss (handle a) (panics, b) e k = absurd k
  bind_symbol-Registers s ss (handle a) (diverges, b) e k = absurd k

  register_functions-Registers : (ss : List String) → Registers ss (register_functions y h ss)
  unfolding register_functions
  register_functions-Registers [] = tt
  register_functions-Registers (s ∷ ss) =
      bind_symbol-Registers s ss (y.dlsym h s) (register_functions y h ss) refl
        (register_functions-Registers ss)

module _ (y : System) (p : Package) where
  -- What a first call of Load answers, and what it leaves bound.
  abbrev pub Loads : Outcome (Unit {0}) → Bindings → Type 0
  Loads (ok u) b =
      (h : ℕ) × OpensFirst y.platform.dlopen (library_candidates y p) (ok h)
      × Resolves y h p.symbols b
  Loads (err e) b =
      (AllRefused y.platform.dlopen (library_candidates y p) × (b ≡ []))
      ⊎ ((h : ℕ) × OpensFirst y.platform.dlopen (library_candidates y p) (ok h)
          × FirstMissing y h p.symbols b e)
  Loads panics b = ⊥
  Loads diverges b = ⊥

  registered-Loads :
      (h : ℕ) (r : Outcome (Unit {0}) × Bindings)
      → OpensFirst y.platform.dlopen (library_candidates y p) (ok h)
      → Registers y h p.symbols r
      → Loads r.0 r.1
  registered-Loads h (ok u, b) o k = (h, o, k)
  registered-Loads h (err e, b) o k = inr (h, o, k)
  registered-Loads h (panics, b) o k = absurd k
  registered-Loads h (diverges, b) o k = absurd k

  load_opened-Loads :
      (r : Outcome ℕ)
      → OpensFirst y.platform.dlopen (library_candidates y p) r
      → Loads (load_opened y p r).0 (load_opened y p r).1
  load_opened-Loads (ok h) o =
      registered-Loads h (register_functions y h p.symbols) o
        (register_functions-Registers y h p.symbols)
  load_opened-Loads (err e) o = inl (o, refl)
  load_opened-Loads panics o = absurd o
  load_opened-Loads diverges o = absurd o

  abbrev after_load : Outcome (Unit {0}) × Library
  after_load =
      let (r, bound) = load_opened y p (open_package y p) in
      (r, record { load_once = true; load_err = r; bound = bound })

  load_fresh : (l : Library) → l.load_once ≡ false → l.bound ≡ [] → load y p l ≡ after_load
  unfolding load
  load_fresh l fresh empty = simp (fresh, empty, append-nil)

  load_again : load y p after_load.1 ≡ after_load
  unfolding load
  load_again = refl

  package-Loads : Loads after_load.0 after_load.1.bound
  unfolding open_package
  package-Loads =
      load_opened-Loads (open_package y p)
        (open_library-OpensFirst y.platform p.label (library_candidates y p))

  -- The first call of Load returns nil exactly in the case that the first candidate that loads has every symbol
  -- of the package, and then all are bound to their addresses, in order; otherwise it returns an error, with
  -- nothing bound if no candidate loads, and with the symbols bound that stand before the first
  -- missing one if there is such a one, which the error names. Every later call returns the same and
  -- changes nothing.
  pub load-Loads :
      (l : Library)
      → l.load_once ≡ false
      → l.bound ≡ []
      → Loads (load y p l).0 (load y p l).1.bound × (load y p (load y p l).1 ≡ load y p l)
  load-Loads l fresh empty = rw (load_fresh l fresh empty) (package-Loads, load_again)
