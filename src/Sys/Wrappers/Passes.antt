-- ===== src/Sys/Wrappers/Passes.antt =====
-- sqlite3/sqlite3sys and duckdb/duckdbsys: a wrapper calls the function that Load has bound for it.
use Prim.Native.String.{String}
use text.Mathlib.Text.{◌==◌ as str_eq}
use text.Mathlib.TextEquality.{eq_iff}
use mathlib.Core.List.{Memᴰ}
use mathlib.Core.List.Memᴰ.{head, tail}
use mathlib.Core.Bool.{false≢true}
use purego_gen.Prelude.Text.{codes, text_eq, text_eq_sound}
use purego_gen.Prelude.{
  ◌⊎◌, ◌++◌, ℕ, ◌≡◌, refl, sym, ap, subst, ◌∙◌, inl, inr, Bool, true, false, not, ◌&&◌, ◌||◌, List,
  [], ◌∷◌, some, length, Bool-cases, arith,
}
use purego_gen.Go.Exec.{ok}
use purego_gen.Libload.{handle}
use purego_gen.Sys.Load.{
  Package, System, Library, Bindings, sqlite_package, duck_package, library_candidates, load,
}
use purego_gen.Sys.Load.Once.{Resolves, Loads, load-Loads}
use purego_gen.Sys.Wrappers.{Wrapper, Foreign, find, frame, values, finish, call_wrapper}
use purego_gen.Libload.Search.{OpensFirst}
use purego_gen.Sys.Wrappers.All.{
  squash, is_named, contains, distinct, eq_names, fits, all_fit, sqlite_wrappers, duck_wrappers,
  sqlite_fit, duck_fit,
}

and_parts : (a b : Bool) → a && b ≡ true → (a ≡ true) × (b ≡ true)
and_parts a b h = ground arith

eq_names-eq : (ss ts : List String) → eq_names ss ts ≡ true → ss ≡ ts
eq_names-eq [] [] h = refl
eq_names-eq [] (t ∷ ts) h = ground arith
eq_names-eq (s ∷ ss) [] h = ground arith
eq_names-eq (s ∷ ss) (t ∷ ts) h =
    let (e, k) = and_parts (str_eq s t) (eq_names ss ts) h in
    rw ((eq_iff s t).0 e) (ap (λ l. t ∷ l) (eq_names-eq ss ts k))

all_fit-Mem :
    (prefix : String) (symbols : List String) (ws : List Wrapper) (w : Wrapper)
    → all_fit prefix symbols ws ≡ true
    → Memᴰ w ws
    → fits prefix symbols w ≡ true
all_fit-Mem prefix symbols [] w h m = elim m [ ]
all_fit-Mem prefix symbols (v ∷ ws) w h (head e) =
    rw e (and_parts (fits prefix symbols v) (all_fit prefix symbols ws) h).0
all_fit-Mem prefix symbols (v ∷ ws) w h (tail m) =
    all_fit-Mem prefix symbols ws w
      (and_parts (fits prefix symbols v) (all_fit prefix symbols ws) h).1 m

rest_contains :
    (s t : String) (ss : List String)
    → str_eq s t ≡ false
    → contains s (t ∷ ss) ≡ true
    → contains s ss ≡ true
rest_contains s t ss e h = subst (λ b. b || contains s ss ≡ true) e h

str_eq_comm : (s t : String) → str_eq s t ≡ false → str_eq t s ≡ false
str_eq_comm s t h = elim (Bool-cases (str_eq t s)) [
  | inl e ↦ absurd (false≢true (sym h ∙ (eq_iff s t).1 (sym ((eq_iff t s).0 e))))
  | inr e ↦ e
]

or_parts : (a b : Bool) → a || b ≡ false → (a ≡ false) × (b ≡ false)
or_parts a b h = ground arith

contains-false :
    (s : String) (ss : List String) → not (contains s ss) ≡ true → contains s ss ≡ false
contains-false s ss h = ground arith

str_eq_refl : (s : String) → str_eq s s ≡ true
str_eq_refl s = (eq_iff s s).1 refl

-- A bound name is found, at the address that the loader gives for it.
find-Resolves :
    (y : System) (h : ℕ) (s : String) (ss : List String) (b : Bindings)
    → contains s ss ≡ true
    → Resolves y h ss b
    → (a : ℕ) × (find s b ≡ some a) × (y.dlsym h s ≡ handle a)
unfolding find
find-Resolves y h s [] b k r = ground arith
find-Resolves y h s (t ∷ ss) [] k r = absurd r
find-Resolves y h s (t ∷ ss) ((name, a) ∷ b) k (e, d, r) = elim (Bool-cases (str_eq s t)) [
  | inl same ↦ (a, rw (e, same) refl, rw ((eq_iff s t).0 same) d)
  | inr other ↦
      let (a', found, d') = find-Resolves y h s ss b (rest_contains s t ss other k) r in
      (a', rw (e, other) found, d')
]

module _ {A : Type 0} where
  -- A value for a name that is not asked for changes nothing.
  values_weaken :
      (p : String) (v : A) (f : List (String × A)) (ss : List String)
      → contains p ss ≡ false
      → values ((p, v) ∷ f) ss ≡ values f ss
  unfolding values find
  values_weaken p v f [] h = refl
  values_weaken p v f (s ∷ ss) h =
      let (other, rest) = or_parts (str_eq p s) (contains p ss) h in
      rw (str_eq_comm p s other, values_weaken p v f ss rest) refl

  -- The parameters themselves have the values that are passed.
  values-frame :
      (ps : List String) (vs : List A)
      → distinct ps ≡ true
      → length vs ≡ length ps
      → values (frame ps vs) ps ≡ some vs
  unfolding values frame find
  values-frame [] [] h e = refl
  values-frame [] (v ∷ vs) h e = ground arith
  values-frame (p ∷ ps) [] h e = ground arith
  values-frame (p ∷ ps) (v ∷ vs) h e =
      let (other, rest) = and_parts (not (contains p ps)) (distinct ps) h in
      rw
        (
          str_eq_refl p,
          values_weaken p v (frame ps vs) ps (contains-false p ps other),
          values-frame ps vs rest (omega (arith, e)),
        )
        refl

fits_call :
    {S V : Type 0} (c : Foreign S V) (y : System) (h : ℕ) (prefix : String) (symbols : List String)
    (b : Bindings) (w : Wrapper) (vs : List V) (s : S)
    → fits prefix symbols w ≡ true
    → Resolves y h symbols b
    → length vs ≡ length w.params
    → (a : ℕ) × (y.dlsym h w.callee ≡ handle a)
      × (call_wrapper c w b vs s
          ≡ (ok (finish c w.owned (c.call a vs s)).0, (finish c w.owned (c.call a vs s)).1))
unfolding call_wrapper
fits_call c y h prefix symbols b w vs s fit r e =
    let (named, f) = and_parts (is_named prefix w.name w.callee) _ fit in
    let (bound, names) =
      and_parts (contains w.callee symbols) (distinct w.params && eq_names w.arguments w.params)
        f in
    let (apart, same) = and_parts (distinct w.params) (eq_names w.arguments w.params) names in
    let (a, found, address) = find-Resolves y h w.callee symbols b bound r in
    (
      a,
      address,
      rw (found, eq_names-eq w.arguments w.params same, values-frame w.params vs apart e) refl,
    )

-- The two packages of bindings.
pub data GoPackage : Type 0 where
  sqlite3sys : GoPackage
  duckdbsys : GoPackage

abbrev pub loaded_by : GoPackage → Package
loaded_by sqlite3sys = sqlite_package
loaded_by duckdbsys = duck_package

abbrev pub wrappers_of : GoPackage → List Wrapper
wrappers_of sqlite3sys = sqlite_wrappers
wrappers_of duckdbsys = duck_wrappers

abbrev pub prefix_of : GoPackage → String
prefix_of sqlite3sys = "sqlite3_"
prefix_of duckdbsys = "duckdb_"

-- The name of a C function is that of the Go function after a prefix, up to case and underscores, and up to the
-- word Value at the end of the Go name.
abbrev pub HasName : String → String → String → Type 0
HasName prefix name callee =
    (squash (codes callee) ≡ squash (codes prefix ++ codes name))
    ⊎ (squash (codes callee) ++ codes "value" ≡ squash (codes prefix ++ codes name))

or_cases : (a b : Bool) → a || b ≡ true → (a ≡ true) ⊎ (b ≡ true)
or_cases true b h = inl refl
or_cases false b h = inr h

is_named-HasName :
    (prefix name callee : String) → is_named prefix name callee ≡ true → HasName prefix name callee
is_named-HasName prefix name callee h =
    elim (or_cases (text_eq (squash (codes callee)) (squash (codes prefix ++ codes name))) _ h) [
      | inl e ↦ inl (text_eq_sound _ _ e)
      | inr e ↦ inr (text_eq_sound _ _ e)
    ]

package_fits : (g : GoPackage) → all_fit (prefix_of g) (loaded_by g).symbols (wrappers_of g) ≡ true
package_fits sqlite3sys = sqlite_fit
package_fits duckdbsys = duck_fit

-- After a first Load that returned nil, each of these wrappers, of either package, calls the C function that has
-- the wrapper's name (after sqlite3_ or duckdb_, and up to case, underscores and a last Value), at the address that the loader has for it in the library that Load opened, with its own arguments, all
-- and in order; it changes nothing else, and it never calls a nil function. A wrapper around
-- ownedString then reads and frees what C has returned; the others return it.
pub wrapper_calls :
    {S V : Type 0} (c : Foreign S V) (y : System) (g : GoPackage) (l : Library)
    → l.load_once ≡ false
    → l.bound ≡ []
    → (load y (loaded_by g) l).0 ≡ ok tt
    → (w : Wrapper) (vs : List V) (s : S) → Memᴰ w (wrappers_of g)
    → length vs ≡ length w.params
    → (h : ℕ) × (a : ℕ) × OpensFirst y.platform.dlopen (library_candidates y (loaded_by g)) (ok h)
      × HasName (prefix_of g) w.name w.callee
      × (y.dlsym h w.callee ≡ handle a)
      × (call_wrapper c w (load y (loaded_by g) l).1.bound vs s
          ≡ (ok (finish c w.owned (c.call a vs s)).0, (finish c w.owned (c.call a vs s)).1))
wrapper_calls c y g l fresh empty success w vs s m e =
    let p = loaded_by g in
    let b = (load y p l).1.bound in
    let (h, opened, r) = subst (λ o. Loads y p o b) success (load-Loads y p l fresh empty).0 in
    let fit = all_fit-Mem (prefix_of g) p.symbols (wrappers_of g) w (package_fits g) m in
    let (a, address, call) = fits_call c y h (prefix_of g) p.symbols b w vs s fit r e in
    let named = (and_parts (is_named (prefix_of g) w.name w.callee) _ fit).0 in
    (h, a, opened, is_named-HasName (prefix_of g) w.name w.callee named, address, call)
