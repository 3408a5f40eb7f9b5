-- ===== src/Sqlite3/Registry/Entries.antt =====
-- sqlite3.go: what is registered after RegisterFunc and RegisterCollation.
use purego_gen.Prelude.{
  ℕ, suc, ==_iff, ◌+◌, ◌<◌, ◌≡◌, refl, ◌∙◌, ap, Bool, true, false, ◌||◌, List, [], ◌∷◌, none, some,
  ◌==◌, if◌then◌else◌, arith, length,
}
use purego_gen.Prelude.Int.{◌==ℤ◌}
use purego_gen.Prelude.Text.{Text}
use purego_gen.Go.Exec.{Outcome, ok}
use purego_gen.Go.Reflect.{Reflected, Argument}
use purego_gen.Sqlite3.Codes.{sqlite_ok}
use purego_gen.Sqlite3.Extern.{Extern}
use purego_gen.Sqlite3.Registry.{
  Entries, lookup, delete, insert, delete_all, ScalarFunction, Compare, Creator, RegistryEnv,
  next_registry_id, register_func, register_collation, call_scalar, invoke_scalar, decode_args,
}

abbrev pub one_of : ℕ → List ℕ → Bool
one_of k [] = false
one_of k (j ∷ js) = k == j || one_of k js

module _ {A : Type 0} where
  lookup-delete :
      (k j : ℕ) (es : Entries A) → lookup k (delete j es) ≡ (if k == j then none else lookup k es)
  unfolding lookup delete
  lookup-delete k j [] = ground arith
  lookup-delete k j ((i, a) ∷ es) = ground (arith, lookup-delete k j es)

  lookup-insert :
      (k j : ℕ) (a : A) (es : Entries A)
      → lookup k (insert j a es) ≡ (if k == j then some a else lookup k es)
  unfolding insert lookup
  lookup-insert k j a es = ground (arith, lookup-delete k j es)

  lookup-delete_all :
      (k : ℕ) (js : List ℕ) (es : Entries A)
      → lookup k (delete_all js es) ≡ (if one_of k js then none else lookup k es)
  unfolding delete_all
  lookup-delete_all k [] es = refl
  lookup-delete_all k (j ∷ js) es =
      ground (arith, lookup-delete_all k js (delete j es), lookup-delete k j es)

next_registry_id_lem : (n : ℕ) → n + 1 < 18446744073709551616 → next_registry_id n ≡ n + 1
unfolding next_registry_id
next_registry_id_lem n h = omega arith

module _ {V : Type 0} where
  -- Each argument is decoded by the decoder at its place.
  abbrev pub Decodes : List (V → Outcome Argument) → List V → List Argument → Type 0
  Decodes [] [] [] = Unit
  Decodes (d ∷ ds) (v ∷ vs) (g ∷ gs) = (d v ≡ ok g) × Decodes ds vs gs
  Decodes ds vs gs = ⊥

  Decodes-length :
      (ds : List (V → Outcome Argument)) (vs : List V) (gs : List Argument)
      → Decodes ds vs gs
      → (length vs ≡ length ds) × (decode_args ds vs ≡ ok gs)
  Decodes-length [] [] [] h = (refl, refl)
  Decodes-length [] [] (g ∷ gs) h = absurd h
  Decodes-length [] (v ∷ vs) gs h = absurd h
  Decodes-length (d ∷ ds) [] gs h = absurd h
  Decodes-length (d ∷ ds) (v ∷ vs) [] h = absurd h
  Decodes-length (d ∷ ds) (v ∷ vs) (g ∷ gs) (e, h) =
      let (same, more) = Decodes-length ds vs gs h in (ap suc same, rw (e, more) refl)

module _ {V R : Type 0} where
  pub call_scalar-Decodes :
      (f : ScalarFunction V R) (vs : List V) (gs : List Argument) (results : List Reflected)
      → Decodes f.args vs gs
      → f.call gs ≡ some results
      → call_scalar (some f) vs ≡ f.return_func results
  call_scalar-Decodes f vs gs results d r =
      let (same, more) = Decodes-length f.args vs gs d in
      rw ((==_iff (length vs) (length f.args)).1 same, more, r) refl

module _ {V R S : Type 0} (x : Extern S) (y : Creator S) where
  -- What is found under any number after RegisterFunc of a compiled function: nothing, where SQLite has
  -- called the destructor of the number; the function, under the new number, if SQLite took it, and
  -- nothing otherwise; what was there before, under every other number.
  pub lookup-register_func :
      (name : Text) (f : ScalarFunction V R) (is_pure : Bool) (e : RegistryEnv V R S) (k : ℕ)
      → let id = next_registry_id e.registry.next_id in
        let called = y.create_function e.db name (length f.args) is_pure id e.lib in
        lookup k (register_func x y name (ok f) is_pure e).1.registry.scalars ≡ (
          if one_of k called.1
          then none
          else if k == id
          then if called.0 ==ℤ sqlite_ok then some f else none
          else lookup k e.registry.scalars)
  unfolding register_func
  lookup-register_func name f is_pure e k =
      let id = next_registry_id e.registry.next_id in
      let called = y.create_function e.db name (length f.args) is_pure id e.lib in
      let inserted = insert id f e.registry.scalars in
      ground (
        arith,
        lookup-delete k id (delete_all called.1 inserted),
        lookup-delete_all k called.1 inserted,
        lookup-insert k id f e.registry.scalars,
      )

  -- The same of RegisterCollation.
  pub lookup-register_collation :
      (name : Text) (f : Compare) (e : RegistryEnv V R S) (k : ℕ)
      → let id = next_registry_id e.registry.next_id in
        let called = y.create_collation e.db name id e.lib in
        lookup k (register_collation x y name (some f) e).1.registry.collations ≡ (
          if one_of k called.1
          then none
          else if k == id
          then if called.0 ==ℤ sqlite_ok then some f else none
          else lookup k e.registry.collations)
  unfolding register_collation
  lookup-register_collation name f e k =
      let id = next_registry_id e.registry.next_id in
      let called = y.create_collation e.db name id e.lib in
      let inserted = insert id f e.registry.collations in
      ground (
        arith,
        lookup-delete k id (delete_all called.1 inserted),
        lookup-delete_all k called.1 inserted,
        lookup-insert k id f e.registry.collations,
      )

  given_id :
      (name : Text) (f : ScalarFunction V R) (is_pure : Bool) (e : RegistryEnv V R S)
      → (register_func x y name (ok f) is_pure e).1.registry.next_id
        ≡ next_registry_id e.registry.next_id
  unfolding register_func
  given_id name f is_pure e = ground arith

  -- RegisterFunc takes the next number, whether SQLite takes the function or not, so that no number is given
  -- twice, up to 2^64 registrations: if no function has a number above the last one given, then the last one
  -- given is afterwards one more, no function had this number before, and no function has one above it.
  pub register_func_fresh :
      (name : Text) (f : ScalarFunction V R) (is_pure : Bool) (e : RegistryEnv V R S) (k : ℕ)
      → e.registry.next_id + 1 < 18446744073709551616
      → ((j : ℕ) → e.registry.next_id < j → lookup j e.registry.scalars ≡ none)
      → e.registry.next_id + 1 < k
      → let e' = (register_func x y name (ok f) is_pure e).1 in
        (e'.registry.next_id ≡ e.registry.next_id + 1)
        × (lookup e'.registry.next_id e.registry.scalars ≡ none)
        × (lookup k e'.registry.scalars ≡ none)
  register_func_fresh name f is_pure e k h below above =
      let n = e.registry.next_id in
      let next = next_registry_id_lem n h in
      let given = given_id name f is_pure e ∙ next in
      let other : k == next_registry_id n ≡ false = ground (arith, next, above) in
      (
        given,
        rw given (below (n + 1) (omega arith)),
        lookup-register_func name f is_pure e k
            ∙ ground (arith, other, below k (omega (arith, above))),
      )

  -- A function that SQLite took, and whose destructor it has not called, is run by a call of its number: if
  -- every argument is decoded by the decoder at its place, and the Go function returns for the decoded
  -- values, then the call gives to SQLite what the function's encoder makes of what it returned.
  pub invoke-register_func :
      (name : Text) (f : ScalarFunction V R) (is_pure : Bool) (e : RegistryEnv V R S) (vs : List V)
      (gs : List Argument) (results : List Reflected)
      → let id = next_registry_id e.registry.next_id in
        let called = y.create_function e.db name (length f.args) is_pure id e.lib in
        called.0 ==ℤ sqlite_ok ≡ true
        → one_of id called.1 ≡ false
        → Decodes f.args vs gs
        → f.call gs ≡ some results
        → invoke_scalar id vs (register_func x y name (ok f) is_pure e).1.registry
          ≡ f.return_func results
  unfolding invoke_scalar
  invoke-register_func name f is_pure e vs gs results h n d r =
      let id = next_registry_id e.registry.next_id in
      let found : lookup id (register_func x y name (ok f) is_pure e).1.registry.scalars ≡ some f =
        lookup-register_func name f is_pure e id ∙ ground (arith, h, n) in
      ap (λ o. call_scalar o vs) found ∙ call_scalar-Decodes f vs gs results d r
