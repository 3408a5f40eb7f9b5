-- ===== src/Sqlite3/Bind/Assigns.antt =====
-- sqlite3.go: what the parameters of a statement are bound to.
use purego_gen.Prelude.{
  ◌≡◌, refl, sym, ap, subst, ◌∙◌, ◌⊎◌, inl, inr, true, false, List, [], ◌∷◌, Option, none, some,
  if◌then◌else◌, arith, Bool-cases,
}
use purego_gen.Prelude.Int.{ℤ, pos, to_int32, ◌==ℤ◌}
use purego_gen.Prelude.Text.{Text, is_empty}
use purego_gen.Go.{Value, NamedValue}
use purego_gen.Go.Exec.{ok, lift, ◌>>=◌}
use purego_gen.Sqlite3.Codes.{sqlite_ok}
use purego_gen.Sqlite3.Extern.{Extern, Handle, Binding}
use purego_gen.Sqlite3.State.{StmtEnv}
use purego_gen.Sqlite3.Values.{normalize_value}
use purego_gen.Sqlite3.Bind.{
  on_handle, bind_result, first_index, candidates, resolve_index, bind_arg, bind_args,
  bind_named_values,
}
use purego_gen.Sqlite3.Bind.Binds.{HasBinding, IsCall, stored, continue-ok, bound, arg-Binds}

-- The parameters of a statement by their index.
abbrev pub Params : Type 0
Params = ℤ → Option Binding

abbrev pub unbound : Params
unbound i = none

abbrev pub put : ℤ → Binding → Params → Params
put i b p j = if j ==ℤ i then some b else p j

-- The first name that is the name of a parameter, by an index that is not 0.
abbrev pub IsFirst : (Text → ℤ) → List Text → ℤ → Type 0
IsFirst index [] i = ⊥
IsFirst index (n ∷ ns) i =
    ((index n ==ℤ pos 0 ≡ false) × (i ≡ index n))
    ⊎ ((index n ==ℤ pos 0 ≡ true) × IsFirst index ns i)

-- The parameter of an argument: by its ordinal, or by its name, alone or after `:`, `@` or `$`.
abbrev pub HasIndex : (Text → ℤ) → NamedValue → ℤ → Type 0
HasIndex index arg i =
    ((is_empty arg.name ≡ true) × (i ≡ to_int32 arg.ordinal))
    ⊎ ((is_empty arg.name ≡ false)
        × IsFirst index (arg.name ∷ (b':' ∷ arg.name) ∷ (b'@' ∷ arg.name) ∷ (b'$' ∷ arg.name) ∷ [])
            i)

-- One argument after the other is assigned to its parameter.
abbrev pub Assigns : (Text → ℤ) → List NamedValue → Params → Params → Type 0
Assigns index [] p q = q ≡ p
Assigns index (arg ∷ args) p q =
    (i : ℤ) × (v : Value) × (b : Binding) × HasIndex index arg i
    × (normalize_value arg.value ≡ ok v)
    × HasBinding v b
    × Assigns index args (put i b p) q

-- What sqlite3.h says of bound parameters: binding one that succeeds, a text being a C string, changes it alone,
-- and with a NULL pointer binds NULL; clearing unbinds all; and none of that renames them.
pub record KeepsParams {S : Type 0} (x : Extern S) (params : Handle → S → Params) : Type 0 where
  pub clear_params : (h : Handle) (s : S) → params h (x.clear_bindings h s).1 ≡ unbound
  pub bind_params :
      (h : Handle) (i : ℤ) (b : Binding) (s : S)
      → IsCall b
      → (x.bind_value h i b s).0 ==ℤ sqlite_ok ≡ true
      → params h (x.bind_value h i b s).1 ≡ put i (stored b) (params h s)
  pub reset_index :
      (h : Handle) (n : Text) (s : S)
      → x.bind_parameter_index h n (x.reset h s).1 ≡ x.bind_parameter_index h n s
  pub clear_index :
      (h : Handle) (n : Text) (s : S)
      → x.bind_parameter_index h n (x.clear_bindings h s).1 ≡ x.bind_parameter_index h n s
  pub bind_index :
      (h : Handle) (n : Text) (i : ℤ) (b : Binding) (s : S)
      → x.bind_parameter_index h n (x.bind_value h i b s).1 ≡ x.bind_parameter_index h n s

module _ {S : Type 0} (x : Extern S) where
  first_index-IsFirst :
      (index : Text → ℤ) (h : Handle) (s : S) (ns : List Text) (i : ℤ)
      → ((n : Text) → x.bind_parameter_index h n s ≡ index n)
      → first_index x h ns s ≡ some i
      → IsFirst index ns i
  first_index-IsFirst index h s [] i same e = ground arith
  first_index-IsFirst index h s (n ∷ ns) i same e = elim (Bool-cases (index n ==ℤ pos 0)) [
    | inl none_of ↦ inr (none_of, first_index-IsFirst index h s ns i same (ground (arith, same n)))
    | inr found ↦ inl (found, ground (arith, same n))
  ]

  resolve_index-HasIndex :
      (index : Text → ℤ) (arg : NamedValue) (e : StmtEnv S) (i : ℤ)
      → ((n : Text) → x.bind_parameter_index e.stmt.handle n e.lib ≡ index n)
      → resolve_index x arg e ≡ ok i
      → HasIndex index arg i
  unfolding resolve_index
  resolve_index-HasIndex index arg e i same h = elim (Bool-cases (is_empty arg.name)) [
    | inl no_name ↦ inl (no_name, ground arith)
    | inr named ↦ inr (
      named,
      first_index-IsFirst index e.stmt.handle e.lib (candidates x arg.name) i same (ground arith),
    )
  ]

  abbrev cleared : StmtEnv S → StmtEnv S
  cleared e = record e {
    env = record e.env { lib = (x.clear_bindings e.stmt.handle (x.reset e.stmt.handle e.lib).1).1 };
  }

  bind_named_values-bind_args :
      (args : List NamedValue) (e : StmtEnv S)
      → (bind_named_values x args e).0 ≡ ok tt
      → bind_named_values x args e ≡ bind_args x args (cleared e)
  unfolding bind_named_values on_handle bind_result ◌>>=◌
  bind_named_values-bind_args args e h = ground arith

module _ {S : Type 0} {x : Extern S} {params : Handle → S → Params}
    (law : KeepsParams x params) where
  bind_args-Assigns :
      (index : Text → ℤ) (args : List NamedValue) (e : StmtEnv S)
      → ((n : Text) → x.bind_parameter_index e.stmt.handle n e.lib ≡ index n)
      → (bind_args x args e).0 ≡ ok tt
      → Assigns index args
          (params e.stmt.handle e.lib)
          (params e.stmt.handle (bind_args x args e).1.lib)
  unfolding bind_args bind_arg ◌>>=◌ lift
  bind_args-Assigns index [] e same h = refl
  bind_args-Assigns index (arg ∷ args) e same h =
      let (u, done, more) =
        continue-ok (bind_arg x arg e).0 (λ w. bind_args x args) (bind_arg x arg e).1 tt h in
      let (i, v, found, normal, binds) = arg-Binds x arg e done in
      let (b, has, call, success, after) = binds in
      let rest =
        bind_args-Assigns index args (bound x i b e)
          (λ n. law.bind_index e.stmt.handle n i b e.lib ∙ same n)
          (subst (λ w. (bind_args x args w).0 ≡ ok tt) after more) in
      (
        i,
        v,
        stored b,
        resolve_index-HasIndex x index arg e i same found,
        normal,
        has,
        rw (done, after)
            (subst
              (λ p.
                Assigns index args p
                  (params e.stmt.handle (bind_args x args (bound x i b e)).1.lib))
              (law.bind_params e.stmt.handle i b e.lib call success) rest),
      )

  -- If binding a list of arguments succeeds, the parameters of the statement are bound as if each argument in
  -- its turn were assigned to its parameter, on parameters that are all unbound: the parameter of its ordinal, or
  -- the first that has its name, alone or after one of the signs `:`, `@` and `$`; and the value is the driver value
  -- that normalizeValue makes of the argument, as SQLite stores it: a text up to its first zero byte only, as
  -- BindText passes no length, and NULL for bytes without any.
  pub bind_named_values-Assigns :
      (args : List NamedValue) (e : StmtEnv S)
      → (bind_named_values x args e).0 ≡ ok tt
      → Assigns
          (λ n. x.bind_parameter_index e.stmt.handle n e.lib)
          args
          unbound
          (params e.stmt.handle (bind_named_values x args e).1.lib)
  bind_named_values-Assigns args e h =
      let same = bind_named_values-bind_args x args e h in
      let s = (x.reset e.stmt.handle e.lib).1 in
      let rest =
        bind_args-Assigns (λ n. x.bind_parameter_index e.stmt.handle n e.lib) args (cleared x e)
          (λ n. law.clear_index e.stmt.handle n s ∙ law.reset_index e.stmt.handle n e.lib)
          (ap (λ r. r.0) (sym same) ∙ h) in
      rw same (
        subst
          (λ p.
            Assigns (λ n. x.bind_parameter_index e.stmt.handle n e.lib) args p
              (params e.stmt.handle (bind_args x args (cleared x e)).1.lib))
          (law.clear_params e.stmt.handle s) rest)
