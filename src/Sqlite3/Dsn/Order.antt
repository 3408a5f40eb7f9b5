-- ===== src/Sqlite3/Dsn/Order.antt =====
-- sqlite3.go: the order in which parseDSN goes through the keys of a query.
use mathlib.Core.List.{Permᴰ, Pairwise, mem-cons_self, rel_of_Pairwise-cons}
use mathlib.Core.List.Permᴰ
use mathlib.Core.List.Pairwise
use purego_gen.Prelude.{
  ◌≡◌, refl, sym, ◌≢◌, subst, ◌∙◌, Bool, true, false, List, ◌∷◌, Option, none, some, arith, ◌==◌,
  if◌then◌else◌,
}
use purego_gen.Prelude.Int.{ℤ}
use purego_gen.Prelude.Text.{Text}
use purego_gen.Go.{GoError}
use purego_gen.Go.Exec.{Outcome, ok, err, panics, diverges}
use purego_gen.Go.Url.{Values, parse_query}
use purego_gen.Go.Url.Maps.{put-put}
use purego_gen.Sqlite3.State.{ConnectionConfig}
use purego_gen.Sqlite3.Dsn.{
  Setting, busy_timeout, foreign_keys, journal_mode, synchronous, tx_lock, location, mode, cache,
  plain, Parsed, or_uri, apply_setting, applied, and_then, setting_of, parse_entries, mode_setting,
  timeout_setting, on_ok, split_dsn, finished, parse_dsn,
}

-- Two branches that write the same field, under two names of it.
abbrev pub clash : Setting → Setting → Bool
clash (busy_timeout a) (busy_timeout b) = true
clash (foreign_keys a) (foreign_keys b) = true
clash (journal_mode a) (journal_mode b) = true
clash (synchronous a) (synchronous b) = true
clash (tx_lock a) (tx_lock b) = true
clash (location a) (location b) = true
clash (mode a) (mode b) = true
clash _ _ = false

-- Every mode sets the URI bit, so that setting it before or after makes no difference.
abbrev has_uri : Setting → Bool
has_uri (mode flags) = or_uri flags == flags
has_uri _ = true

apply_comm :
    (k j : Text) (v w : List Text) (s t : Setting) (p : Parsed)
    → k ≢ j
    → clash s t ≡ false
    → has_uri s ≡ true
    → has_uri t ≡ true
    → apply_setting j w t (apply_setting k v s p) ≡ apply_setting k v s (apply_setting j w t p)
unfolding apply_setting
apply_comm k j v w (mode a) (mode b) p n c hs ht = cc
apply_comm k j v w cache (plain b) p n c hs ht = ground (arith, put-put k j v w p.preserved n)
apply_comm k j v w (plain a) (plain b) p n c hs ht = ground (arith, put-put k j v w p.preserved n)
apply_comm k j v w s t p n c hs ht = ground (arith, put-put k j v w p.preserved n)

abbrev outcome_uri : Outcome Setting → Bool
outcome_uri (ok s) = has_uri s
outcome_uri _ = true

record SetsUri (r : Outcome Setting) : Type 0 where
  sets : outcome_uri r ≡ true

SetsUri-if :
    (c : Bool) (a b : Outcome Setting) → SetsUri a → SetsUri b → SetsUri (if c then a else b)
SetsUri-if true a b h k = h
SetsUri-if false a b h k = k

SetsUri-ok : (s : Setting) → has_uri s ≡ true → SetsUri (ok s)
SetsUri-ok s h = record { sets = h }

SetsUri-err : (e : GoError) → SetsUri (err e)
SetsUri-err e = record { sets = refl }

SetsUri-on_ok :
    {A : Type 0} (f : A → Setting) (r : Outcome A)
    → ((a : A) → has_uri (f a) ≡ true)
    → SetsUri (on_ok f r)
SetsUri-on_ok f (ok a) h = record { sets = h a }
SetsUri-on_ok f (err e) h = record { sets = refl }
SetsUri-on_ok f panics h = record { sets = refl }
SetsUri-on_ok f diverges h = record { sets = refl }

SetsUri-timeout : (t : Text) (n : Option ℤ) → SetsUri (timeout_setting t n)
unfolding timeout_setting
SetsUri-timeout t none = record { sets = refl }
SetsUri-timeout t (some n) = record { sets = refl }

SetsUri-mode : (t : Text) → SetsUri (mode_setting t)
unfolding mode_setting
SetsUri-mode t = search (SetsUri-if, SetsUri-ok, SetsUri-err) depth 12

SetsUri-switch : (r : Outcome Bool) → SetsUri (on_ok foreign_keys r)
SetsUri-switch r = SetsUri-on_ok foreign_keys r (λ a. refl)

SetsUri-location : (r : Outcome (Option Text)) → SetsUri (on_ok location r)
SetsUri-location r = SetsUri-on_ok location r (λ a. refl)

module _ (load_location : Text → Option GoError) where
  setting_of-SetsUri : (k : Text) (v : List Text) → SetsUri (setting_of load_location k v)
  unfolding setting_of
  setting_of-SetsUri k v =
      search
        (SetsUri-if, SetsUri-ok, SetsUri-timeout, SetsUri-mode, SetsUri-switch, SetsUri-location)
        depth 20

  -- Two entries of a query: their keys differ, and do not name one option.
  abbrev clashes : Outcome Setting → Outcome Setting → Bool
  clashes (ok s) (ok t) = clash s t
  clashes _ _ = false

  abbrev pub IsApart : Text × List Text → Text × List Text → Type 0
  IsApart (k, v) (j, w) =
      (k ≢ j) × (clashes (setting_of load_location k v) (setting_of load_location j w) ≡ false)

  swap_step :
      (k j : Text) (v w : List Text) (r q : Outcome Setting) (p : Parsed)
      → k ≢ j
      → clashes r q ≡ false
      → outcome_uri r ≡ true
      → outcome_uri q ≡ true
      → (es : Values) (c : Parsed)
      → and_then
          (applied k v r p)
          (λ p'. and_then (applied j w q p') (parse_entries load_location es))
        ≡ ok c
      → and_then
          (applied j w q p)
          (λ p'. and_then (applied k v r p') (parse_entries load_location es))
        ≡ ok c
  swap_step k j v w (ok s) (ok t) p n c hs ht es d h =
      subst (λ x. parse_entries load_location es x ≡ ok d) (apply_comm k j v w s t p n c hs ht) h
  swap_step k j v w (ok s) (err e) p n c hs ht es d h = cc
  swap_step k j v w (ok s) panics p n c hs ht es d h = cc
  swap_step k j v w (ok s) diverges p n c hs ht es d h = cc
  swap_step k j v w (err e) q p n c hs ht es d h = cc
  swap_step k j v w panics q p n c hs ht es d h = cc
  swap_step k j v w diverges q p n c hs ht es d h = cc

  clash_symm : (s t : Setting) → clash s t ≡ clash t s
  clash_symm (plain a) (plain b) = refl
  clash_symm s t = ground arith

  clashes_symm : (r q : Outcome Setting) → clashes r q ≡ clashes q r
  clashes_symm (ok s) (ok t) = clash_symm s t
  clashes_symm (ok s) q = ground arith
  clashes_symm r q = ground arith

  pub IsApart-prop : (a b : Text × List Text) → IsProp (IsApart a b)
  IsApart-prop a b = hlevel

  IsApart-symm : (a b : Text × List Text) → IsApart a b → IsApart b a
  IsApart-symm a b h = (λ e. h.0 (sym e), clashes_symm _ _ ∙ h.1)

  next-perm :
      (r : Outcome Parsed) (f g : Parsed → Outcome Parsed) (c : Parsed)
      → ((p : Parsed) → f p ≡ ok c → g p ≡ ok c)
      → and_then r f ≡ ok c
      → and_then r g ≡ ok c
  next-perm (ok p) f g c k h = k p h
  next-perm (err e) f g c k h = cc
  next-perm panics f g c k h = cc
  next-perm diverges f g c k h = cc

  swap_entries :
      (a b : Text × List Text) (es : Values) (p c : Parsed)
      → IsApart a b
      → parse_entries load_location (a ∷ b ∷ es) p ≡ ok c
      → parse_entries load_location (b ∷ a ∷ es) p ≡ ok c
  unfolding parse_entries
  swap_entries (k, v) (j, w) es p c n h =
      swap_step k j v w (setting_of load_location k v) (setting_of load_location j w) p n.0 n.1
        (setting_of-SetsUri k v).sets (setting_of-SetsUri j w).sets es c h

  -- Two orders of the same entries: if the loop succeeds in one order, so it does in the other, with the
  -- same result.
  pub parse_entries-perm :
      {es fs : Values}
      → Permᴰ es fs
      → Pairwise IsApart es
      → (p c : Parsed) → parse_entries load_location es p ≡ ok c
      → parse_entries load_location fs p ≡ ok c
  unfolding parse_entries
  parse_entries-perm Permᴰ.nil a p c h = h
  parse_entries-perm (Permᴰ.cons {a = a} {b = b} {l₁ = es} {l₂ = fs} e d) t p c h =
      subst (λ x. parse_entries load_location (x ∷ fs) p ≡ ok c) e
        (next-perm _ _ _ c (λ q. parse_entries-perm d (Pairwise.of_cons t) q c) h)
  parse_entries-perm (Permᴰ.swap {a = a} {b = b} {b' = b'} {l = es} e f) t p c h =
      subst (λ x. parse_entries load_location (x ∷ b' ∷ es) p ≡ ok c) f
        (subst (λ x. parse_entries load_location (b ∷ x ∷ es) p ≡ ok c) e
          (swap_entries a b es p c (rel_of_Pairwise-cons t mem-cons_self) h))
  parse_entries-perm (Permᴰ.trans d e) a p c h =
      parse_entries-perm e (Permᴰ.pairwise {R = IsApart} IsApart-prop IsApart-symm d a) p c
        (parse_entries-perm d a p c h)

  -- Two orders of the keys of the query of a data source name: where parseDSN succeeds in one, it succeeds
  -- in the other, with the same configuration, if no two keys name one option.
  pub parse_dsn_order :
      (range order : Values → Values) (name : Text) (values : Values) (c : ConnectionConfig)
      → parse_query (split_dsn name).1 ≡ some values
      → Permᴰ values (range values)
      → Permᴰ values (order values)
      → Pairwise IsApart values
      → parse_dsn load_location range name ≡ ok c
      → parse_dsn load_location order name ≡ ok c
  unfolding parse_dsn
  parse_dsn_order range order name values c q r o apart h = rw q (
      again _ _ (λ p k. parse_entries-perm (Permᴰ.trans (Permᴰ.symm r) o) range_apart _ p k)
        (rw q at h))
    where
      range_apart : Pairwise IsApart (range values)
      range_apart = Permᴰ.pairwise {R = IsApart} IsApart-prop IsApart-symm r apart

      again :
          (x y : Outcome Parsed)
          → ((p : Parsed) → x ≡ ok p → y ≡ ok p)
          → finished load_location (split_dsn name).0 x ≡ ok c
          → finished load_location (split_dsn name).0 y ≡ ok c
      again (ok p) y k g = rw (k p refl) g
      again (err e) y k g = cc
      again panics y k g = cc
      again diverges y k g = cc
