-- ===== src/Libload/Dedupe.antt =====
-- libload.go: dedupe keeps the first occurrence of every value that is not empty.
use purego_gen.Prelude.{
  ◌≡◌, refl, ◌∙◌, ap, true, not, ◌&&◌, List, [], ◌∷◌, arith, if◌then◌else◌, Bool-cases, inl, inr,
}
use purego_gen.Prelude.Text.{Text, text_eq, text_eq_sound, is_empty}
use purego_gen.Libload.{has, dedupe_from, dedupe}

abbrev without : Text → List Text → List Text
without t [] = []
without t (u ∷ us) = let rest = without t us in if text_eq u t then rest else u ∷ rest

-- Each value that is not empty, without the later ones that equal it.
abbrev pub first_occurrences : List Text → List Text
first_occurrences [] = []
first_occurrences (v ∷ vs) =
    let rest = first_occurrences vs in if is_empty v then rest else v ∷ without v rest

abbrev unseen : List Text → List Text → List Text
unseen seen [] = []
unseen seen (t ∷ ts) = let rest = unseen seen ts in if has t seen then rest else t ∷ rest

unseen-none : (ts : List Text) → unseen [] ts ≡ ts
unseen-none [] = refl
unseen-none (t ∷ ts) = ap (λ us. t ∷ us) (unseen-none ts)

unseen-without_seen :
    (v : Text) (seen ts : List Text)
    → has v seen ≡ true
    → unseen seen (without v ts) ≡ unseen seen ts
unseen-without_seen v seen [] h = refl
unseen-without_seen v seen (u ∷ us) h = elim (Bool-cases (text_eq u v)) [
  | inl same ↦ simp same (rw (text_eq_sound u v same, h) (unseen-without_seen v seen us h))
  | inr other ↦ simp other (ground (arith, unseen-without_seen v seen us h))
]

unseen-without :
    (v : Text) (seen ts : List Text) → unseen (v ∷ seen) ts ≡ unseen seen (without v ts)
unseen-without v seen [] = refl
unseen-without v seen (u ∷ us) = ground (arith, unseen-without v seen us)

dedupe_from-unseen :
    (seen vs : List Text) → dedupe_from seen vs ≡ unseen seen (first_occurrences vs)
unfolding dedupe_from
dedupe_from-unseen seen [] = refl
dedupe_from-unseen seen (v ∷ vs) = ground (
  arith,
  dedupe_from-unseen seen vs,
  dedupe_from-unseen (v ∷ seen) vs,
  unseen-without_seen v seen (first_occurrences vs),
  unseen-without v seen (first_occurrences vs),
)

-- dedupe keeps the first occurrence of each value that is not empty, in the order of the list, and
-- nothing else.
pub dedupe_lem : (vs : List Text) → dedupe vs ≡ first_occurrences vs
unfolding dedupe
dedupe_lem vs = dedupe_from-unseen [] vs ∙ unseen-none (first_occurrences vs)

has-without : (t v : Text) (us : List Text) → has t (without v us) ≡ has t us && not (text_eq t v)
has-without t v [] = refl
has-without t v (u ∷ us) = elim (Bool-cases (text_eq u v)) [
  | inl same ↦ simp same (rw (text_eq_sound u v same) (ground (arith, has-without t v us)))
  | inr other ↦ simp other (ground (arith, has-without t v us, text_eq_sound t u))
]

has-first_occurrences :
    (t : Text) (vs : List Text) → has t (first_occurrences vs) ≡ not (is_empty t) && has t vs
has-first_occurrences t [] = ground arith
has-first_occurrences t (v ∷ vs) =
    ground
      (arith, has-without t v (first_occurrences vs), has-first_occurrences t vs, text_eq_sound t v)

-- The values of dedupe are those of the list that are not empty.
pub has-dedupe : (t : Text) (vs : List Text) → has t (dedupe vs) ≡ not (is_empty t) && has t vs
has-dedupe t vs = rw (dedupe_lem vs) (has-first_occurrences t vs)
