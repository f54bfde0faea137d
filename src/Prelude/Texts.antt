-- ===== src/Prelude/Texts.antt =====
-- Texts and byte strings cut at a separator and put together again.
use Prim.Native.Nat.{ℕ}
use mathlib.Core.Path.{◌≡◌, refl, ap}
use mathlib.Core.Bool.{Bool, true, false, ◌&&◌, ◌||◌}
use mathlib.Core.List.{List, [], ◌∷◌, ◌++◌}
use native.Mathlib.Omega.{arith}
use simferret.Prelude.Tests.{◌==◌, if◌then◌else◌, same, Bool-cases}
use mathlib.Core.Logic.{inl, inr}
use simferret.Prelude.Lists.{any, All}
use simferret.Prelude.Encoding.{Bytes, Text, Text-discrete}

abbrev pub same_text : Text → Text → Bool
same_text = same Text-discrete

abbrev pub contains : Bytes → ℕ → Bool
contains text b = any (λ c. c == b) text

-- `starts_with`
unfoldable pub starts_with : Text → Text → Bool
starts_with text [] = true
starts_with [] (c ∷ prefix) = false
starts_with (d ∷ text) (c ∷ prefix) = (d == c) && starts_with text prefix

abbrev pub with_first : ℕ → List Bytes → List Bytes
with_first c [] = (c ∷ []) ∷ []
with_first c (part ∷ parts) = (c ∷ part) ∷ parts

-- `split`: the parts between the separators, at least one.
unfoldable pub split_on : ℕ → Bytes → List Bytes
split_on separator [] = [] ∷ []
split_on separator (c ∷ text) =
    let parts = split_on separator text in if c == separator then [] ∷ parts else with_first c parts

-- `join`
unfoldable pub join_with : ℕ → List Bytes → Bytes
join_with separator [] = []
join_with separator (part ∷ []) = part
join_with separator (part ∷ next ∷ parts) = part ++ separator ∷ join_with separator (next ∷ parts)

abbrev pub Lacks : ℕ → Bytes → Type 0
Lacks b text = contains text b ≡ false

pub contains-append :
    (xs ys : Bytes) (b : ℕ) → contains (xs ++ ys) b ≡ contains xs b || contains ys b
contains-append [] ys b = refl
contains-append (x ∷ xs) ys b = ground (arith, contains-append xs ys b)

-- A part without the separator is cut off whole.
pub split_on-append :
    (separator : ℕ) (part rest : Bytes)
    → Lacks separator part
    → split_on separator (part ++ separator ∷ rest) ≡ part ∷ split_on separator rest
unfolding split_on
split_on-append separator [] rest h = ground arith
split_on-append separator (c ∷ part) rest h = ground (arith, split_on-append separator part rest)

pub split_on_whole :
    (separator : ℕ) (part : Bytes) → Lacks separator part → split_on separator part ≡ part ∷ []
unfolding split_on
split_on_whole separator [] h = refl
split_on_whole separator (c ∷ part) h = ground (arith, split_on_whole separator part)

pub split_on-join_with :
    (separator : ℕ) (part : Bytes) (parts : List Bytes)
    → All (Lacks separator) (part ∷ parts)
    → split_on separator (join_with separator (part ∷ parts)) ≡ part ∷ parts
unfolding join_with
split_on-join_with separator part [] h = split_on_whole separator part h.0
split_on-join_with separator part (next ∷ parts) h =
    rw (split_on-append separator part (join_with separator (next ∷ parts)) h.0)
      (ap (◌∷◌ part) (split_on-join_with separator next parts h.1))

with_first-All :
    (c b : ℕ) (parts : List Bytes)
    → (c == b) ≡ false
    → All (Lacks b) parts
    → All (Lacks b) (with_first c parts)
with_first-All c b [] h k = ground arith
with_first-All c b (part ∷ parts) h k = ground arith

-- The parts hold no separator, and no byte that the text lacks.
pub split_on-Lacks_separator :
    (separator : ℕ) (text : Bytes) → All (Lacks separator) (split_on separator text)
unfolding split_on
split_on-Lacks_separator separator [] = (refl, tt)
split_on-Lacks_separator separator (c ∷ text) = elim (Bool-cases (c == separator)) [
  | inl e ↦ rw e (refl, split_on-Lacks_separator separator text)
  | inr e ↦ rw e (
      with_first-All c separator (split_on separator text) e
        (split_on-Lacks_separator separator text))
]

pub split_on-Lacks :
    (separator b : ℕ) (text : Bytes) → Lacks b text → All (Lacks b) (split_on separator text)
unfolding split_on
split_on-Lacks separator b [] h = (refl, tt)
split_on-Lacks separator b (c ∷ text) h = elim (Bool-cases (c == separator)) [
  | inl e ↦ rw e (refl, split_on-Lacks separator b text (ground arith))
  | inr e ↦ rw e (
      with_first-All c b (split_on separator text) (ground arith)
        (split_on-Lacks separator b text (ground arith)))
]

pub join_with-Lacks :
    (separator b : ℕ) (parts : List Bytes)
    → (separator == b) ≡ false
    → All (Lacks b) parts
    → Lacks b (join_with separator parts)
unfolding join_with
join_with-Lacks separator b [] h k = refl
join_with-Lacks separator b (part ∷ []) h k = k.0
join_with-Lacks separator b (part ∷ next ∷ parts) h k = ground (
  arith,
  contains-append part (separator ∷ join_with separator (next ∷ parts)) b,
  join_with-Lacks separator b (next ∷ parts) h,
)
