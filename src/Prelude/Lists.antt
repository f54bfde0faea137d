-- ===== src/Prelude/Lists.antt =====
-- Lists measured by native numbers, searches by a Boolean test, membership and its laws.
use Prim.Native.Nat.{ℕ, zero, suc, ◌+◌}
use mathlib.Core.Path.{◌≡◌, refl, ap}
use mathlib.Core.Logic.{◌⊎◌, inl, inr}
use mathlib.Core.Bool.{Bool, true, false, ◌&&◌, ◌||◌}
use mathlib.Core.List.{List, [], ◌∷◌, ◌++◌, map}
use mathlib.Core.Option.{Option, none, some}
use native.Mathlib.Omega.{arith}
use simferret.Prelude.Tests.{if◌then◌else◌, Bool-cases, Option-cases}

module _ {ℓ} {A : Type ℓ} where
  abbrev pub length : List A → ℕ
  length [] = 0
  length (x ∷ xs) = suc (length xs)

  abbrev pub get_elem? : List A → ℕ → Option A
  get_elem? [] i = none
  get_elem? (x ∷ xs) zero = some x
  get_elem? (x ∷ xs) (suc i) = get_elem? xs i

  abbrev pub take : ℕ → List A → List A
  take zero xs = []
  take (suc n) [] = []
  take (suc n) (x ∷ xs) = x ∷ take n xs

  abbrev pub drop : ℕ → List A → List A
  drop zero xs = xs
  drop (suc n) [] = []
  drop (suc n) (x ∷ xs) = drop n xs

  pub length-append : (xs ys : List A) → length (xs ++ ys) ≡ length xs + length ys
  length-append [] ys = omega arith
  length-append (x ∷ xs) ys = omega (arith, length-append xs ys)

  pub take-append-drop : (n : ℕ) (xs : List A) → take n xs ++ drop n xs ≡ xs
  take-append-drop zero xs = refl
  take-append-drop (suc n) [] = refl
  take-append-drop (suc n) (x ∷ xs) = ap (◌∷◌ x) (take-append-drop n xs)

  -- The slice's iterator methods: `find`, `any`, `all`, `first`, `last`.
  abbrev pub find : (A → Bool) → List A → Option A
  find p [] = none
  find p (x ∷ xs) = if p x then some x else find p xs

  abbrev pub any : (A → Bool) → List A → Bool
  any p [] = false
  any p (x ∷ xs) = p x || any p xs

  abbrev pub all : (A → Bool) → List A → Bool
  all p [] = true
  all p (x ∷ xs) = p x && all p xs

  abbrev pub first : List A → Option A
  first [] = none
  first (x ∷ xs) = some x

  abbrev pub last : List A → Option A
  last [] = none
  last (x ∷ []) = some x
  last (x ∷ y ∷ ys) = last (y ∷ ys)

  abbrev pub or_else : Option A → Option A → Option A
  or_else none o = o
  or_else (some a) o = some a

  -- The number of elements that pass a test.
  abbrev pub count : (A → Bool) → List A → ℕ
  count p [] = 0
  count p (x ∷ xs) = if p x then suc (count p xs) else count p xs

module _ {ℓ κ} {A : Type ℓ} {B : Type κ} where
  abbrev pub find_map : (A → Option B) → List A → Option B
  find_map f [] = none
  find_map f (x ∷ xs) = or_else (f x) (find_map f xs)

  abbrev pub and_then : Option A → (A → Option B) → Option B
  and_then none f = none
  and_then (some a) f = f a

-- Membership that keeps the position, and a predicate of every element.
pub data In {ℓ} {A : Type ℓ} (x : A) : List A → Type ℓ where
  here : {y : A} {ys : List A} → x ≡ y → In x (y ∷ ys)
  there : {y : A} {ys : List A} → In x ys → In x (y ∷ ys)

abbrev pub All {ℓ κ} : {A : Type ℓ} → (A → Type κ) → List A → Type κ
All P [] = Unit
All P (x ∷ xs) = P x × All P xs

module _ {ℓ} {A : Type ℓ} where
  pub All-In {κ} : (P : A → Type κ) (xs : List A) {x : A} → All P xs → In x xs → P x
  All-In P [] h m = elim m [ ]
  All-In P (y ∷ ys) h (here e) = rw e h.0
  All-In P (y ∷ ys) h (there m) = All-In P ys h.1 m

  pub All-of_In {κ} : (P : A → Type κ) (xs : List A) → ((x : A) → In x xs → P x) → All P xs
  All-of_In P [] h = tt
  All-of_In P (y ∷ ys) h = (h y (here refl), All-of_In P ys (λ x m. h x (there m)))

  pub All-append {κ} : (P : A → Type κ) (xs ys : List A) → All P xs → All P ys → All P (xs ++ ys)
  All-append P [] ys h k = k
  All-append P (x ∷ xs) ys h k = (h.0, All-append P xs ys h.1 k)

  pub In-append_left : (xs ys : List A) {x : A} → In x xs → In x (xs ++ ys)
  In-append_left [] ys m = elim m [ ]
  In-append_left (y ∷ xs) ys (here e) = here e
  In-append_left (y ∷ xs) ys (there m) = there (In-append_left xs ys m)

  pub In-append_right : (xs ys : List A) {x : A} → In x ys → In x (xs ++ ys)
  In-append_right [] ys m = m
  In-append_right (y ∷ xs) ys m = there (In-append_right xs ys m)

  pub In-append_cases : (xs ys : List A) {x : A} → In x (xs ++ ys) → In x xs ⊎ In x ys
  In-append_cases [] ys m = inr m
  In-append_cases (y ∷ xs) ys (here e) = inl (here e)
  In-append_cases (y ∷ xs) ys (there m) = elim (In-append_cases xs ys m) [
    | inl l ↦ inl (there l)
    | inr r ↦ inr r
  ]

  -- A search returns an element that passes, and none only where no element passes.
  pub find-some : (p : A → Bool) (xs : List A) (x : A) → find p xs ≡ some x → In x xs × (p x ≡ true)
  find-some p [] x h = absurd (cc)
  find-some p (y ∷ ys) x h = elim (Bool-cases (p y)) [
    | inl e ↦ (here (ground arith), ground arith)
    | inr e ↦ let r = find-some p ys x (ground arith) in (there r.0, r.1)
  ]

  pub find-none : (p : A → Bool) (xs : List A) → find p xs ≡ none → All (λ x. p x ≡ false) xs
  find-none p [] h = tt
  find-none p (y ∷ ys) h = (ground arith, find-none p ys (ground arith))

  pub find_complete :
      (p : A → Bool) (xs : List A) {x : A} → In x xs → p x ≡ true → (y : A) × (find p xs ≡ some y)
  find_complete p [] m h = elim m [ ]
  find_complete p (y ∷ ys) (here e) h = (y, ground arith)
  find_complete p (y ∷ ys) (there m) h = elim (Bool-cases (p y)) [
    | inl e ↦ (y, ground arith)
    | inr e ↦ let r = find_complete p ys m h in (r.0, ground (arith, r.1))
  ]

module _ {ℓ κ} {A : Type ℓ} {B : Type κ} where
  pub find_map-some :
      (f : A → Option B) (xs : List A) (b : B)
      → find_map f xs ≡ some b
      → (x : A) × In x xs × (f x ≡ some b)
  find_map-some f [] b h = absurd (cc)
  find_map-some f (y ∷ ys) b h = elim (Option-cases (f y)) [
    | inl e ↦ let r = find_map-some f ys b (ground arith) in (r.0, there r.1, r.2)
    | inr (c, e) ↦ (y, here refl, ground arith)
  ]

  pub find_map-none :
      (f : A → Option B) (xs : List A) → find_map f xs ≡ none → All (λ x. f x ≡ none) xs
  find_map-none f [] h = tt
  find_map-none f (y ∷ ys) h = (ground arith, find_map-none f ys (ground arith))

  pub find_map_of_none :
      (f : A → Option B) (xs : List A) → ((x : A) → In x xs → f x ≡ none) → find_map f xs ≡ none
  find_map_of_none f [] h = refl
  find_map_of_none f (y ∷ ys) h =
      rw (h y (here refl)) (find_map_of_none f ys (λ x m. h x (there m)))

  pub find_map_complete :
      (f : A → Option B) (xs : List A) {x : A} {b : B}
      → In x xs
      → f x ≡ some b
      → (c : B) × (find_map f xs ≡ some c)
  find_map_complete f [] m h = elim m [ ]
  find_map_complete f (y ∷ ys) {b = b} (here e) h = (b, rw (← e) (rw h))
  find_map_complete f (y ∷ ys) (there m) h = elim (Option-cases (f y)) [
    | inl e ↦ let r = find_map_complete f ys m h in (r.0, ground (arith, r.1))
    | inr (c, e) ↦ (c, ground arith)
  ]

  pub length-map : (f : A → B) (xs : List A) → length (map f xs) ≡ length xs
  length-map f [] = refl
  length-map f (x ∷ xs) = ap suc (length-map f xs)

  pub find_map-map {μ} :
      {C : Type μ} (g : C → A) (f : A → Option B) (xs : List C)
      → find_map f (map g xs) ≡ find_map (λ x. f (g x)) xs
  find_map-map g f [] = refl
  find_map-map g f (x ∷ xs) = ap (or_else (f (g x))) (find_map-map g f xs)

-- Inversion of a guarded search and of a chained one.
module _ {ℓ} {A : Type ℓ} where
  pub if-some :
      (b : Bool) (o : Option A) (a : A)
      → (if b then o else none) ≡ some a
      → (b ≡ true) × (o ≡ some a)
  if-some true o a h = (refl, h)
  if-some false o a h = absurd (cc)

  pub and_then-some {κ} :
      {B : Type κ} (o : Option B) (f : B → Option A) (a : A)
      → and_then o f ≡ some a
      → (b : B) × (o ≡ some b) × (f b ≡ some a)
  and_then-some none f a h = absurd (cc)
  and_then-some (some b) f a h = (b, refl, h)

  pub and_then-known {κ} :
      {B : Type κ} (o : Option B) (f : B → Option A) (b : B) → o ≡ some b → and_then o f ≡ f b
  and_then-known o f b h = ap (λ o'. and_then o' f) h
