-- ===== src/Prelude/Results.antt =====
-- `io::Result`: a value or an error. Of an error the model keeps the kind and the operating system's
-- error number; its message is text for a reader.
use Prim.Native.Nat.{ℕ}
use mathlib.Core.Path.{◌≡◌, refl}
use mathlib.Core.Bool.{Bool, true, false}
use mathlib.Core.Option.{Option, none, some}

pub data ErrorKind : Type 0 where
  invalid_input invalid_data unexpected_eof not_found unsupported other : ErrorKind

pub record IoError : Type 0 where
  pub kind : ErrorKind
  pub raw_os_error : Option ℕ

pub data Result {ℓ} (A : Type ℓ) : Type ℓ where
  ok : A → Result A
  err : IoError → Result A

-- `io::Error::new(kind, …)`
abbrev pub io_error : ErrorKind → IoError
io_error k = record { kind = k; raw_os_error = none }

abbrev pub fail {ℓ} : {A : Type ℓ} → ErrorKind → Result A
fail k = err (io_error k)

module _ {κ} {U : Type κ} where
  infixl 5 ◌>>=◌ ◌>>◌
  -- The operator `?`.
  abbrev pub ◌>>=◌ {ℓ} : {T : Type ℓ} → Result T → (T → Result U) → Result U
  err failure >>= next = err failure
  ok value >>= next = next value

  abbrev pub ◌>>◌ : Result (Unit {0}) → Result U → Result U
  first >> second = first >>= (λ _. second)

  pub >>=-eq-ok {ℓ} :
      {T : Type ℓ} (outcome : Result T) (next : T → Result U) {b : U}
      → (outcome >>= next) ≡ ok b
      → (value : T) × (outcome ≡ ok value) × (next value ≡ ok b)
  >>=-eq-ok (err failure) next h = cc
  >>=-eq-ok (ok value) next h = (value, refl, h)

-- `if test { return Err(…) }`
abbrev pub refuse_if : Bool → ErrorKind → Result (Unit {0})
refuse_if true k = fail k
refuse_if false k = ok tt

-- A guard that lets its continuation succeed did not hold.
pub refuse_if-ok {ℓ} :
    {A : Type ℓ} (test : Bool) (k : ErrorKind) (rest : Result A) {a : A}
    → (refuse_if test k >> rest) ≡ ok a
    → (test ≡ false) × (rest ≡ ok a)
refuse_if-ok true k rest h = absurd (cc)
refuse_if-ok false k rest h = (refl, h)

-- `ok_or_else` with an invalid input.
abbrev pub required {ℓ} : {A : Type ℓ} → Option A → Result A
required none = fail invalid_input
required (some value) = ok value

pub required-ok {ℓ} : {A : Type ℓ} (o : Option A) {a : A} → required o ≡ ok a → o ≡ some a
required-ok none h = absurd (cc)
required-ok (some b) h = cc
