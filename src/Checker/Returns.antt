-- ===== src/Checker/Returns.antt =====
-- The early returns of the checker's properties, crates/simferret/src/checker.rs: each either fails or
-- goes on with the rest of the checks.
use simferret.Prelude.{
  ◌≡◌, refl, Bool, true, false, List, [], ◌∷◌, Option, none, some, if◌then◌else◌, first,
}
use simferret.Protocol.Violation.{Detail}
use simferret.Assertions.Report.{AssertionName, AssertionResult}

-- `failed` and `passed`
abbrev pub failed : AssertionName → Detail → AssertionResult
failed name detail = record { name = name; passed = false; detail = detail }

abbrev pub passed : AssertionName → Detail → AssertionResult
passed name detail = record { name = name; passed = true; detail = detail }

module _ (name : AssertionName) where
  -- `if test { return failed(…); }`
  unfoldable pub refuse : Bool → Detail → AssertionResult → AssertionResult
  refuse test detail rest = if test then failed name detail else rest

  -- `if let Some(a) = o { return failed(…); }`
  unfoldable pub absent {ℓ} :
      {A : Type ℓ} → Option A → (A → Detail) → AssertionResult → AssertionResult
  absent none detail rest = rest
  absent (some a) detail rest = failed name (detail a)

  -- `let Some(a) = o else { return failed(…); };`
  unfoldable pub require {ℓ} :
      {A : Type ℓ} → Option A → Detail → (A → AssertionResult) → AssertionResult
  require none detail rest = failed name detail
  require (some a) detail rest = rest a

-- What a passing result says of each early return.
module _ (name : AssertionName) where
  pub refuse-passed :
      (test : Bool) (detail : Detail) (rest : AssertionResult)
      → (refuse name test detail rest).passed ≡ true
      → (test ≡ false) × (rest.passed ≡ true)
  unfolding refuse
  refuse-passed true detail rest h = absurd (cc)
  refuse-passed false detail rest h = (refl, h)

  pub absent-passed {ℓ} :
      {A : Type ℓ} (o : Option A) (detail : A → Detail) (rest : AssertionResult)
      → (absent name o detail rest).passed ≡ true
      → (o ≡ none) × (rest.passed ≡ true)
  unfolding absent
  absent-passed none detail rest h = (refl, h)
  absent-passed (some a) detail rest h = absurd (cc)

  pub require-passed {ℓ} :
      {A : Type ℓ} (o : Option A) (detail : Detail) (rest : A → AssertionResult)
      → (require name o detail rest).passed ≡ true
      → (a : A) × (o ≡ some a) × ((rest a).passed ≡ true)
  unfolding require
  require-passed none detail rest h = absurd (cc)
  require-passed (some a) detail rest h = (a, refl, h)

pub first-none {ℓ} : {A : Type ℓ} (xs : List A) → first xs ≡ none → xs ≡ []
first-none [] h = refl
first-none (x ∷ xs) h = absurd (cc)
