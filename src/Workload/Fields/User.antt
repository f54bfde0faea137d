-- ===== src/Workload/Fields/User.antt =====
-- crates/simferret/src/workload/spec.rs, `parse_user`: the credentials of a launch.
use simferret.Prelude.{
  ℕ, zero, suc, ◌+◌, ◌-◌, ◌*◌, ◌/◌, ◌%◌, ◌^◌, ◌<◌, ◌≡◌, refl, ◌↔◌, true, false, ◌||◌, not, [], ◌∷◌,
  ◌++◌, some, Text, arith, decimal, decimal_rounds, Lacks, split_on, split_on-append,
  split_on_whole, ltb, all, Result, ok, invalid_input, ◌>>◌, Bool-cases, inl, inr, subst, required,
  required-ok, >>=-eq-ok, refuse_if-ok,
}
use simferret.Workload.Limits.{reserved_owner}
use simferret.Workload.Path.{is_empty}
use simferret.Workload.Fields.{is_digit, parse_digits, colon, two_parts, check_owners, parse_user}

-- The credentials that a launch may have.
pub record IsOwner (id : ℕ) : Type 0 where
  pub not_root : 0 < id
  pub not_reserved : id < reserved_owner

parse_digits-append :
    (value : ℕ) (front : Text) (middle d : ℕ)
    → parse_digits value front ≡ some middle
    → middle * 10 + (d - b'0') < 2 ^ 32
    → parse_digits value (front ++ d ∷ []) ≡ some (middle * 10 + (d - b'0'))
unfolding parse_digits
parse_digits-append value [] middle d h k = ground (arith, h, k)
parse_digits-append value (c ∷ front) middle d h k =
    ground (arith, h, parse_digits-append (value * 10 + (c - b'0')) front middle d, k)

parse_digits-decimal_rounds :
    (fuel n : ℕ) → n < fuel → n < 2 ^ 32 → parse_digits 0 (decimal_rounds fuel n) ≡ some n
unfolding parse_digits decimal_rounds
parse_digits-decimal_rounds zero n h k = absurd (omega arith)
parse_digits-decimal_rounds (suc fuel) n h k = elim (Bool-cases (ltb n 10)) [
  | inl small ↦ ground (arith, small, k)
  | inr large ↦
      let higher =
        parse_digits-decimal_rounds fuel (n / 10) (ground (arith, large, h)) (omega (arith, k)) in
      let last =
        parse_digits-append 0 (decimal_rounds fuel (n / 10)) (n / 10) (b'0' + n % 10) higher
          (omega (arith, k)) in
      let value : n / 10 * 10 + (b'0' + n % 10 - b'0') ≡ n = omega arith in
      ground (arith, large, last, value)
]

abbrev AllDigits : Text → Type 0
AllDigits text = (all is_digit text ≡ true) × Lacks colon text

append-AllDigits :
    (text : Text) (d : ℕ) → AllDigits text → is_digit d ≡ true → AllDigits (text ++ d ∷ [])
append-AllDigits [] d h k = (ground (arith, k), ground (arith, k))
append-AllDigits (c ∷ text) d (h, l) k =
    let (h', l') = append-AllDigits text d (ground (arith, h), ground (arith, l)) k in
    (ground (arith, h, h'), ground (arith, l, l'))

decimal_rounds-AllDigits : (fuel n : ℕ) → AllDigits (decimal_rounds fuel n)
unfolding decimal_rounds
decimal_rounds-AllDigits zero n = (refl, refl)
decimal_rounds-AllDigits (suc fuel) n = elim (Bool-cases (ltb n 10)) [
  | inl small ↦ (ground (arith, small), ground (arith, small))
  | inr large ↦
      let (h, l) =
        append-AllDigits (decimal_rounds fuel (n / 10)) (b'0' + n % 10)
          (decimal_rounds-AllDigits fuel (n / 10)) (ground arith) in
      (ground (arith, large, h), ground (arith, large, l))
]

append_one_filled : (text : Text) (d : ℕ) → is_empty (text ++ d ∷ []) ≡ false
append_one_filled [] d = refl
append_one_filled (c ∷ text) d = refl

decimal_rounds_filled : (fuel n : ℕ) → is_empty (decimal_rounds (suc fuel) n) ≡ false
unfolding decimal_rounds
decimal_rounds_filled fuel n =
    ground (arith, append_one_filled (decimal_rounds fuel (n / 10)) (b'0' + n % 10))

record IsDecimal (n : ℕ) : Type 0 where
  digits : AllDigits (decimal n)
  filled : is_empty (decimal n) ≡ false
  parsed : parse_digits 0 (decimal n) ≡ some n

IsDecimal-below : (n : ℕ) → n < 2 ^ 32 → IsDecimal n
unfolding decimal
IsDecimal-below n h = record {
  digits = decimal_rounds-AllDigits (suc n) n;
  filled = decimal_rounds_filled n n;
  parsed = parse_digits-decimal_rounds (suc n) n (omega arith) h;
}

pub check_owners-IsOwner :
    (uid gid : ℕ)
    → uid < 2 ^ 32
    → gid < 2 ^ 32
    → (check_owners uid gid ≡ ok tt) ↔ (IsOwner uid × IsOwner gid)
unfolding check_owners
check_owners-IsOwner uid gid h k = (
  λ e. (
    record { not_root = ground (arith, e); not_reserved = ground (arith, e) },
    record { not_root = ground (arith, e); not_reserved = ground (arith, e) },
  ),
  λ (u, g). ground (arith, u.not_root, u.not_reserved, g.not_root, g.not_reserved),
)

parse_digits-bounded :
    (value : ℕ) (digits : Text) (n : ℕ)
    → value < 2 ^ 32
    → parse_digits value digits ≡ some n
    → n < 2 ^ 32
unfolding parse_digits
parse_digits-bounded value [] n h k = ground (arith, h, k)
parse_digits-bounded value (d ∷ digits) n h k =
    elim (Bool-cases (ltb (value * 10 + (d - b'0')) (2 ^ 32))) [
      | inl e ↦
          parse_digits-bounded (value * 10 + (d - b'0')) digits n (ground (arith, e))
            (ground (arith, e, k))
      | inr e ↦ absurd (ground (arith, e, k))
    ]

abbrev checked_owners : ℕ → ℕ → Result (ℕ × ℕ)
checked_owners uid gid = check_owners uid gid >> ok (uid, gid)

parse_user-IsOwner :
    (value : Text) (uid gid : ℕ)
    → parse_user value ≡ ok (uid, gid)
    → (uid < 2 ^ 32) × (gid < 2 ^ 32) × (check_owners uid gid ≡ ok tt)
unfolding parse_user
parse_user-IsOwner value uid gid h =
    let ((u, g), parts, h₁) = >>=-eq-ok (two_parts (split_on colon value)) _ {b = (uid, gid)} h in
    let (shape, h₂) =
      refuse_if-ok (is_empty u || is_empty g || not (all is_digit u) || not (all is_digit g))
        invalid_input _ h₁ in
    let (n, e, h₃) = >>=-eq-ok (required (parse_digits 0 u)) _ {b = (uid, gid)} h₂ in
    let (m, f, h₄) = >>=-eq-ok (required (parse_digits 0 g)) _ {b = (uid, gid)} h₃ in
    let (sound, owners, h₅) = >>=-eq-ok (check_owners n m) _ {b = (uid, gid)} h₄ in
    let same_uid : n ≡ uid = cc (h₅) in
    let same_gid : m ≡ gid = cc (h₅) in
    (
      subst (λ a. a < 2 ^ 32) same_uid
          (parse_digits-bounded 0 u n (omega arith) (required-ok (parse_digits 0 u) e)),
      subst (λ a. a < 2 ^ 32) same_gid
          (parse_digits-bounded 0 g m (omega arith) (required-ok (parse_digits 0 g) f)),
      cc (owners, same_uid, same_gid),
    )

parse_user-decimal :
    (uid gid : ℕ)
    → uid < 2 ^ 32
    → gid < 2 ^ 32
    → check_owners uid gid ≡ ok tt
    → parse_user (decimal uid ++ colon ∷ decimal gid) ≡ ok (uid, gid)
unfolding parse_user
parse_user-decimal uid gid h k checked =
    let u = IsDecimal-below uid h in
    let g = IsDecimal-below gid k in
    ground (
      arith,
      split_on-append colon (decimal uid) (decimal gid) u.digits.1,
      split_on_whole colon (decimal gid) g.digits.1,
      u.digits.0,
      g.digits.0,
      u.filled,
      g.filled,
      u.parsed,
      g.parsed,
      checked,
    )

-- The credentials that a user's text gives are neither root's nor the reserved identifier, and the
-- text of the two numbers in decimal gives them again.
pub parse_user_canonical :
    (value : Text) (uid gid : ℕ)
    → parse_user value ≡ ok (uid, gid)
    → IsOwner uid × IsOwner gid × (parse_user (decimal uid ++ colon ∷ decimal gid) ≡ ok (uid, gid))
parse_user_canonical value uid gid h =
    let (u, g, checked) = parse_user-IsOwner value uid gid h in
    let owners = (check_owners-IsOwner uid gid u g).0 checked in
    (owners.0, owners.1, parse_user-decimal uid gid u g checked)
