-- ===== src/Workload/Path/Normal.antt =====
-- The normal form of a layer path of crates/simferret/src/workload/tree.rs.
use simferret.Prelude.{
  ◌≤◌, ◌≡◌, refl, false, ◌||◌, List, [], ◌∷◌, Bytes, arith, same_text, Lacks, split_on, join_with,
  split_on-Lacks, split_on-Lacks_separator, split_on-join_with, join_with-Lacks, All, length, ltb,
  Bool-cases, inl, inr, Result, ok, invalid_input, refuse_if, ◌>>◌, >>=-eq-ok, subst, Text-discrete,
  ℕ_discrete,
}
use simferret.Workload.Limits.{max_path_bytes}
use simferret.Workload.Path.{
  slash, dot, dots, root_path, is_empty, starts_slash, layer_parts, path_of, normalize_layer_path,
}

-- A component that a normal path may have.
pub record IsPlain (part : Bytes) : Type 0 where
  pub some_bytes : is_empty part ≡ false
  pub not_dot : same_text part dot ≡ false
  pub not_dots : same_text part dots ≡ false
  pub no_slash : Lacks slash part
  pub no_nul : Lacks 0 part

layer_parts-IsPlain :
    (parts kept : List Bytes)
    → All (Lacks slash) parts
    → All (Lacks 0) parts
    → layer_parts parts ≡ ok kept
    → All IsPlain kept
unfolding layer_parts
layer_parts-IsPlain [] kept h k e = ground arith
layer_parts-IsPlain (part ∷ parts) kept h k e =
    elim (Bool-cases (is_empty part || same_text part dot)) [
      | inl skipped ↦ layer_parts-IsPlain parts kept h.1 k.1 (ground arith)
      | inr named ↦ elim (Bool-cases (same_text part dots)) [
        | inl escapes ↦ absurd (ground arith)
        | inr inside ↦
            let (rest, e', shape) =
              >>=-eq-ok (layer_parts parts) (λ r. ok (part ∷ r)) {b = kept} (ground arith) in
            let plain : IsPlain part = record {
              some_bytes = ground arith;
              not_dot = ground arith;
              not_dots = inside;
              no_slash = h.0;
              no_nul = k.0;
            } in
            let same_parts : part ∷ rest ≡ kept = ground arith in
            subst (All IsPlain) same_parts (plain, layer_parts-IsPlain parts rest h.1 k.1 e')
      ]
    ]

layer_parts_all_plain : (parts : List Bytes) → All IsPlain parts → layer_parts parts ≡ ok parts
unfolding layer_parts
layer_parts_all_plain [] h = refl
layer_parts_all_plain (part ∷ parts) h =
    rw (layer_parts_all_plain parts h.1) (ground (arith, h.0.some_bytes, h.0.not_dot, h.0.not_dots))

-- A path in normal form: the root, or plain components, within the length limit.
pub record IsNormal (path : Bytes) : Type 0 where
  pub components : List Bytes
  pub all_plain : All IsPlain components
  pub joined : path ≡ path_of components
  pub in_limit : length path ≤ max_path_bytes

pub IsPlain-Lacks-slash : (parts : List Bytes) → All IsPlain parts → All (Lacks slash) parts
IsPlain-Lacks-slash [] h = tt
IsPlain-Lacks-slash (part ∷ parts) h = (h.0.no_slash, IsPlain-Lacks-slash parts h.1)

pub IsPlain-Lacks_nul : (parts : List Bytes) → All IsPlain parts → All (Lacks 0) parts
IsPlain-Lacks_nul [] h = tt
IsPlain-Lacks_nul (part ∷ parts) h = (h.0.no_nul, IsPlain-Lacks_nul parts h.1)

pub plain_front :
    (part : Bytes) (parts : List Bytes)
    → IsPlain part
    → (is_empty (join_with slash (part ∷ parts)) ≡ false)
      × (starts_slash (join_with slash (part ∷ parts)) ≡ false)
unfolding join_with
plain_front [] parts h = absurd (cc (h.some_bytes))
plain_front (b ∷ part) [] h = (refl, ground (arith, h.no_slash))
plain_front (b ∷ part) (next ∷ parts) h = (refl, ground (arith, h.no_slash))

normalize_joined :
    (part : Bytes) (parts : List Bytes)
    → All IsPlain (part ∷ parts)
    → length (join_with slash (part ∷ parts)) ≤ max_path_bytes
    → normalize_layer_path (join_with slash (part ∷ parts)) ≡ ok (join_with slash (part ∷ parts))
unfolding normalize_layer_path
normalize_joined part parts h fits =
    let (filled, relative) = plain_front part parts h.0 in
    ground (
      arith,
      filled,
      relative,
      join_with-Lacks slash 0 (part ∷ parts) refl (IsPlain-Lacks_nul (part ∷ parts) h),
      split_on-join_with slash part parts (IsPlain-Lacks-slash (part ∷ parts) h),
      layer_parts_all_plain (part ∷ parts) h,
    )

root_path_normal : normalize_layer_path root_path ≡ ok root_path
unfolding normalize_layer_path layer_parts split_on Text-discrete ℕ_discrete
root_path_normal = refl

pub normalize_layer_path-path_of :
    (parts : List Bytes)
    → All IsPlain parts
    → length (path_of parts) ≤ max_path_bytes
    → normalize_layer_path (path_of parts) ≡ ok (path_of parts)
normalize_layer_path-path_of [] h fits = root_path_normal
normalize_layer_path-path_of (part ∷ parts) h fits = normalize_joined part parts h fits

abbrev checked_path : List Bytes → Result Bytes
checked_path parts = do
  let path = path_of parts
  refuse_if (ltb max_path_bytes (length path)) invalid_input
  ok path

normalize_layer_path-IsNormal :
    (raw path : Bytes) → normalize_layer_path raw ≡ ok path → IsNormal path
unfolding normalize_layer_path
normalize_layer_path-IsNormal raw path h =
    let (parts, e, shape) =
      >>=-eq-ok (layer_parts (split_on slash raw)) checked_path {b = path} (ground (arith, h)) in
    record {
      components = parts;
      all_plain =
          layer_parts-IsPlain (split_on slash raw) parts (split_on-Lacks_separator slash raw)
            (split_on-Lacks slash 0 raw (ground (arith, h))) e;
      joined = ground (arith, shape);
      in_limit = ground (arith, shape);
    }

-- A path that is normalized is the root or plain components within the length limit, none of them
-- empty, `.` or `..`, and normalizing it again gives the same path.
pub normalize_layer_path-normalize_layer_path :
    (raw path : Bytes)
    → normalize_layer_path raw ≡ ok path
    → IsNormal path × (normalize_layer_path path ≡ ok path)
normalize_layer_path-normalize_layer_path raw path h =
    let normal = normalize_layer_path-IsNormal raw path h in
    (
      normal,
      rw normal.joined (
          normalize_layer_path-path_of normal.components normal.all_plain
            (rw (← normal.joined) normal.in_limit)),
    )
