-- ===== src/Workload/Directory/Normalized.antt =====
-- The normal form of a working directory of crates/simferret/src/workload/spec.rs.
use simferret.Prelude.{
  ◌≡◌, refl, ap, sym, ◌∙◌, false, ◌&&◌, not, List, [], ◌∷◌, ◌++◌, Option, none, some, Bytes, Text,
  arith, same_text, Lacks, split_on, join_with, any, All, Result, ok, invalid_input, refuse_if,
  ◌>>◌, >>=-eq-ok, refuse_if-ok, Bool-cases, inl, inr, subst, same→eq, same_self, Text-discrete,
  ℕ_discrete, split_on-join_with, join_with-Lacks,
}
use simferret.Workload.Path.{
  slash, dots, root_path, is_empty, starts_slash, ancestors, path_of, normalize_layer_path,
}
use simferret.Workload.Contract.Bounds.{IsLaunchPath}
use simferret.Workload.Path.Normal.{
  IsPlain, IsNormal, plain_front, IsPlain-Lacks-slash, IsPlain-Lacks_nul,
  normalize_layer_path-normalize_layer_path,
}
use simferret.Workload.Tree.{Tree, get}
use simferret.Workload.Directory.{
  or_root_directory, trim_start, trim_end, trim_slashes, is_symlink, is_directory_entry,
  relative_of, absolute, directory_text, normalize_working_directory,
}
use simferret.Workload.Utf8.{from_utf8}

trim_end_plain : (part : Text) → Lacks slash part → trim_end part ≡ part
unfolding trim_end
trim_end_plain [] h = refl
trim_end_plain (b ∷ []) h = ground (arith, h)
trim_end_plain (b ∷ c ∷ part) h = rw (trim_end_plain (c ∷ part) (ground (arith, h))) refl

trim_end-append :
    (front tail : Text)
    → is_empty tail ≡ false
    → trim_end tail ≡ tail
    → trim_end (front ++ tail) ≡ front ++ tail
unfolding trim_end
trim_end-append [] tail h k = k
trim_end-append (b ∷ []) [] h k = absurd (cc (h))
trim_end-append (b ∷ []) (c ∷ tail) h k = rw k refl
trim_end-append (b ∷ c ∷ front) tail h k = rw (trim_end-append (c ∷ front) tail h k) refl

trim_end-join_with :
    (part : Bytes) (parts : List Bytes)
    → All IsPlain (part ∷ parts)
    → trim_end (join_with slash (part ∷ parts)) ≡ join_with slash (part ∷ parts)
unfolding join_with
trim_end-join_with part [] h = trim_end_plain part h.0.no_slash
trim_end-join_with part (next ∷ parts) h =
    let tail = join_with slash (next ∷ parts) in
    let trimmed =
      trim_end-append (slash ∷ []) tail (plain_front next parts h.1.0).0
        (trim_end-join_with next parts h.1) in
    trim_end-append part (slash ∷ tail) refl trimmed

trim_start_relative : (path : Text) → starts_slash path ≡ false → trim_start path ≡ path
unfolding trim_start
trim_start_relative [] h = refl
trim_start_relative (c ∷ path) h = rw h refl

parts-inside :
    (parts : List Bytes)
    → All IsPlain parts
    → any (λ component. same_text component dots) parts ≡ false
parts-inside [] h = refl
parts-inside (part ∷ parts) h = ground (arith, h.0.not_dots, parts-inside parts h.1)

-- What a path in normal form, but for the root's, is below a slash.
record IsBelowRoot (path : Bytes) : Type 0 where
  trimmed : trim_slashes (slash ∷ path) ≡ path
  filled : is_empty path ≡ false
  launch_path : IsLaunchPath (slash ∷ path)

joined-IsBelowRoot :
    (part : Bytes) (parts : List Bytes)
    → All IsPlain (part ∷ parts)
    → IsBelowRoot (join_with slash (part ∷ parts))
unfolding trim_slashes trim_start split_on
joined-IsBelowRoot part parts h =
    let path = join_with slash (part ∷ parts) in
    let (filled, relative) = plain_front part parts h.0 in
    record {
      trimmed = rw (trim_start_relative path relative) (trim_end-join_with part parts h);
      filled = filled;
      launch_path = record {
        absolute = refl;
        no_nul = join_with-Lacks slash 0 (part ∷ parts) refl (IsPlain-Lacks_nul (part ∷ parts) h);
        inside = ground (
          arith,
          split_on-join_with slash part parts (IsPlain-Lacks-slash (part ∷ parts) h),
          parts-inside (part ∷ parts) h,
        );
      };
    }

components-IsBelowRoot :
    (parts : List Bytes)
    → All IsPlain parts
    → same_text (path_of parts) root_path ≡ false
    → IsBelowRoot (path_of parts)
components-IsBelowRoot [] h k = absurd (ground arith)
components-IsBelowRoot (part ∷ parts) h k = joined-IsBelowRoot part parts h

normal-IsBelowRoot :
    (path : Bytes) → IsNormal path → same_text path root_path ≡ false → IsBelowRoot path
normal-IsBelowRoot path h other = subst IsBelowRoot (sym h.joined) (
    components-IsBelowRoot h.components h.all_plain
      (subst (λ p. same_text p root_path ≡ false) h.joined other))

-- The checks behind the relative path.
abbrev rest_of : Tree → Bytes → Result Text
rest_of tree relative = do
  refuse_if (any (λ path. is_symlink (get tree path)) (ancestors relative ++ relative ∷ []))
      invalid_input
  refuse_if (not (same_text relative root_path) && not (is_directory_entry (get tree relative)))
      invalid_input
  directory_text relative

record IsNormalDirectory (tree : Tree) (text : Text) : Type 0 where
  launch_path : IsLaunchPath text
  again : normalize_working_directory (some text) tree ≡ ok text

rest_of-directory_text :
    (tree : Tree) (relative : Bytes) (text : Text)
    → rest_of tree relative ≡ ok text
    → directory_text relative ≡ ok text
rest_of-directory_text tree relative text h =
    let (no_link, h₁) =
      refuse_if-ok (any (λ path. is_symlink (get tree path)) (ancestors relative ++ relative ∷ []))
        invalid_input _ h in
    (refuse_if-ok
      (not (same_text relative root_path) && not (is_directory_entry (get tree relative)))
      invalid_input _ h₁).1

slash_path : IsLaunchPath (slash ∷ [])
unfolding split_on Text-discrete ℕ_discrete
slash_path = record { absolute = refl; no_nul = refl; inside = refl }

trimmed_slash : trim_slashes (slash ∷ []) ≡ []
unfolding trim_slashes trim_start trim_end
trimmed_slash = refl

root-IsNormalDirectory :
    (tree : Tree) (text : Text) → rest_of tree root_path ≡ ok text → IsNormalDirectory tree text
unfolding normalize_working_directory relative_of directory_text
root-IsNormalDirectory tree text h =
    let same_slash : slash ∷ [] ≡ text =
      cc (rest_of-directory_text tree root_path text h, same_self Text-discrete root_path) in
    let again : normalize_working_directory (some (slash ∷ [])) tree ≡ ok text =
      rw trimmed_slash h in
    record {
      launch_path = subst IsLaunchPath same_slash slash_path;
      again = subst (λ t. normalize_working_directory (some t) tree ≡ ok text) same_slash again;
    }

absolute-ok :
    (o : Option Text) (text : Text)
    → absolute o ≡ ok text
    → (t : Text) × (o ≡ some t) × (slash ∷ t ≡ text)
absolute-ok none text h = absurd (cc)
absolute-ok (some t) text h = (t, refl, cc)

from_utf8-same : (bytes : Bytes) (text : Text) → from_utf8 bytes ≡ some text → bytes ≡ text
unfolding from_utf8
from_utf8-same bytes text h = ground (arith, h)

below-IsNormalDirectory :
    (tree : Tree) (relative : Bytes) (text : Text)
    → IsNormal relative
    → normalize_layer_path relative ≡ ok relative
    → same_text relative root_path ≡ false
    → rest_of tree relative ≡ ok text
    → IsNormalDirectory tree text
unfolding normalize_working_directory relative_of directory_text
below-IsNormalDirectory tree relative text normal same_path other h =
    let below = normal-IsBelowRoot relative normal other in
    let printed : absolute (from_utf8 relative) ≡ ok text =
      cc (rest_of-directory_text tree relative text h, other) in
    let (t, decoded, joined) = absolute-ok (from_utf8 relative) text printed in
    let same_slash : slash ∷ relative ≡ text =
      ap (◌∷◌ slash) (from_utf8-same relative t decoded) ∙ joined in
    let again : normalize_working_directory (some (slash ∷ relative)) tree ≡ ok text =
      rw below.trimmed (rw below.filled (rw same_path h)) in
    record {
      launch_path = subst IsLaunchPath same_slash below.launch_path;
      again = subst (λ t. normalize_working_directory (some t) tree ≡ ok text) same_slash again;
    }

relative-IsNormalDirectory :
    (tree : Tree) (relative : Bytes) (text : Text)
    → (stripped : Text) → relative_of stripped ≡ ok relative
    → rest_of tree relative ≡ ok text
    → IsNormalDirectory tree text
unfolding relative_of
relative-IsNormalDirectory tree relative text stripped e h =
    elim (Bool-cases (same_text relative root_path)) [
      | inl is_root ↦ root-IsNormalDirectory tree text (
          subst (λ p. rest_of tree p ≡ ok text) (same→eq Text-discrete relative root_path is_root)
            h)
      | inr other ↦
          let normalized : normalize_layer_path stripped ≡ ok relative = ground (arith, e, other) in
          let (normal, same_path) =
            normalize_layer_path-normalize_layer_path stripped relative normalized in
          below-IsNormalDirectory tree relative text normal same_path other h
    ]

-- A working directory that is accepted has a normal form that keeps the launch contract's path rule,
-- and that the same tree accepts and leaves as it is.
pub normalize_working_directory-normalize_working_directory :
    (value : Option Text) (tree : Tree) (text : Text)
    → normalize_working_directory value tree ≡ ok text
    → IsLaunchPath text × (normalize_working_directory (some text) tree ≡ ok text)
unfolding normalize_working_directory
normalize_working_directory-normalize_working_directory value tree text h =
    let given = or_root_directory value in
    let (slashed, h₁) = refuse_if-ok (not (starts_slash given)) invalid_input _ h in
    let (relative, e, h₂) =
      >>=-eq-ok (relative_of (trim_slashes given)) (rest_of tree) {b = text} h₁ in
    let normal = relative-IsNormalDirectory tree relative text (trim_slashes given) e h₂ in
    (normal.launch_path, normal.again)
