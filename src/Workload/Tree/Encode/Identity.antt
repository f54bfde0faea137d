-- ===== src/Workload/Tree/Encode/Identity.antt =====
-- What the canonical encoding of crates/simferret/src/workload/tree.rs tells apart.
use simferret.Prelude.{
  ℕ, ◌<◌, ◌^◌, ◌≡◌, refl, ap, sym, ◌∙◌, ◌≢◌, List, [], ◌∷◌, ◌++◌, Bytes, arith, length, All, map,
}
use mathlib.Core.List.{append_assoc}
use simferret.Protocol.Framing.{to_be_bytes}
use simferret.Workload.Tree.{
  EntryKind, directory_kind, file_kind, symlink_kind, Entry, Tree, file_bytes, link_target,
}
use simferret.Workload.Tree.Encode.{
  to_be_bytes_u64, put_bytes32, kind_byte, encode_content, encode_entry, encode,
}

++-injective : (xs ys r s : Bytes) → length xs ≡ length ys → xs ++ r ≡ ys ++ s → (xs ≡ ys) × (r ≡ s)
++-injective [] [] r s h e = (refl, e)
++-injective [] (y ∷ ys) r s h e = absurd (omega arith)
++-injective (x ∷ xs) [] r s h e = absurd (omega arith)
++-injective (x ∷ xs) (y ∷ ys) r s h e =
    let (same_rest, tails) = ++-injective xs ys r s (omega arith) (cc) in (cc (e, same_rest), tails)

four_bytes-injective :
    {a b c d a' b' c' d' : ℕ} (r s : Bytes)
    → a ∷ b ∷ c ∷ d ∷ r ≡ a' ∷ b' ∷ c' ∷ d' ∷ s
    → (a ≡ a') × (b ≡ b') × (c ≡ c') × (d ≡ d') × (r ≡ s)
four_bytes-injective r s e = (cc, cc, cc, cc, cc)

to_be_bytes-injective :
    (n m : ℕ) (r s : Bytes)
    → n < 2 ^ 32
    → m < 2 ^ 32
    → to_be_bytes n ++ r ≡ to_be_bytes m ++ s
    → (n ≡ m) × (r ≡ s)
unfolding to_be_bytes
to_be_bytes-injective n m r s h k e =
    let (e₁, e₂, e₃, e₄, tails) = four_bytes-injective r s e in
    (omega (arith, e₁, e₂, e₃, e₄, h, k), tails)

to_be_bytes_u64-injective :
    (n m : ℕ) (r s : Bytes)
    → n < 2 ^ 64
    → m < 2 ^ 64
    → to_be_bytes_u64 n ++ r ≡ to_be_bytes_u64 m ++ s
    → (n ≡ m) × (r ≡ s)
unfolding to_be_bytes_u64
to_be_bytes_u64-injective n m r s h k e =
    let (e₁, e₂, e₃, e₄, low) = four_bytes-injective (to_be_bytes n ++ r) (to_be_bytes m ++ s) e in
    let (e₅, e₆, e₇, e₈, tails) = four_bytes-injective r s low in
    (omega (arith, e₁, e₂, e₃, e₄, e₅, e₆, e₇, e₈, h, k), tails)

put_bytes32-injective :
    (xs ys r s : Bytes)
    → length xs < 2 ^ 32
    → length ys < 2 ^ 32
    → put_bytes32 xs ++ r ≡ put_bytes32 ys ++ s
    → (xs ≡ ys) × (r ≡ s)
unfolding put_bytes32
put_bytes32-injective xs ys r s h k e =
    let (same_length, rest) =
      to_be_bytes-injective (length xs) (length ys) (xs ++ r) (ys ++ s) h k (
        sym (append_assoc (to_be_bytes (length xs)) xs r)
        ∙ e
        ∙ append_assoc (to_be_bytes (length ys)) ys s) in
    ++-injective xs ys r s same_length rest

kind_byte-injective : (k l : EntryKind) → kind_byte k ≡ kind_byte l → k ≡ l
kind_byte-injective directory_kind directory_kind e = refl
kind_byte-injective directory_kind file_kind e = absurd (omega arith)
kind_byte-injective directory_kind symlink_kind e = absurd (omega arith)
kind_byte-injective file_kind directory_kind e = absurd (omega arith)
kind_byte-injective file_kind file_kind e = refl
kind_byte-injective file_kind symlink_kind e = absurd (omega arith)
kind_byte-injective symlink_kind directory_kind e = absurd (omega arith)
kind_byte-injective symlink_kind file_kind e = absurd (omega arith)
kind_byte-injective symlink_kind symlink_kind e = refl

-- What the guest sees of an entry's content, a file by its length and its digest.
pub data Content : Type 0 where
  no_content : Content
  file_content : (size : ℕ) (digest : Bytes) → Content
  link_content : (points_to : Bytes) → Content

-- What the guest sees of an entry.
pub record Seen : Type 0 where
  pub kind : EntryKind
  pub mode : ℕ
  pub uid : ℕ
  pub gid : ℕ
  pub mtime : ℕ
  pub content : Content

-- The limits of the machine integers of an entry.
pub record IsSized (path : Bytes) (entry : Entry) : Type 0 where
  pub path_size : length path < 2 ^ 32
  pub mode_size : entry.mode < 2 ^ 32
  pub uid_size : entry.uid < 2 ^ 32
  pub gid_size : entry.gid < 2 ^ 32
  pub mtime_size : entry.mtime < 2 ^ 32
  pub data_size : length (file_bytes entry) < 2 ^ 64
  pub target_size : length (link_target entry) < 2 ^ 32

module _ (sha256 : Bytes → Bytes) (digest_size : (bytes : Bytes) → length (sha256 bytes) ≡ 32) where
  abbrev pub content_of : EntryKind → Entry → Content
  content_of directory_kind entry = no_content
  content_of file_kind entry = file_content (length (file_bytes entry)) (sha256 (file_bytes entry))
  content_of symlink_kind entry = link_content (link_target entry)

  abbrev pub seen : Entry → Seen
  seen entry = record {
    kind = entry.kind;
    mode = entry.mode;
    uid = entry.uid;
    gid = entry.gid;
    mtime = entry.mtime;
    content = content_of (entry.kind) entry;
  }

  content-injective :
      (k : EntryKind) (e f : Entry) (r s : Bytes)
      → length (file_bytes e) < 2 ^ 64
      → length (file_bytes f) < 2 ^ 64
      → length (link_target e) < 2 ^ 32
      → length (link_target f) < 2 ^ 32
      → encode_content sha256 k e ++ r ≡ encode_content sha256 k f ++ s
      → (content_of k e ≡ content_of k f) × (r ≡ s)
  unfolding encode_content
  content-injective directory_kind e f r s h₁ h₂ h₃ h₄ same_bytes = (refl, same_bytes)
  content-injective file_kind e f r s h₁ h₂ h₃ h₄ same_bytes =
      let a = file_bytes e in
      let b = file_bytes f in
      let (sizes, rest) =
        to_be_bytes_u64-injective (length a) (length b) (sha256 a ++ r) (sha256 b ++ s) h₁ h₂ (
          sym (append_assoc (to_be_bytes_u64 (length a)) (sha256 a) r)
          ∙ same_bytes
          ∙ append_assoc (to_be_bytes_u64 (length b)) (sha256 b) s) in
      let (digests, tails) =
        ++-injective (sha256 a) (sha256 b) r s (digest_size a ∙ sym (digest_size b)) rest in
      (cc (sizes, digests), tails)
  content-injective symlink_kind e f r s h₁ h₂ h₃ h₄ same_bytes =
      let (targets, tails) =
        put_bytes32-injective (link_target e) (link_target f) r s h₃ h₄ same_bytes in
      (ap link_content targets, tails)

  -- The bytes of an entry and what follows them, one field at a time.
  abbrev in_fields : Bytes → Entry → Bytes → Bytes
  in_fields path entry rest =
      kind_byte (entry.kind)
      ∷ (put_bytes32 path
          ++ (to_be_bytes (entry.mode)
              ++ (to_be_bytes (entry.uid)
                  ++ (to_be_bytes (entry.gid)
                      ++ (to_be_bytes (entry.mtime)
                          ++ (encode_content sha256 (entry.kind) entry ++ rest))))))

  encode_entry-in_fields :
      (path : Bytes) (entry : Entry) (rest : Bytes)
      → encode_entry sha256 path entry ++ rest ≡ in_fields path entry rest
  unfolding encode_entry
  encode_entry-in_fields path entry rest = simp (append_assoc)

  entry-injective :
      (p q : Bytes) (e f : Entry) (r s : Bytes)
      → IsSized p e
      → IsSized q f
      → encode_entry sha256 p e ++ r ≡ encode_entry sha256 q f ++ s
      → (p ≡ q) × (seen e ≡ seen f) × (r ≡ s)
  entry-injective p q e f r s h k same_bytes =
      let e₀ : in_fields p e r ≡ in_fields q f s =
        sym (encode_entry-in_fields p e r) ∙ same_bytes ∙ encode_entry-in_fields q f s in
      let kinds = kind_byte-injective (e.kind) (f.kind) (cc (e₀)) in
      let (paths, e₁) = put_bytes32-injective p q _ _ h.path_size k.path_size (cc (e₀)) in
      let (modes, e₂) = to_be_bytes-injective (e.mode) (f.mode) _ _ h.mode_size k.mode_size e₁ in
      let (uids, e₃) = to_be_bytes-injective (e.uid) (f.uid) _ _ h.uid_size k.uid_size e₂ in
      let (gids, e₄) = to_be_bytes-injective (e.gid) (f.gid) _ _ h.gid_size k.gid_size e₃ in
      let (mtimes, e₅) =
        to_be_bytes-injective (e.mtime) (f.mtime) _ _ h.mtime_size k.mtime_size e₄ in
      let (contents, tails) =
        content-injective (e.kind) e f r s h.data_size k.data_size h.target_size k.target_size
          (e₅ ∙ ap (λ kind. encode_content sha256 kind f ++ s) (sym kinds)) in
      let contents' = contents ∙ ap (λ kind. content_of kind f) kinds in
      (paths, cc (kinds, modes, uids, gids, mtimes, contents'), tails)

  abbrev pub AllSized : Tree → Type 0
  AllSized = All (λ item. IsSized (item.0) (item.1))

  -- What the guest sees of a tree.
  abbrev pub seen_tree : Tree → List (Bytes × Seen)
  seen_tree tree = map (λ item. (item.0, seen (item.1))) tree

  encode_entry_filled :
      (path : Bytes) (entry : Entry) (rest : Bytes) → encode_entry sha256 path entry ++ rest ≢ []
  encode_entry_filled path entry rest h = absurd (cc (h, encode_entry-in_fields path entry rest))

  -- Two trees whose entries' numbers and lengths fit their machine integers, and that have the same
  -- canonical encoding, have the same paths, kinds, modes, owners, times and link targets, and files of
  -- the same length and SHA-256 digest, for a digest of 32 bytes.
  pub encode-injective :
      (s t : Tree)
      → AllSized s
      → AllSized t
      → encode sha256 s ≡ encode sha256 t
      → seen_tree s ≡ seen_tree t
  unfolding encode
  encode-injective [] [] h k e = refl
  encode-injective [] ((q, f) ∷ t) h k e =
      absurd (encode_entry_filled q f (encode sha256 t) (sym e))
  encode-injective ((p, f) ∷ s) [] h k e = absurd (encode_entry_filled p f (encode sha256 s) e)
  encode-injective ((p, d) ∷ s) ((q, f) ∷ t) h k e =
      let (paths, same_seen, tails) =
        entry-injective p q d f (encode sha256 s) (encode sha256 t) h.0 k.0 e in
      cc (paths, same_seen, encode-injective s t h.1 k.1 tails)
