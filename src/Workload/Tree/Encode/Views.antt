-- ===== src/Workload/Tree/Encode/Views.antt =====
-- Which trees of crates/simferret/src/workload/tree.rs have one canonical encoding.
use simferret.Prelude.{◌≡◌, refl, ap, sym, ◌∙◌, ◌↔◌, List, [], ◌∷◌, ◌++◌, Bytes, length}
use simferret.Protocol.Framing.{to_be_bytes}
use simferret.Workload.Tree.{EntryKind, directory_kind, file_kind, symlink_kind, Entry, Tree}
use simferret.Workload.Tree.Canonical.{Built}
use simferret.Workload.Tree.Canonical.Extensional.{seen_at, built-extensional, seen_at-seen_items}
use simferret.Workload.Tree.Encode.{
  to_be_bytes_u64, put_bytes32, kind_byte, encode_content, encode_entry, encode,
}
use simferret.Workload.Tree.Encode.Identity.{
  Content, no_content, file_content, link_content, Seen, content_of, seen, seen_tree, AllSized,
  encode-injective,
}

module _ (sha256 : Bytes → Bytes) (digest_size : (bytes : Bytes) → length (sha256 bytes) ≡ 32) where
  abbrev content_bytes : Content → Bytes
  content_bytes no_content = []
  content_bytes (file_content size digest) = to_be_bytes_u64 size ++ digest
  content_bytes (link_content points_to) = put_bytes32 points_to

  -- The encoding of what is seen of an entry.
  abbrev item_bytes : Bytes × Seen → Bytes
  item_bytes (path, s) =
      kind_byte (s.kind) ∷ put_bytes32 path
      ++ to_be_bytes (s.mode)
      ++ to_be_bytes (s.uid)
      ++ to_be_bytes (s.gid)
      ++ to_be_bytes (s.mtime)
      ++ content_bytes (s.content)

  abbrev items_bytes : List (Bytes × Seen) → Bytes
  items_bytes [] = []
  items_bytes (item ∷ items) = item_bytes item ++ items_bytes items

  content_bytes-content_of :
      (kind : EntryKind) (entry : Entry)
      → encode_content sha256 kind entry ≡ content_bytes (content_of sha256 digest_size kind entry)
  unfolding encode_content
  content_bytes-content_of directory_kind entry = refl
  content_bytes-content_of file_kind entry = refl
  content_bytes-content_of symlink_kind entry = refl

  encode-items_bytes :
      (tree : Tree) → encode sha256 tree ≡ items_bytes (seen_tree sha256 digest_size tree)
  unfolding encode encode_entry
  encode-items_bytes [] = refl
  encode-items_bytes ((path, entry) ∷ tree) =
      rw (content_bytes-content_of (entry.kind) entry, encode-items_bytes tree) refl

  -- Two trees that the operations build, in whatever order, and whose entries' numbers and lengths
  -- fit their machine integers, have one canonical encoding exactly if the guest sees the same at
  -- every path: nothing, or an entry of the same kind, mode, owners, time, and link target or length
  -- and SHA-256 digest of the file, for a digest of 32 bytes.
  pub encode_characterized :
      (s t : Tree)
      → Built s
      → Built t
      → AllSized sha256 digest_size s
      → AllSized sha256 digest_size t
      → (encode sha256 s ≡ encode sha256 t) ↔ (
          (path : Bytes)
          → seen_at (seen sha256 digest_size) s path ≡ seen_at (seen sha256 digest_size) t path)
  encode_characterized s t h k sized sized' = (
    λ same_bytes.
        seen_at-seen_items (seen sha256 digest_size) s t
          (encode-injective sha256 digest_size s t sized sized' same_bytes),
    λ same_views.
        encode-items_bytes s
        ∙ ap items_bytes (built-extensional (seen sha256 digest_size) s t h k same_views)
        ∙ sym (encode-items_bytes t),
  )
