-- ===== src/Workload/Tree/Encode.antt =====
-- crates/simferret/src/workload/tree.rs: `Tree::encode` and `Tree::canonical_digest`. SHA-256 is a
-- parameter: the digest's bytes.
pub mod Identity
pub mod Views
use simferret.Prelude.{ℕ, ◌/◌, ◌%◌, ◌^◌, List, [], ◌∷◌, ◌++◌, Bytes, Text, hex_char, codes, length}
use simferret.Protocol.Framing.{to_be_bytes}
use simferret.Workload.Tree.{
  EntryKind, directory_kind, file_kind, symlink_kind, Entry, Tree, file_bytes, link_target,
}

-- `CANONICAL_PREFIX`
abbrev pub canonical_prefix : Bytes
canonical_prefix = codes "simferret-canonical-filesystem-v1" ++ 0 ∷ []

-- `hex`
unfoldable pub hex : Bytes → Text
hex [] = []
hex (byte ∷ bytes) = hex_char (byte / 16) ∷ hex_char (byte % 16) ∷ hex bytes

-- `(n as u64).to_be_bytes()`
unfoldable pub to_be_bytes_u64 : ℕ → Bytes
unfolding to_be_bytes
to_be_bytes_u64 n = to_be_bytes (n / 2 ^ 32) ++ to_be_bytes n

-- `put_bytes32`
unfoldable pub put_bytes32 : Bytes → Bytes
put_bytes32 value = to_be_bytes (length value) ++ value

abbrev pub kind_byte : EntryKind → ℕ
kind_byte directory_kind = b'D'
kind_byte file_kind = b'F'
kind_byte symlink_kind = b'L'

module _ (sha256 : Bytes → Bytes) where
  -- `sha256_bytes`
  unfoldable pub sha256_bytes : Bytes → Text
  sha256_bytes bytes = hex (sha256 bytes)

  unfoldable pub encode_content : EntryKind → Entry → Bytes
  encode_content directory_kind entry = []
  encode_content file_kind entry =
      to_be_bytes_u64 (length (file_bytes entry)) ++ sha256 (file_bytes entry)
  encode_content symlink_kind entry = put_bytes32 (link_target entry)

  -- One round of the loop of `Tree::encode`.
  unfoldable pub encode_entry : Bytes → Entry → Bytes
  encode_entry path entry =
      kind_byte (entry.kind) ∷ put_bytes32 path
      ++ to_be_bytes (entry.mode)
      ++ to_be_bytes (entry.uid)
      ++ to_be_bytes (entry.gid)
      ++ to_be_bytes (entry.mtime)
      ++ encode_content (entry.kind) entry

  -- `Tree::encode`
  unfoldable pub encode : Tree → Bytes
  encode [] = []
  encode ((path, entry) ∷ tree) = encode_entry path entry ++ encode tree

  -- `Tree::canonical_digest`
  unfoldable pub canonical_digest : Tree → Text
  canonical_digest tree = hex (sha256 (canonical_prefix ++ encode tree))
