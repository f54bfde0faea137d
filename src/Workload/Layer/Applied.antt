-- ===== src/Workload/Layer/Applied.antt =====
-- crates/simferret/src/workload/oci.rs, `apply_layer`: the trees that it makes.
use simferret.Prelude.{
  ◌≡◌, ◌≢◌, ◌⊎◌, ap, sym, ◌∙◌, true, List, [], ◌∷◌, some, Bytes, arith, same_text, Bool-cases, inl,
  inr, subst, same→eq, Text-discrete, ok, invalid_input, >>=-eq-ok, refuse_if-ok,
}
use simferret.Workload.Path.{parent_of, ancestors}
use simferret.Workload.Tree.{
  EntryKind, Entry, Tree, default_directory, get, insert, with_directories, remove_subtree,
  remove_children,
}
use simferret.Workload.Tree.Template.{is_directory}
use simferret.Workload.Tree.Lookup.{operations-Refines}
use simferret.Workload.Directory.{is_directory_entry}
use simferret.Workload.Layer.{
  Member, Marker, whiteout, opaque, split_members, provided_directories, check_markers,
  apply_marker, apply_markers, replaces, make_room, add_member, add_members, check_opaque,
  apply_layer,
}
use simferret.Workload.Layer.Parents.{in_subtree-parent_of, in_subtree_self, parent-in_subtree}
use simferret.Workload.Layer.Rooted.{
  IsRooted, remove_subtree-IsRooted, remove_children-IsRooted, ancestors-head, blocked,
  with_directories-directory, with_directories-IsRooted,
}

apply_markers-IsRooted :
    (markers : List Marker) (tree : Tree) → IsRooted tree → IsRooted (apply_markers tree markers)
unfolding apply_markers apply_marker
apply_markers-IsRooted [] tree h = h
apply_markers-IsRooted (whiteout target ∷ markers) tree h =
    apply_markers-IsRooted markers (remove_subtree tree target)
      (remove_subtree-IsRooted tree target h)
apply_markers-IsRooted (opaque target ∷ markers) tree h =
    apply_markers-IsRooted markers (remove_children tree target)
      (remove_children-IsRooted tree target h)

-- A tree with room for an entry at a path: the path's parent is a directory, and nothing is below the
-- path unless the entry is a directory.
record HasRoom (tree : Tree) (path : Bytes) (kind : EntryKind) : Type 0 where
  rooted : IsRooted tree
  parent_exists :
      (parent : Bytes) → parent_of path ≡ some parent → is_directory_entry (get tree parent) ≡ true
  childless :
      (is_directory kind ≡ true)
      ⊎ ((q : Bytes) (entry : Entry) → get tree q ≡ some entry → parent_of q ≢ some path)

tree_ok : {s t : Tree} → ok s ≡ ok t → s ≡ t
tree_ok h = cc

own_parent : (q : Bytes) → parent_of q ≢ some q
own_parent q h = absurd (cc (parent-in_subtree q q h, in_subtree_self q))

insert-IsRooted :
    (tree : Tree) (path : Bytes) (entry : Entry)
    → HasRoom tree path (entry.kind)
    → IsRooted ((insert tree path entry).1)
insert-IsRooted tree path entry h = record {
  parents_exist = λ q found_entry parent found above.
      let at_q = (operations-Refines tree path entry q).inserts in
      let at_parent = (operations-Refines tree path entry parent).inserts in
      elim (Bool-cases (same_text path parent)) [
        | inl at_path ↦ elim (h.childless) [
          | inl is_dir ↦ ground (arith, at_parent, at_path, is_dir)
          | inr no_child ↦ elim (Bool-cases (same_text path q)) [
            | inl itself ↦
                let q_eq = same→eq Text-discrete path q itself in
                let p_eq = same→eq Text-discrete path parent at_path in
                let loop : parent_of q ≡ some q = above ∙ ap some (sym p_eq ∙ q_eq) in
                absurd (own_parent q loop)
            | inr other ↦
                let before : get tree q ≡ some found_entry = ground (arith, at_q, found, other) in
                let p_eq = same→eq Text-discrete path parent at_path in
                absurd (no_child q found_entry before (above ∙ ap some (sym p_eq)))
          ]
        ]
        | inr apart ↦ elim (Bool-cases (same_text path q)) [
          | inl itself ↦
              let q_eq = same→eq Text-discrete path q itself in
              let exists =
                h.parent_exists parent (subst (λ p. parent_of p ≡ some parent) (sym q_eq) above) in
              ground (arith, at_parent, apart, exists)
          | inr other ↦
              let before : get tree q ≡ some found_entry = ground (arith, at_q, found, other) in
              let exists = h.rooted.parents_exist q found_entry parent before above in
              ground (arith, at_parent, apart, exists)
        ]
      ];
}

removed-HasRoom :
    (tree : Tree) (path : Bytes) (kind : EntryKind)
    → IsRooted tree
    → ((parent : Bytes)
        → parent_of path ≡ some parent
        → is_directory_entry (get tree parent) ≡ true)
    → HasRoom (remove_subtree tree path) path kind
removed-HasRoom tree path kind h exists = record {
  rooted = remove_subtree-IsRooted tree path h;
  parent_exists = λ parent above. ground (
    arith,
    (operations-Refines tree path default_directory parent).prunes,
    parent-in_subtree path parent above,
    exists parent above,
  );
  childless = inr (λ q entry found above. absurd (
      ground (
        arith,
        (operations-Refines tree path default_directory q).prunes,
        found,
        in_subtree-parent_of path q path above (in_subtree_self path),
      )));
}

make_room-HasRoom :
    (tree : Tree) (member : Member)
    → IsRooted tree
    → ((parent : Bytes)
        → parent_of (member.name) ≡ some parent
        → is_directory_entry (get tree parent) ≡ true)
    → HasRoom (make_room tree member) (member.name) (member.entry.kind)
unfolding make_room
make_room-HasRoom tree member h exists =
    let name = member.name in
    let kind = member.entry.kind in
    elim (Bool-cases (replaces kind (get tree name))) [
      | inl replaced ↦ rw replaced (removed-HasRoom tree name kind h exists)
      | inr kept ↦ rw kept (record {
        rooted = h;
        parent_exists = exists;
        childless = elim (Bool-cases (is_directory kind)) [
          | inl is_dir ↦ inl is_dir
          | inr other ↦ inr (λ q entry found above.
              let is_dir = h.parents_exist q entry name found above in
              ground (arith, kept, other, is_dir))
        ];
      })
    ]

add_member-IsRooted :
    (tree result : Tree) (member : Member)
    → IsRooted tree
    → add_member tree member ≡ ok result
    → IsRooted result
unfolding add_member
add_member-IsRooted tree result member h e =
    let paths = ancestors (member.name) in
    let (free, made) = refuse_if-ok (blocked tree paths) invalid_input _ e in
    let directories = with_directories tree paths in
    let rooted = with_directories-IsRooted tree (member.name) free h in
    let room = make_room-HasRoom directories member rooted (λ parent above.
      with_directories-directory tree paths parent free
        (ancestors-head (member.name) parent above)) in
    subst IsRooted (tree_ok made)
      (insert-IsRooted (make_room directories member) (member.name) (member.entry) room)

add_members-IsRooted :
    (members : List Member) (tree result : Tree)
    → IsRooted tree
    → add_members tree members ≡ ok result
    → IsRooted result
unfolding add_members
add_members-IsRooted [] tree result h e = subst IsRooted (tree_ok e) h
add_members-IsRooted (member ∷ members) tree result h e =
    let (next, added, rest) =
      >>=-eq-ok (add_member tree member) (λ t. add_members t members) {b = result} e in
    add_members-IsRooted members next result (add_member-IsRooted tree next member h added) rest

-- Applying a layer to a tree in which every entry's parent is a directory gives such a tree again,
-- whatever the layer's additions, replacements, whiteouts and opaque markers.
pub apply_layer-IsRooted :
    (tree result : Tree) (members : List Member)
    → IsRooted tree
    → apply_layer tree members ≡ ok result
    → IsRooted result
unfolding apply_layer
apply_layer-IsRooted tree result members h e =
    let ((markers, additions), split, e₁) = >>=-eq-ok (split_members [] members) _ {b = result} e in
    let (_, checked, e₂) =
      >>=-eq-ok (check_markers tree (provided_directories additions) markers) _ {b = result} e₁ in
    let (added, adds, e₃) =
      >>=-eq-ok (add_members (apply_markers tree markers) additions) _ {b = result} e₂ in
    let (_, opaque_fine, e₄) = >>=-eq-ok (check_opaque added markers) _ {b = result} e₃ in
    subst IsRooted (tree_ok e₄) (
      add_members-IsRooted additions (apply_markers tree markers) added
        (apply_markers-IsRooted markers tree h) adds)
