-- ===== src/Workload/Tree/Canonical/Extensional.antt =====
-- When two trees of crates/simferret/src/workload/tree.rs are seen alike at every path.
use simferret.Prelude.{
  ◌≡◌, refl, ap, sym, ◌∙◌, false, [], ◌∷◌, none, some, Bytes, same_text, Bool-cases, inl, inr,
  same→eq, same_self, Text-discrete, subst, List, Option, map, if◌then◌else◌,
}
use simferret.Workload.Tree.{Entry, Tree, before, get}
use simferret.Workload.Tree.Canonical.{
  before-total, Behind, Behind-trans, IsSorted, get-Behind, Built, Built-IsSorted,
}

get_first : (p : Bytes) (e : Entry) (tree : Tree) → get ((p, e) ∷ tree) p ≡ some e
unfolding get
get_first p e tree = rw (same_self Text-discrete p) refl

get_other :
    (p q : Bytes) (e : Entry) (tree : Tree)
    → same_text p q ≡ false
    → get ((p, e) ∷ tree) q ≡ get tree q
unfolding get
get_other p q e tree h = rw h refl

-- Two trees seen through a function of the entries.
module _ {S : Type 0} (see : Entry → S) where
  abbrev pub see_option : Option Entry → Option S
  see_option none = none
  see_option (some entry) = some (see entry)

  -- What is seen at a path.
  abbrev pub seen_at : Tree → Bytes → Option S
  seen_at tree path = see_option (get tree path)

  abbrev pub seen_items : Tree → List (Bytes × S)
  seen_items tree = map (λ item. (item.0, see (item.1))) tree

  -- Two trees in order that begin with different paths do not hold the same entries.
  front-agrees :
      (p q : Bytes) (e f : Entry) (s t : Tree)
      → Behind q t
      → seen_at ((p, e) ∷ s) p ≡ seen_at ((q, f) ∷ t) p
      → before p q ≡ false
  front-agrees p q e f s t h same_entry = elim (Bool-cases (before p q)) [
    | inl ahead ↦
        let missing : get ((q, f) ∷ t) p ≡ none =
          get-Behind p ((q, f) ∷ t) (ahead, Behind-trans p q t ahead h) in
        absurd (cc (ap see_option missing, same_entry, ap see_option (get_first p e s)))
    | inr e' ↦ e'
  ]

  same_tail :
      (p : Bytes) (e f : Entry) (s t : Tree)
      → Behind p s
      → Behind p t
      → ((path : Bytes) → seen_at ((p, e) ∷ s) path ≡ seen_at ((p, f) ∷ t) path)
      → (path : Bytes) → seen_at s path ≡ seen_at t path
  same_tail p e f s t h k same_entries path = elim (Bool-cases (same_text p path)) [
    | inl here ↦
        let there = same→eq Text-discrete p path here in
        subst (λ q. seen_at s q ≡ seen_at t q) there
          (ap see_option (get-Behind p s h) ∙ sym (ap see_option (get-Behind p t k)))
    | inr other ↦
        sym (ap see_option (get_other p path e s other))
        ∙ same_entries path
        ∙ ap see_option (get_other p path f t other)
  ]

  pub sorted-extensional :
      (s t : Tree)
      → IsSorted s
      → IsSorted t
      → ((path : Bytes) → seen_at s path ≡ seen_at t path)
      → seen_items s ≡ seen_items t
  unfolding get
  sorted-extensional [] [] h k same_entries = refl
  sorted-extensional [] ((q, f) ∷ t) h k same_entries =
      absurd (cc (same_entries q, ap see_option (get_first q f t)))
  sorted-extensional ((p, e) ∷ s) [] h k same_entries =
      absurd (cc (same_entries p, ap see_option (get_first p e s)))
  sorted-extensional ((p, e) ∷ s) ((q, f) ∷ t) h k same_entries =
      elim (Bool-cases (same_text p q)) [
        | inr differ ↦
            let late = front-agrees p q e f s t k.0 (same_entries p) in
            let early = front-agrees q p f e t s h.0 (sym (same_entries q)) in
            absurd (cc (before-total p q late differ, early))
        | inl agree ↦
            let path_eq = same→eq Text-discrete p q agree in
            let aligned : (path : Bytes) → seen_at ((p, e) ∷ s) path ≡ seen_at ((p, f) ∷ t) path =
              subst (λ r. (path : Bytes) → seen_at ((p, e) ∷ s) path ≡ seen_at ((r, f) ∷ t) path)
                (sym path_eq) same_entries in
            let behind = subst (λ r. Behind r t) (sym path_eq) k.0 in
            let entry_eq : see e ≡ see f =
              cc (aligned p, ap see_option (get_first p e s), ap see_option (get_first p f t)) in
            let rest_eq = sorted-extensional s t h.1 k.1 (same_tail p e f s t h.0 behind aligned) in
            cc (path_eq, entry_eq, rest_eq)
      ]

  -- Two trees that the operations build, in whatever order, and that are seen alike at every path
  -- have the same items.
  pub built-extensional :
      (s t : Tree)
      → Built s
      → Built t
      → ((path : Bytes) → seen_at s path ≡ seen_at t path)
      → seen_items s ≡ seen_items t
  built-extensional s t h k = sorted-extensional s t (Built-IsSorted h) (Built-IsSorted k)

  -- The first item of a path.
  abbrev item_at : List (Bytes × S) → Bytes → Option S
  item_at [] path = none
  item_at ((p, x) ∷ items) path = if same_text p path then some x else item_at items path

  seen_at-items : (tree : Tree) (path : Bytes) → seen_at tree path ≡ item_at (seen_items tree) path
  unfolding get
  seen_at-items [] path = refl
  seen_at-items ((p, e) ∷ tree) path = elim (Bool-cases (same_text p path)) [
    | inl e' ↦ rw e' refl
    | inr e' ↦ rw e' (seen_at-items tree path)
  ]

  -- Trees with the same items are seen alike.
  pub seen_at-seen_items :
      (s t : Tree) → seen_items s ≡ seen_items t → (path : Bytes) → seen_at s path ≡ seen_at t path
  seen_at-seen_items s t h path =
      seen_at-items s path ∙ ap (λ items. item_at items path) h ∙ sym (seen_at-items t path)
