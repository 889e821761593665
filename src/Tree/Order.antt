-- ===== src/Tree/Order.antt =====
-- The entries of a tree node: sorted by name, and found by name.
use t_sync_sdk_go.Base.{
  ◌≡◌, refl, ◌≢◌, ◌∙◌, true, false, Option, none, some, List, [], ◌∷◌, arith, ◌==◌, bytes_eq,
  if◌then◌else◌, Bool-cases, inl, inr,
}
use t_sync_sdk_go.Base.Bytes.{Bytes, less, less_total}
use t_sync_sdk_go.Metadata.{EntryNode, TreeEntry}
use t_sync_sdk_go.Tree.{insert_entry, sort_entries, is_sorted}

-- The node of the first entry of a name.
unfoldable pub find_entry : Bytes → List TreeEntry → Option EntryNode
find_entry x [] = none
find_entry x (e ∷ es) = if x == e.name then some e.node else find_entry x es

-- No two entries have the same name.
abbrev pub Unique : List TreeEntry → Type 0
Unique [] = Unit
Unique (e ∷ es) = (find_entry e.name es ≡ none) × Unique es

pub find_entry-insert_entry :
    (x : Bytes) (e : TreeEntry) (es : List TreeEntry)
    → find_entry e.name es ≡ none
    → find_entry x (insert_entry e es) ≡ (if x == e.name then some e.node else find_entry x es)
unfolding find_entry insert_entry
find_entry-insert_entry x e [] h = refl
find_entry-insert_entry x e (f ∷ es) h = ground (arith, find_entry-insert_entry x e es)

-- Sorting changes what is found under no name.
pub find_entry-sort_entries :
    (x : Bytes) (es : List TreeEntry) → Unique es → find_entry x (sort_entries es) ≡ find_entry x es
unfolding find_entry sort_entries
find_entry-sort_entries x [] u = refl
find_entry-sort_entries x (e ∷ es) (fresh, u) =
    let here = find_entry-sort_entries e.name es u in
    ground
      (arith, here, find_entry-sort_entries x es u, find_entry-insert_entry x e (sort_entries es))

-- The head of a sorted list, if there is one, comes after a name.
abbrev Above : Bytes → List TreeEntry → Type 0
Above x [] = Unit
Above x (e ∷ es) = less x e.name ≡ true

Above-insert_entry :
    (x : Bytes) (e : TreeEntry) (es : List TreeEntry)
    → less x e.name ≡ true
    → Above x es
    → Above x (insert_entry e es)
unfolding insert_entry
Above-insert_entry x e [] h a = h
Above-insert_entry x e (f ∷ es) h a = ground arith

is_sorted-cons :
    (e : TreeEntry) (es : List TreeEntry)
    → Above e.name es
    → is_sorted es ≡ true
    → is_sorted (e ∷ es) ≡ true
unfolding is_sorted
is_sorted-cons e [] a s = refl
is_sorted-cons e (f ∷ es) a s = ground arith

is_sorted-Above :
    (e : TreeEntry) (es : List TreeEntry) → is_sorted (e ∷ es) ≡ true → Above e.name es
unfolding is_sorted
is_sorted-Above e [] s = tt
is_sorted-Above e (f ∷ es) s = ground arith

is_sorted-tail :
    (e : TreeEntry) (es : List TreeEntry) → is_sorted (e ∷ es) ≡ true → is_sorted es ≡ true
unfolding is_sorted
is_sorted-tail e [] s = refl
is_sorted-tail e (f ∷ es) s = ground arith

is_sorted-insert_entry :
    (e : TreeEntry) (es : List TreeEntry)
    → find_entry e.name es ≡ none
    → is_sorted es ≡ true
    → is_sorted (insert_entry e es) ≡ true
unfolding insert_entry find_entry
is_sorted-insert_entry e [] h s = is_sorted-cons e [] tt s
is_sorted-insert_entry e (f ∷ es) h s = elim (Bool-cases (less f.name e.name)) [
  | inl later ↦
      rw (later, insert_entry)
        (is_sorted-cons f (insert_entry e es)
          (Above-insert_entry f.name e es later (is_sorted-Above f es s))
          (is_sorted-insert_entry e es (ground arith) (is_sorted-tail f es s)))
  | inr not_later ↦
      rw (not_later, insert_entry)
        (is_sorted-cons e (f ∷ es) (earlier e f not_later (ground arith)) s)
]
  where
    earlier :
        (e f : TreeEntry) → less f.name e.name ≡ false → e.name ≢ f.name → less e.name f.name ≡ true
    earlier e f h ne = elim (Bool-cases (less e.name f.name)) [
      | inl yes_less ↦ yes_less
      | inr no_less ↦ absurd (ne (less_total e.name f.name no_less h))
    ]

-- A list of entries with different names passes the order check of the walks once it is sorted.
pub is_sorted-sort_entries : (es : List TreeEntry) → Unique es → is_sorted (sort_entries es) ≡ true
unfolding sort_entries is_sorted
is_sorted-sort_entries [] u = refl
is_sorted-sort_entries (e ∷ es) (fresh, u) =
    is_sorted-insert_entry e (sort_entries es) (find_entry-sort_entries e.name es u ∙ fresh)
      (is_sorted-sort_entries es u)
