-- ===== src/Tree/Collect.antt =====
-- What `walkCollect` gathers: a set of hashes that is closed under going to subtrees, with the
-- keys of all files in their nodes.
pub mod Keep
pub mod Total
use t_sync_sdk_go.Base.{
  ℕ, zero, suc, ◌≡◌, refl, ◌∙◌, sym, ap, subst, ◌⊎◌, inl, inr, Bool, true, false, ◌||◌, Option,
  none, some, List, [], ◌∷◌, arith, ◌==◌, bytes_eq, contains, if◌then◌else◌, eq→==, Bool-cases,
  Option-cases, All,
}
use t_sync_sdk_go.Base.Bytes.{Bytes}
use t_sync_sdk_go.Base.Dict
use t_sync_sdk_go.Errors.{GoError, Result, ok, err, Result-cases}
use t_sync_sdk_go.Metadata.{
  FileLeaf, EntryNode, file, subtree, unset, TreeEntry, TreeNode, Codec, tree_hash,
}
use t_sync_sdk_go.Names.{validate_name}
use t_sync_sdk_go.Tree.{
  Trees, leaf_key, Live, Walk, walked, failed, too_deep, then_walk, Checked, good, bad, check_node,
  is_sorted, collect_node, collect_entry, collect_entries, collect,
}

-- What the entry needs has been gathered.
abbrev pub Covered : Live → EntryNode → Type 0
Covered live (file none) = Unit
Covered live (file (some leaf)) = contains live.files (leaf_key leaf) ≡ true
Covered live (subtree h) = contains live.trees h ≡ true
Covered live unset = Unit

abbrev pub Covers : Live → TreeEntry → Type 0
Covers live e = Covered live e.node

pub Walk-cases :
    {A : Type 0} (w : Walk A)
    → ((a : A) × (w ≡ walked a)) ⊎ ((e : GoError) × (w ≡ failed e)) ⊎ (w ≡ too_deep)
Walk-cases (walked a) = inl (a, refl)
Walk-cases (failed e) = inr (inl (e, refl))
Walk-cases too_deep = inr (inr refl)

pub Checked-cases : (c : Checked) → ((n : TreeNode) × (c ≡ good n)) ⊎ (c ≡ bad)
Checked-cases (good n) = inl (n, refl)
Checked-cases bad = inr refl

module _ (codec : Codec) (trees : Trees) where
  -- How a walk adds to what was gathered: it drops nothing, and what it adds is in the store, with
  -- everything below.
  pub record Gathers (old new : Live) : Type 0 where
    pub keeps_trees : (h : Bytes) → contains old.trees h ≡ true → contains new.trees h ≡ true
    pub keeps_files : (k : Bytes) → contains old.files k ≡ true → contains new.files k ≡ true
    pub closed :
        (h : Bytes)
        → contains new.trees h ≡ true
        → (contains old.trees h ≡ true)
          ⊎ ((node : TreeNode) × (Dict.lookup h trees ≡ some node)
              × (All (Covers new) node.entries))

  pub Gathers-refl : (a : Live) → Gathers a a
  Gathers-refl a = record { keeps_trees = λ h x. x; keeps_files = λ k x. x; closed = λ h x. inl x }

  Covered-mono : (a b : Live) (n : EntryNode) → Gathers a b → Covered a n → Covered b n
  Covered-mono a b (file none) g c = tt
  Covered-mono a b (file (some leaf)) g c = g.keeps_files (leaf_key leaf) c
  Covered-mono a b (subtree h) g c = g.keeps_trees h c
  Covered-mono a b unset g c = tt

  All-mono :
      (a b : Live) (es : List TreeEntry) → Gathers a b → All (Covers a) es → All (Covers b) es
  All-mono a b [] g c = tt
  All-mono a b (e ∷ es) g c = (Covered-mono a b e.node g c.0, All-mono a b es g c.1)

  pub Gathers-trans : (a b c : Live) → Gathers a b → Gathers b c → Gathers a c
  Gathers-trans a b c g k = record {
    keeps_trees = λ h x. k.keeps_trees h (g.keeps_trees h x);
    keeps_files = λ h x. k.keeps_files h (g.keeps_files h x);
    closed = λ h x. elim (k.closed h x) [
      | inr found ↦ inr found
      | inl in_b ↦ elim (g.closed h in_b) [
        | inl in_a ↦ inl in_a
        | inr (node, here, cover) ↦ inr (node, here, All-mono b c node.entries k cover)
      ]
    ];
  }

  abbrev Adds : (Bytes → Live → Walk Live) → Type 0
  Adds below =
      (h : Bytes) (a b : Live) → below h a ≡ walked b → Gathers a b × (contains b.trees h ≡ true)

  module _ (below : Bytes → Live → Walk Live) (adds : Adds below) where
    collect_node-Gathers :
        (n : EntryNode) (a b : Live)
        → collect_node codec trees below n a ≡ walked b
        → Gathers a b × Covered b n
    collect_node-Gathers (file none) a b e = absurd (ground arith)
    collect_node-Gathers (file (some leaf)) a b e =
        let c : Live = record a { files = leaf_key leaf ∷ a.files } in
        let same : c ≡ b = ground arith in
        subst (λ z. Gathers a z × Covered z (file (some leaf))) same
          (
            record {
              keeps_trees = λ h x. x;
              keeps_files = λ k x. ground arith;
              closed = λ h x. inl x;
            },
            ground arith,
          )
    collect_node-Gathers (subtree []) a b e = absurd (ground arith)
    collect_node-Gathers (subtree (c ∷ h)) a b e = adds (c ∷ h) a b e
    collect_node-Gathers unset a b e = absurd (ground arith)

    collect_entry-Gathers :
        (e : TreeEntry) (a b : Live)
        → collect_entry codec trees below e a ≡ walked b
        → Gathers a b × Covers b e
    unfolding collect_entry
    collect_entry-Gathers e a b h = elim (Result-cases (validate_name e.name)) [
      | inl (u, fine) ↦ collect_node-Gathers e.node a b (ground arith)
      | inr (x, bad_one) ↦ absurd (ground arith)
    ]

    collect_entries-Gathers :
        (es : List TreeEntry) (a b : Live)
        → collect_entries codec trees below es a ≡ walked b
        → Gathers a b × All (Covers b) es
    unfolding collect_entries
    collect_entries-Gathers [] a b h =
        let same : a ≡ b = ground arith in (subst (Gathers a) same (Gathers-refl a), tt)
    collect_entries-Gathers (e ∷ es) a b h =
        elim (Walk-cases (collect_entry codec trees below e a)) [
          | inl (c, w) ↦
              let (g, cover) = collect_entry-Gathers e a c w in
              let (k, covers) = collect_entries-Gathers es c b (ground arith) in
              (Gathers-trans a c b g k, (Covered-mono c b e.node k cover, covers))
          | inr (inl (x, w)) ↦ absurd (ground arith)
          | inr (inr w) ↦ absurd (ground arith)
        ]

  -- The step of `walkCollect` at a node that it has not visited.
  visit :
      (h : Bytes) (node : TreeNode) (a b : Live)
      → Dict.lookup h trees ≡ some node
      → Gathers (record a { trees = h ∷ a.trees }) b
      → All (Covers b) node.entries
      → Gathers a b × (contains b.trees h ≡ true)
  visit h node a b here g covers = (
    record {
      keeps_trees = λ k x. g.keeps_trees k (ground arith);
      keeps_files = g.keeps_files;
      closed = λ k x. elim (g.closed k x) [
        | inr found ↦ inr found
        | inl known ↦ elim (bytes_eq.dec h k) [
          | yes same ↦ inr (node, ap (λ j. Dict.lookup j trees) (sym same) ∙ here, covers)
          | no other ↦ inl (ground arith)
        ]
      ];
    },
    g.keeps_trees h (ground arith),
  )

  pub check_node-good :
      (h : Bytes) (node : TreeNode)
      → check_node codec trees h ≡ good node
      → Dict.lookup h trees ≡ some node
  unfolding check_node
  check_node-good h node e = ground arith

  pub collect-Gathers : (fuel : ℕ) → Adds (collect codec trees fuel)
  unfolding collect
  collect-Gathers zero h a b e = absurd (ground arith)
  collect-Gathers (suc fuel) h a b e = elim (Bool-cases (contains a.trees h)) [
    | inl visited ↦
        let same : a ≡ b = ground arith in
        subst (λ z. Gathers a z × (contains z.trees h ≡ true)) same (Gathers-refl a, visited)
    | inr new ↦ elim (Checked-cases (check_node codec trees h)) [
      | inr wrong ↦ absurd (ground arith)
      | inl (node, right) ↦ elim (Bool-cases (is_sorted node.entries)) [
        | inr unsorted ↦ absurd (ground arith)
        | inl sorted ↦
            let (g, covers) =
              collect_entries-Gathers (collect codec trees fuel) (collect-Gathers fuel) node.entries
                (record a { trees = h ∷ a.trees }) b (ground arith) in
            visit h node a b (check_node-good h node right) g covers
      ]
    ]
  ]
