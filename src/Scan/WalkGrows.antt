-- ===== src/Scan/WalkGrows.antt =====
-- The entries of a directory are walked one by one, and a walk only adds to the map.
use mathlib.Core.Path.{subst}
use oxidrive.Base.{◌≡◌, refl, ◌⊎◌, inl, inr, Bool, true, false, Option, none, some, List, arith}
use oxidrive.Text.{Text}
use oxidrive.TextMap.{TextMap, insert, contains_key}
use oxidrive.TextMap.Order.{IsOrdered, upsert-IsOrdered}
use oxidrive.TextMap.Laws.{lookup-insert_at}
use oxidrive.Types.{LocalFile}
use oxidrive.Types.Path.{RelativePath}
use oxidrive.Scan.{child_path, is_passed_over}
use oxidrive.Scan.Walk.{
  past_or, Node, Entries, entry, end, symlink, other, unreadable, directory, file,
  unreadable_directory, walk_tree, walk_node,
}

pub some-inj {ℓ} : {A : Type ℓ} (a b : A) → some a ≡ some b → a ≡ b
some-inj a b h = cc

-- The two ways past one entry.
pub walk-entry :
    (rel_dir : RelativePath) (patterns : List Text) (name : Text) (node : Node) (more : Entries)
    (out m : TextMap LocalFile)
    → walk_tree rel_dir patterns (entry name node more) out ≡ some m
    → ((is_passed_over rel_dir name patterns ≡ true)
        × (walk_tree rel_dir patterns more out ≡ some m))
      ⊎ ((out' : TextMap LocalFile) × (is_passed_over rel_dir name patterns ≡ false)
          × (walk_node (child_path rel_dir name) patterns node out ≡ some out')
          × (walk_tree rel_dir patterns more out' ≡ some m))
unfolding walk_tree
walk-entry rel_dir patterns name node more out m h =
    go (is_passed_over rel_dir name patterns)
      (walk_node (child_path rel_dir name) patterns node out) h
  where
    go :
        (b : Bool) (r : Option (TextMap LocalFile))
        → past_or b (walk_tree rel_dir patterns more out) r (λ o. walk_tree rel_dir patterns more o)
          ≡ some m
        → ((b ≡ true) × (walk_tree rel_dir patterns more out ≡ some m))
          ⊎ ((out' : TextMap LocalFile) × (b ≡ false)
              × (r ≡ some out')
              × (walk_tree rel_dir patterns more out' ≡ some m))
    go true r h = inl (refl, h)
    go false none h = cc
    go false (some out') h = inr (out', refl, refl, h)

-- The map stays one, and an entry stays.
abbrev pub Grows : TextMap LocalFile → TextMap LocalFile → Type 0
Grows out m =
    IsOrdered out → IsOrdered m × ((p : Text) → contains_key p out ≡ true → contains_key p m ≡ true)

pub Grows-same : (out m : TextMap LocalFile) → some out ≡ some m → Grows out m
Grows-same out m h o =
    subst (λ x. IsOrdered x × ((p : Text) → contains_key p out ≡ true → contains_key p x ≡ true))
      (some-inj out m h) (o, λ p k. k)

Grows-insert :
    (path : Text) (f : LocalFile) (out m : TextMap LocalFile)
    → some (insert path f out) ≡ some m
    → Grows out m
Grows-insert path f out m h o =
    let o' = upsert-IsOrdered (λ _. f) path f out o in
    let keeps : (p : Text) → contains_key p out ≡ true → contains_key p (insert path f out) ≡ true =
      λ p k. ground (arith, k, lookup-insert_at p path f out o) in
    let (om, same) = Grows-same (insert path f out) m h o' in (om, λ p k. same p (keeps p k))

Grows-trans : (a b c : TextMap LocalFile) → Grows a b → Grows b c → Grows a c
Grows-trans a b c f g o = let (ob, k) = f o in let (oc, l) = g ob in (oc, λ p h. l p (k p h))

module _ (rel_dir : RelativePath) (patterns : List Text) (name : Text) (node : Node)
    (more : Entries) where
  entry-Grows :
      (out m : TextMap LocalFile)
      → ((o : TextMap LocalFile)
          → walk_node (child_path rel_dir name) patterns node out ≡ some o
          → Grows out o)
      → ((o : TextMap LocalFile) → walk_tree rel_dir patterns more o ≡ some m → Grows o m)
      → walk_tree rel_dir patterns (entry name node more) out ≡ some m
      → Grows out m
  entry-Grows out m through past h = elim (walk-entry rel_dir patterns name node more out m h) [
    | inl (e, h') ↦ past out h'
    | inr (o, e, g, h') ↦ Grows-trans out o m (through o g) (past o h')
  ]

pub walk-Grows :
    (rel_dir : RelativePath) (patterns : List Text) (entries : Entries) (out m : TextMap LocalFile)
    → walk_tree rel_dir patterns entries out ≡ some m
    → Grows out m
unfolding walk_tree
walk-Grows rel_dir patterns end out m h = Grows-same out m h
walk-Grows rel_dir patterns unreadable_directory out m h = cc
walk-Grows rel_dir patterns (entry name symlink more) out m h =
    entry-Grows rel_dir patterns name symlink more out m (Grows-same out)
      (λ o. walk-Grows rel_dir patterns more o m) h
walk-Grows rel_dir patterns (entry name other more) out m h =
    entry-Grows rel_dir patterns name other more out m (Grows-same out)
      (λ o. walk-Grows rel_dir patterns more o m) h
walk-Grows rel_dir patterns (entry name unreadable more) out m h =
    entry-Grows rel_dir patterns name unreadable more out m (λ o g. cc)
      (λ o. walk-Grows rel_dir patterns more o m) h
walk-Grows rel_dir patterns (entry name (directory entries) more) out m h =
    entry-Grows rel_dir patterns name (directory entries) more out m
      (walk-Grows (child_path rel_dir name) patterns entries out)
      (λ o. walk-Grows rel_dir patterns more o m) h
walk-Grows rel_dir patterns (entry name (file md5 mtime size) more) out m h =
    entry-Grows rel_dir patterns name (file md5 mtime size) more out m
      (Grows-insert (child_path rel_dir name) _ out) (λ o. walk-Grows rel_dir patterns more o m) h

pub node-Grows :
    (rel : RelativePath) (patterns : List Text) (node : Node) (out m : TextMap LocalFile)
    → walk_node rel patterns node out ≡ some m
    → Grows out m
unfolding walk_tree walk_node
node-Grows rel patterns symlink out m h = Grows-same out m h
node-Grows rel patterns other out m h = Grows-same out m h
node-Grows rel patterns unreadable out m h = cc
node-Grows rel patterns (directory entries) out m h = walk-Grows rel patterns entries out m h
node-Grows rel patterns (file md5 mtime size) out m h = Grows-insert rel _ out m h

pub walk-through :
    (rel_dir : RelativePath) (patterns : List Text) (name : Text) (node : Node) (more : Entries)
    (out m : TextMap LocalFile)
    → is_passed_over rel_dir name patterns ≡ false
    → walk_tree rel_dir patterns (entry name node more) out ≡ some m
    → (o : TextMap LocalFile) × (walk_node (child_path rel_dir name) patterns node out ≡ some o)
      × (walk_tree rel_dir patterns more o ≡ some m)
walk-through rel_dir patterns name node more out m v h =
    elim (walk-entry rel_dir patterns name node more out m h) [
      | inl (e, h') ↦ ground (arith, e, v)
      | inr (o, e, g, h') ↦ (o, g, h')
    ]
