-- ===== src/Scan/WalkLaws.antt =====
-- What a scan finds: every visible file, and nothing else.
use mathlib.Core.Path.{subst}
use oxidrive.Base.{
  ℕ, ◌≡◌, sym, ap, ◌∙◌, ◌⊎◌, inl, inr, true, false, some, List, [], arith, Bool-cases,
}
use oxidrive.Text.{Text, text_eq}
use oxidrive.Text.Order.{text_eq_iff, text_eq_refl}
use oxidrive.TextMap.{TextMap, lookup, insert, contains_key}
use oxidrive.TextMap.Order.{IsOrdered, upsert-IsOrdered}
use oxidrive.TextMap.Laws.{lookup-insert_at}
use oxidrive.Types.{Timestamp, LocalFile}
use oxidrive.Types.Path.{RelativePath}
use oxidrive.Scan.{is_ignored, child_path, is_passed_over}
use oxidrive.Scan.Walk.{
  Node, Entries, entry, end, symlink, other, unreadable, directory, file, unreadable_directory,
  walk_tree, walk_node, scan_local,
}
use oxidrive.Scan.WalkGrows.{some-inj, walk-entry, Grows-same, walk-Grows, node-Grows, walk-through}

-- A file that a scan is to see: no entry on the way to it has an internal name, is ignored or is a
-- symbolic link.
pub data IsVisible (patterns : List Text) : RelativePath → Entries → LocalFile → Type 0 where
  here :
      (rel_dir : RelativePath) (name md5 : Text) (mtime : Timestamp) (size : ℕ) (more : Entries)
      → is_passed_over rel_dir name patterns ≡ false
      → IsVisible patterns rel_dir
          (entry name (file md5 mtime size) more)
          (record { path = child_path rel_dir name; md5 = md5; mtime = mtime; size = size })
  inside :
      (rel_dir : RelativePath) (name : Text) (entries more : Entries) (f : LocalFile)
      → is_passed_over rel_dir name patterns ≡ false
      → IsVisible patterns (child_path rel_dir name) entries f
      → IsVisible patterns rel_dir (entry name (directory entries) more) f
  further :
      (rel_dir : RelativePath) (name : Text) (node : Node) (more : Entries) (f : LocalFile)
      → IsVisible patterns rel_dir more f
      → IsVisible patterns rel_dir (entry name node more) f

has-insert :
    (path : Text) (f : LocalFile) (out : TextMap LocalFile)
    → IsOrdered out
    → contains_key path (insert path f out) ≡ true
has-insert path f out o = ground (arith, lookup-insert_at path path f out o, text_eq_refl path)

-- A visible file is found.
walk-finds :
    (patterns : List Text) (rel_dir : RelativePath) (entries : Entries) (f : LocalFile)
    (out m : TextMap LocalFile)
    → IsOrdered out
    → IsVisible patterns rel_dir entries f
    → walk_tree rel_dir patterns entries out ≡ some m
    → contains_key f.path m ≡ true
unfolding walk_tree walk_node
walk-finds patterns rel_dir _ _ out m o (IsVisible.here _ name md5 mtime size more v) h =
    let rel = child_path rel_dir name in
    let (out', g, h') = walk-through rel_dir patterns name (file md5 mtime size) more out m v h in
    let f : LocalFile = record { path = rel; md5 = md5; mtime = mtime; size = size } in
    let (o', same) = Grows-same (insert rel f out) out' g (upsert-IsOrdered (λ _. f) rel f out o) in
    (walk-Grows rel_dir patterns more out' m h' o').1 rel (same rel (has-insert rel f out o))
walk-finds patterns rel_dir _ f out m o (IsVisible.inside _ name entries more _ v i) h =
    let rel = child_path rel_dir name in
    let (out', g, h') = walk-through rel_dir patterns name (directory entries) more out m v h in
    let o' = (walk-Grows rel patterns entries out out' g o).0 in
    (walk-Grows rel_dir patterns more out' m h' o').1 f.path
      (walk-finds patterns rel entries f out out' o i g)
walk-finds patterns rel_dir _ f out m o (IsVisible.further _ name node more _ i) h =
    elim (walk-entry rel_dir patterns name node more out m h) [
      | inl (e, h') ↦ walk-finds patterns rel_dir more f out m o i h'
      | inr (out', e, g, h') ↦
          walk-finds patterns rel_dir more f out' m
            (node-Grows (child_path rel_dir name) patterns node out out' g o).0 i h'
    ]

-- What is found comes from a visible file, or was there before.
abbrev IsFrom : List Text → RelativePath → Entries → TextMap LocalFile → TextMap LocalFile → Type 0
IsFrom patterns rel_dir entries out m =
    (p : Text) (f : LocalFile)
    → IsOrdered out
    → lookup p m ≡ some f
    → (lookup p out ≡ some f) ⊎ ((f.path ≡ p) × IsVisible patterns rel_dir entries f)

IsFrom-same :
    (patterns : List Text) (rel_dir : RelativePath) (entries : Entries) (out m : TextMap LocalFile)
    → some out ≡ some m
    → IsFrom patterns rel_dir entries out m
IsFrom-same patterns rel_dir entries out m h p f o g = inl (ap (lookup p) (some-inj out m h) ∙ g)

IsFrom-file :
    (patterns : List Text) (rel_dir : RelativePath) (name md5 : Text) (mtime : Timestamp) (size : ℕ)
    (more : Entries) (out m : TextMap LocalFile)
    → is_passed_over rel_dir name patterns ≡ false
    → walk_node (child_path rel_dir name) patterns (file md5 mtime size) out ≡ some m
    → IsFrom patterns rel_dir (entry name (file md5 mtime size) more) out m
unfolding walk_tree walk_node
IsFrom-file patterns rel_dir name md5 mtime size more out m v h p f o g =
    let rel = child_path rel_dir name in
    let own : LocalFile = record { path = rel; md5 = md5; mtime = mtime; size = size } in
    let at : lookup p (insert rel own out) ≡ some f =
      ap (lookup p) (some-inj (insert rel own out) m h) ∙ g in
    elim (Bool-cases (text_eq p rel)) [
      | inr e ↦ inl (ground (arith, e, at, lookup-insert_at p rel own out o))
      | inl e ↦
          let q : own ≡ f =
            some-inj own f (ground (arith, e, at, lookup-insert_at p rel own out o)) in
          inr (
            sym (ap (λ x. x.path) q) ∙ sym ((text_eq_iff p rel).0 e),
            subst (IsVisible patterns rel_dir (entry name (file md5 mtime size) more)) q
                (IsVisible.here rel_dir name md5 mtime size more v),
          )
    ]

entry-IsFrom :
    (patterns : List Text) (rel_dir : RelativePath) (name : Text) (node : Node) (more : Entries)
    (out m : TextMap LocalFile)
    → ((o : TextMap LocalFile)
        → is_passed_over rel_dir name patterns ≡ false
        → walk_node (child_path rel_dir name) patterns node out ≡ some o
        → IsFrom patterns rel_dir (entry name node more) out o)
    → ((o : TextMap LocalFile)
        → walk_tree rel_dir patterns more o ≡ some m
        → IsFrom patterns rel_dir more o m)
    → walk_tree rel_dir patterns (entry name node more) out ≡ some m
    → IsFrom patterns rel_dir (entry name node more) out m
entry-IsFrom patterns rel_dir name node more out m through past h p f o g =
    elim (walk-entry rel_dir patterns name node more out m h) [
      | inl (e, h') ↦ elim (past out h' p f o g) [
        | inl old ↦ inl old
        | inr (q, v) ↦ inr (q, IsVisible.further rel_dir name node more f v)
      ]
      | inr (out', e, n, h') ↦
          let o' = (node-Grows (child_path rel_dir name) patterns node out out' n o).0 in
          elim (past out' h' p f o' g) [
            | inl old ↦ through out' e n p f o old
            | inr (q, v) ↦ inr (q, IsVisible.further rel_dir name node more f v)
          ]
    ]

walk-IsFrom :
    (patterns : List Text) (rel_dir : RelativePath) (entries : Entries) (out m : TextMap LocalFile)
    → walk_tree rel_dir patterns entries out ≡ some m
    → IsFrom patterns rel_dir entries out m
unfolding walk_tree walk_node
walk-IsFrom patterns rel_dir end out m h = IsFrom-same patterns rel_dir end out m h
walk-IsFrom patterns rel_dir unreadable_directory out m h = cc
walk-IsFrom patterns rel_dir (entry name symlink more) out m h =
    entry-IsFrom patterns rel_dir name symlink more out m
      (λ o v. IsFrom-same patterns rel_dir _ out o) (λ o. walk-IsFrom patterns rel_dir more o m) h
walk-IsFrom patterns rel_dir (entry name other more) out m h =
    entry-IsFrom patterns rel_dir name other more out m
      (λ o v. IsFrom-same patterns rel_dir _ out o) (λ o. walk-IsFrom patterns rel_dir more o m) h
walk-IsFrom patterns rel_dir (entry name unreadable more) out m h =
    entry-IsFrom patterns rel_dir name unreadable more out m (λ o v g. cc)
      (λ o. walk-IsFrom patterns rel_dir more o m) h
walk-IsFrom patterns rel_dir (entry name (file md5 mtime size) more) out m h =
    entry-IsFrom patterns rel_dir name (file md5 mtime size) more out m
      (λ o. IsFrom-file patterns rel_dir name md5 mtime size more out o)
      (λ o. walk-IsFrom patterns rel_dir more o m) h
walk-IsFrom patterns rel_dir (entry name (directory entries) more) out m h =
    entry-IsFrom patterns rel_dir name (directory entries) more out m
      (λ o v g p f od at.
        elim (walk-IsFrom patterns (child_path rel_dir name) entries out o g p f od at) [
          | inl old ↦ inl old
          | inr (q, w) ↦ inr (q, IsVisible.inside rel_dir name entries more f v w)
        ])
      (λ o. walk-IsFrom patterns rel_dir more o m) h

not-ignored :
    (patterns : List Text) (rel_dir : RelativePath) (entries : Entries) (f : LocalFile)
    → IsVisible patterns rel_dir entries f
    → is_ignored f.path patterns ≡ false
unfolding is_passed_over
not-ignored patterns rel_dir _ _ (IsVisible.here _ name md5 mtime size more v) = ground (arith, v)
not-ignored patterns rel_dir _ f (IsVisible.inside _ name entries more _ v i) =
    not-ignored patterns (child_path rel_dir name) entries f i
not-ignored patterns rel_dir _ f (IsVisible.further _ name node more _ i) =
    not-ignored patterns rel_dir more f i

-- A scan that ends without an error gives a map with an entry at the path of every visible file, and
-- every entry of it is a visible file, stands at that file's path and is not ignored. A file is
-- visible if no entry on the way to it has an internal name, is ignored or is a symbolic link.
pub scan_local-IsVisible :
    (root : Entries) (patterns : List Text) (m : TextMap LocalFile)
    → scan_local root patterns ≡ some m
    → ((f : LocalFile) → IsVisible patterns [] root f → contains_key f.path m ≡ true)
      × ((p : Text) (f : LocalFile)
          → lookup p m ≡ some f
          → (f.path ≡ p) × IsVisible patterns [] root f × (is_ignored p patterns ≡ false))
unfolding scan_local lookup
scan_local-IsVisible root patterns m h = (
  λ f v. walk-finds patterns [] root f [] m tt v h,
  λ p f g. elim (walk-IsFrom patterns [] root [] m h p f tt g) [
    | inl old ↦ cc
    | inr (q, v) ↦
        (q, v, ap (λ x. is_ignored x patterns) (sym q) ∙ not-ignored patterns [] root f v)
  ],
)
