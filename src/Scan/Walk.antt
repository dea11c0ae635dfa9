-- ===== src/Scan/Walk.antt =====
-- `walk_tree` and `scan_local` of src/sync/scan.rs over the entries of a directory. A file that cannot
-- be read ends the scan with an error.
use oxidrive.Base.{ℕ, Bool, true, false, Option, none, some, List, []}
use oxidrive.Text.{Text}
use oxidrive.TextMap.{TextMap, insert, upsert}
use oxidrive.Types.{Timestamp, LocalFile}
use oxidrive.Types.Path.{RelativePath, normalize_relative}
use oxidrive.Scan.{child_path, is_passed_over}

mutual
  -- What `symlink_metadata` and the file's content give for a directory entry.
  pub data Node : Type 0 where
    symlink : Node
    directory : Entries → Node
    file : (md5 : Text) (mtime : Timestamp) (size : ℕ) → Node
    other : Node
    unreadable : Node

  -- The entries of a directory with their names, in the order they are read, or a directory that
  -- cannot be read.
  pub data Entries : Type 0 where
    end : Entries
    entry : (name : Text) → Node → Entries → Entries
    unreadable_directory : Entries

-- Past an entry, or through it.
abbrev pub past_or :
    Bool
    → Option (TextMap LocalFile)
    → Option (TextMap LocalFile)
    → (TextMap LocalFile → Option (TextMap LocalFile))
    → Option (TextMap LocalFile)
past_or true past through more = past
past_or false past none more = none
past_or false past (some out) more = more out

unfoldable mutual
  unfolding is_passed_over normalize_relative upsert

  pub walk_tree :
      RelativePath → List Text → Entries → TextMap LocalFile → Option (TextMap LocalFile)
  walk_tree rel_dir patterns end out = some out
  walk_tree rel_dir patterns unreadable_directory out = none
  walk_tree rel_dir patterns (entry name node more) out =
      past_or (is_passed_over rel_dir name patterns) (walk_tree rel_dir patterns more out)
        (walk_node (child_path rel_dir name) patterns node out)
        (λ out'. walk_tree rel_dir patterns more out')

  pub walk_node : RelativePath → List Text → Node → TextMap LocalFile → Option (TextMap LocalFile)
  walk_node rel patterns symlink out = some out
  walk_node rel patterns other out = some out
  walk_node rel patterns unreadable out = none
  walk_node rel patterns (directory entries) out = walk_tree rel patterns entries out
  walk_node rel patterns (file md5 mtime size) out =
      some (insert rel (record { path = rel; md5 = md5; mtime = mtime; size = size }) out)

unfoldable pub scan_local : Entries → List Text → Option (TextMap LocalFile)
unfolding walk_tree
scan_local root ignore_patterns = walk_tree [] ignore_patterns root []
