-- ===== src/Drive/FoldersMade.antt =====
-- `ensure_folder_hierarchy` makes every directory of the new files, or a request fails.
use mathlib.Core.Path.{subst}
use oxidrive.Base.{
  ◌≤◌, ◌<◌, ◌≡◌, refl, sym, ap, ◌⊎◌, inl, inr, true, Option, none, some, List, [], ◌∷◌, ◌++◌, false,
  All, IsIn, arith, Bool-cases, Option-cases, Result, ok, err,
}
use oxidrive.Text.{Text, text_eq, is_empty, rsplit_once}
use oxidrive.TextMap.{TextMap, lookup, insert, contains_key}
use oxidrive.TextMap.Order.{IsOrdered, upsert-IsOrdered}
use oxidrive.TextMap.Laws.{lookup-insert, lookup-insert_at}
use oxidrive.Drive.Folders.{
  parts_or_name, parent_or_empty, FolderError, request_failed, missing_parent, FolderClient, depth,
  collect_parent_folders, find_or_create_folder, normalize_relative_path, found_or_create, created,
  parent_folder_id, parent_and_name, inserted, make_folders, ensure_folder_hierarchy,
}
use oxidrive.Drive.FoldersRooted.{parent_of, IsRooted}
use oxidrive.Drive.FoldersNeeded.{directory, collect-directory}
use oxidrive.Drive.FoldersLaws.{IsByDepth, collect-AreRooted, collect-IsByDepth}

abbrev IsTop : Text → Type 0
IsTop rel = is_empty (parent_of rel) ≡ true

-- Each path's parent comes before it, or is one of the known ones.
abbrev IsGrounded : List Text → List Text → Type 0
IsGrounded known [] = Unit
IsGrounded known (rel ∷ rels) =
    (IsTop rel ⊎ IsIn (parent_of rel) known) × IsGrounded (rel ∷ known) rels

abbrev Below : List Text → List Text → Text → Type 0
Below known rels rel =
    IsTop rel
    ⊎ ((IsIn (parent_of rel) known ⊎ IsIn (parent_of rel) rels)
        × (depth (parent_of rel) < depth rel))

All-IsIn : (Q : Text → Type 0) (x : Text) (bs : List Text) → All Q bs → IsIn x bs → Q x
All-IsIn Q x [] a i = absurd i
All-IsIn Q x (b ∷ bs) a (inl e) = subst Q (sym e) a.0
All-IsIn Q x (b ∷ bs) a (inr i) = All-IsIn Q x bs a.1 i

All-map : (Q R : Text → Type 0) (bs : List Text) → ((b : Text) → Q b → R b) → All Q bs → All R bs
All-map Q R [] f a = tt
All-map Q R (b ∷ bs) f a = (f b a.0, All-map Q R bs f a.1)

head_lem :
    (known rels : List Text) (rel : Text)
    → Below known (rel ∷ rels) rel
    → All (λ b. depth rel ≤ depth b) rels
    → IsTop rel ⊎ IsIn (parent_of rel) known
head_lem known rels rel (inl top) a = inl top
head_lem known rels rel (inr (inl i, d)) a = inr i
head_lem known rels rel (inr (inr (inl e), d)) a = absurd (omega (arith, d, ap depth e))
head_lem known rels rel (inr (inr (inr i), d)) a =
    absurd (omega (arith, d, All-IsIn (λ b. depth rel ≤ depth b) (parent_of rel) rels a i))

tail_lem :
    (known rels : List Text) (rel b : Text)
    → Below known (rel ∷ rels) b
    → Below (rel ∷ known) rels b
tail_lem known rels rel b (inl top) = inl top
tail_lem known rels rel b (inr (inl i, d)) = inr (inl (inr i), d)
tail_lem known rels rel b (inr (inr (inl e), d)) = inr (inl (inl e), d)
tail_lem known rels rel b (inr (inr (inr i), d)) = inr (inr i, d)

by_depth-IsGrounded :
    (known rels : List Text) → All (Below known rels) rels → IsByDepth rels → IsGrounded known rels
by_depth-IsGrounded known [] a s = tt
by_depth-IsGrounded known (rel ∷ rels) a s = (
  head_lem known rels rel a.0 s.0,
  by_depth-IsGrounded (rel ∷ known) rels
      (All-map (Below known (rel ∷ rels)) (Below (rel ∷ known) rels) rels (tail_lem known rels rel)
        a.1)
      s.1,
)

abbrev pub Has : TextMap Text → Text → Type 0
Has folders k = contains_key k folders ≡ true

-- A property of the result, unless a request failed.
abbrev pub Made : {A D : Type 0} → (A → Type 0) → Result FolderError A × D → Type 0
Made Q (ok a, d) = Q a
Made Q (err request_failed, d) = Unit
Made Q (err (missing_parent p), d) = ⊥

Made-mono :
    {A D : Type 0} (Q R : A → Type 0) (r : Result FolderError A × D)
    → ((a : A) → Q a → R a)
    → Made Q r
    → Made R r
Made-mono Q R (ok a, d) f m = f a m
Made-mono Q R (err request_failed, d) f m = tt
Made-mono Q R (err (missing_parent p), d) f m = m

Has-insert :
    (k rel id : Text) (folders : TextMap Text)
    → IsOrdered folders
    → Has folders k
    → Has (insert rel id folders) k
Has-insert k rel id folders o h = elim (Bool-cases (text_eq k rel)) [
  | inl e ↦ ground (arith, e, lookup-insert_at k rel id folders o)
  | inr e ↦ ground (arith, e, h, lookup-insert_at k rel id folders o)
]

Has-insert_own :
    (rel id : Text) (folders : TextMap Text) → IsOrdered folders → Has (insert rel id folders) rel
Has-insert_own rel id folders o = ground (arith, lookup-insert rel id folders o)

parts_or_name_lem :
    (rel : Text) (o : Option (Text × Text)) → (parts_or_name rel o).0 ≡ parent_or_empty o
parts_or_name_lem rel none = refl
parts_or_name_lem rel (some p) = refl

module _ {D : Type 0} (client : FolderClient D) (root : Text) where
  parent_folder_id_lem :
      (known : List Text) (rel : Text) (folders : TextMap Text)
      → All (Has folders) known
      → IsTop rel ⊎ IsIn (parent_of rel) known
      → (id : Text) × (parent_folder_id client root rel (parent_and_name client rel).0 folders
          ≡ ok id)
  parent_folder_id_lem known rel folders a g =
      rw (parts_or_name_lem rel (rsplit_once b'/' rel)) (go g)
    where
      go :
          IsTop rel ⊎ IsIn (parent_of rel) known
          → (id : Text) × (parent_folder_id client root rel (parent_of rel) folders ≡ ok id)
      go (inl top) = (root, rw top refl)
      go (inr i) = elim (Bool-cases (is_empty (parent_of rel))) [
        | inl e ↦ (root, rw e refl)
        | inr e ↦ elim (Option-cases (lookup (parent_of rel) folders)) [
          | inl none_ ↦
              absurd (ground (arith, none_, All-IsIn (Has folders) (parent_of rel) known a i))
          | inr (id, f) ↦ (id, rw (e, f) refl)
        ]
      ]

  found_lem :
      (name id : Text) (d : D) → Made (λ _. Unit {0}) (find_or_create_folder client name id d)
  unfolding find_or_create_folder
  found_lem name id d = go (client.list_folders name id d)
    where
      fresh : (x : Option Text × D) → Made (λ _. Unit {0}) (created client x)
      fresh (none, e) = tt
      fresh (some a, e) = tt

      go : (x : Option (List Text) × D) → Made (λ _. Unit {0}) (found_or_create client name id x)
      go (none, e) = tt
      go (some [], e) = fresh (client.create_folder name id e)
      go (some (a ∷ rest), e) = tt

  abbrev AreKnown : List Text → List Text → TextMap Text → Type 0
  AreKnown known needed f = All (Has f) known × All (Has f) needed

  made_lem :
      (known needed : List Text) (folders : TextMap Text) (d : D)
      → IsGrounded known needed
      → All (Has folders) known
      → IsOrdered folders
      → Made (AreKnown known needed) (make_folders client root needed folders d)
  unfolding make_folders
  made_lem known [] folders d g a o = (a, tt)
  made_lem known (rel ∷ needed) folders d (g, gs) a o =
      go
        (λ f e h k.
          Made-mono _ _ (make_folders client root needed f e) (λ m x. (x.0.1, (x.0.0, x.1)))
            (made_lem (rel ∷ known) needed f e gs h k))
        (Option-cases (lookup rel folders))
    where
      rest : TextMap Text → D → Result FolderError (TextMap Text) × D
      rest = make_folders client root needed

      Later : Type 0
      Later =
          (f : TextMap Text) (e : D)
          → All (Has f) (rel ∷ known)
          → IsOrdered f
          → Made (AreKnown known (rel ∷ needed)) (rest f e)

      made :
          Later
          → (x : Result FolderError Text × D) → Made (λ _. Unit {0}) x
          → Made (AreKnown known (rel ∷ needed)) (inserted client rel folders rest x)
      made later (ok id, e) m =
          later (insert rel id folders) e
            (
              Has-insert_own rel id folders o,
              All-map (Has folders) (Has (insert rel id folders)) known
                  (λ k h. Has-insert k rel id folders o h) a,
            )
            (upsert-IsOrdered (λ _. id) rel id folders o)
      made later (err request_failed, e) m = tt
      made later (err (missing_parent p), e) m = m

      go :
          Later
          → (lookup rel folders ≡ none) ⊎ ((id : Text) × (lookup rel folders ≡ some id))
          → Made (AreKnown known (rel ∷ needed)) (make_folders client root (rel ∷ needed) folders d)
      go later (inr (id, e)) = rw e (later folders d (ground (arith, e), a) o)
      go later (inl e) =
          let (id, f) = parent_folder_id_lem known rel folders a g in
          rw (e, f)
            (made later (find_or_create_folder client (parent_and_name client rel).1 id d)
              (found_lem (parent_and_name client rel).1 id d))

-- Every folder that the code takes as needed gets an id.
collected_lem :
    {D : Type 0} (client : FolderClient D) (paths : List Text) (root : Text)
    (existing_folders : TextMap Text) (d : D)
    → IsOrdered existing_folders
    → Made
        (λ f. All (Has f) (collect_parent_folders paths))
        (ensure_folder_hierarchy client paths root existing_folders d)
unfolding ensure_folder_hierarchy
collected_lem client paths root existing_folders d o =
    Made-mono (AreKnown client root [] needed) (λ f. All (Has f) needed)
      (make_folders client root needed existing_folders d) (λ f x. x.1)
      (made_lem client root [] needed existing_folders d
        (by_depth-IsGrounded [] needed
          (All-map (IsRooted needed) (Below [] needed) needed below (collect-AreRooted paths))
          (collect-IsByDepth paths))
        tt o)
  where
    needed : List Text
    needed = collect_parent_folders paths

    below : (b : Text) → IsRooted needed b → Below [] needed b
    below b (inl top) = inl top
    below b (inr (i, h)) = inr (inr i, h)

-- If the known folders are a map, then `ensure_folder_hierarchy` gives an id to every directory that
-- one of the paths is in: to each part of the normalized path that ends before a slash, without its
-- empty segments, if it has others. This holds whatever Drive answers, unless a request fails: it never
-- ends with a missing parent.
pub ensure_folder_hierarchy_makes :
    {D : Type 0} (client : FolderClient D) (paths : List Text) (root : Text)
    (existing_folders : TextMap Text) (d : D) (raw k rest : Text)
    → IsOrdered existing_folders
    → IsIn raw paths
    → normalize_relative_path raw ≡ k ++ b'/' ∷ rest
    → is_empty (directory k) ≡ false
    → Made (λ f. Has f (directory k)) (ensure_folder_hierarchy client paths root existing_folders d)
ensure_folder_hierarchy_makes client paths root existing_folders d raw k rest o i h f =
    Made-mono (λ m. All (Has m) (collect_parent_folders paths)) (λ m. Has m (directory k))
      (ensure_folder_hierarchy client paths root existing_folders d)
      (λ m all.
        All-IsIn (Has m) (directory k) (collect_parent_folders paths) all
          (collect-directory raw k rest paths i h f))
      (collected_lem client paths root existing_folders d o)
