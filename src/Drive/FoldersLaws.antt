-- ===== src/Drive/FoldersLaws.antt =====
-- The folders of a cycle are made from the top down, so no parent is missing.
use oxidrive.Base.{◌≤◌, ◌≡◌, refl, ◌⊎◌, inl, inr, List, [], ◌∷◌, All, IsIn, Ordering, arith}
use oxidrive.Text.{Text}
use oxidrive.Drive.Folders.{
  depth, compare_paths, insert_sorted, placed, sort_paths, unique_parents, collect_parent_folders,
}
use oxidrive.Drive.FoldersRooted.{parent_of, IsRooted, AreRooted, unique_parents-AreRooted}

-- No element is deeper than a later one.
abbrev pub IsByDepth : List Text → Type 0
IsByDepth [] = Unit
IsByDepth (a ∷ rest) = All (λ b. depth a ≤ depth b) rest × IsByDepth rest

compare_paths-depth : (a b : Text) → compare_paths a b ≡ Ordering.gt → depth b ≤ depth a
compare_paths-depth a b h = ground (arith, h)

compare_paths-not_gt :
    (a b : Text)
    → (compare_paths a b ≡ Ordering.lt) ⊎ (compare_paths a b ≡ Ordering.eq)
    → depth a ≤ depth b
compare_paths-not_gt a b (inl h) = ground (arith, h)
compare_paths-not_gt a b (inr h) = ground (arith, h)

All-insert_sorted :
    (Q : Text → Type 0) (a : Text) (bs : List Text) → Q a → All Q bs → All Q (insert_sorted a bs)
unfolding insert_sorted
All-insert_sorted Q a [] q h = (q, tt)
All-insert_sorted Q a (b ∷ bs) q h = go (compare_paths a b) (All-insert_sorted Q a bs q h.1)
  where
    go : (o : Ordering) → All Q (insert_sorted a bs) → All Q (placed a b bs (insert_sorted a bs) o)
    go Ordering.lt r = (q, h)
    go Ordering.eq r = (q, h)
    go Ordering.gt r = (h.0, r)

All-mono : (Q R : Text → Type 0) (bs : List Text) → ((b : Text) → Q b → R b) → All Q bs → All R bs
All-mono Q R [] f a = tt
All-mono Q R (b ∷ bs) f a = (f b a.0, All-mono Q R bs f a.1)

insert_sorted-IsByDepth :
    (a : Text) (bs : List Text) → IsByDepth bs → IsByDepth (insert_sorted a bs)
unfolding insert_sorted
insert_sorted-IsByDepth a [] h = (tt, tt)
insert_sorted-IsByDepth a (b ∷ bs) h =
    go (compare_paths a b) refl (insert_sorted-IsByDepth a bs h.1)
  where
    first :
        (compare_paths a b ≡ Ordering.lt) ⊎ (compare_paths a b ≡ Ordering.eq) → depth a ≤ depth b
    first = compare_paths-not_gt a b

    behind : depth a ≤ depth b → All (λ c. depth a ≤ depth c) bs
    behind l =
        All-mono (λ c. depth b ≤ depth c) (λ c. depth a ≤ depth c) bs (λ c k. omega (arith, l, k))
          h.0

    go :
        (o : Ordering)
        → compare_paths a b ≡ o
        → IsByDepth (insert_sorted a bs)
        → IsByDepth (placed a b bs (insert_sorted a bs) o)
    go Ordering.lt e r = ((first (inl e), behind (first (inl e))), h)
    go Ordering.eq e r = ((first (inr e), behind (first (inr e))), h)
    go Ordering.gt e r =
        (All-insert_sorted (λ c. depth b ≤ depth c) a bs (compare_paths-depth a b e) h.0, r)

sort_paths-IsByDepth : (rels : List Text) → IsByDepth (sort_paths rels)
unfolding sort_paths
sort_paths-IsByDepth [] = tt
sort_paths-IsByDepth (a ∷ rest) =
    insert_sorted-IsByDepth a (sort_paths rest) (sort_paths-IsByDepth rest)

sort_paths-All : (Q : Text → Type 0) (rels : List Text) → All Q rels → All Q (sort_paths rels)
unfolding sort_paths
sort_paths-All Q [] h = tt
sort_paths-All Q (a ∷ rest) h =
    All-insert_sorted Q a (sort_paths rest) h.0 (sort_paths-All Q rest h.1)

insert_sorted-IsIn :
    (x a : Text) (bs : List Text) → (x ≡ a) ⊎ IsIn x bs → IsIn x (insert_sorted a bs)
unfolding insert_sorted
insert_sorted-IsIn x a [] (inl e) = inl e
insert_sorted-IsIn x a [] (inr i) = absurd i
insert_sorted-IsIn x a (b ∷ bs) h = go (compare_paths a b) h (insert_sorted-IsIn x a bs)
  where
    go :
        (o : Ordering)
        → (x ≡ a) ⊎ IsIn x (b ∷ bs)
        → ((x ≡ a) ⊎ IsIn x bs → IsIn x (insert_sorted a bs))
        → IsIn x (placed a b bs (insert_sorted a bs) o)
    go Ordering.lt k r = k
    go Ordering.eq k r = k
    go Ordering.gt (inl e) r = inr (r (inl e))
    go Ordering.gt (inr (inl e)) r = inl e
    go Ordering.gt (inr (inr i)) r = inr (r (inr i))

pub sort_paths-IsIn : (x : Text) (rels : List Text) → IsIn x rels → IsIn x (sort_paths rels)
unfolding sort_paths
sort_paths-IsIn x [] i = i
sort_paths-IsIn x (a ∷ rest) (inl e) = insert_sorted-IsIn x a (sort_paths rest) (inl e)
sort_paths-IsIn x (a ∷ rest) (inr i) =
    insert_sorted-IsIn x a (sort_paths rest) (inr (sort_paths-IsIn x rest i))

-- In the sorted list too, each path has its parent.
pub collect-AreRooted : (paths : List Text) → AreRooted (collect_parent_folders paths)
unfolding collect_parent_folders
collect-AreRooted paths = sort_paths-All (IsRooted (sort_paths set)) set (
    All-mono (IsRooted set) (IsRooted (sort_paths set)) set moved
      (unique_parents-AreRooted paths [] tt))
  where
    set : List Text
    set = unique_parents paths []

    moved : (b : Text) → IsRooted set b → IsRooted (sort_paths set) b
    moved b (inl e) = inl e
    moved b (inr (i, d)) = inr (sort_paths-IsIn (parent_of b) set i, d)

pub collect-IsByDepth : (paths : List Text) → IsByDepth (collect_parent_folders paths)
unfolding collect_parent_folders
collect-IsByDepth paths = sort_paths-IsByDepth (unique_parents paths [])
