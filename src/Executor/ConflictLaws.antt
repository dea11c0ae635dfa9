-- ===== src/Executor/ConflictLaws.antt =====
-- A conflict copy gets a path of its own in the same folder, and no device id leads out of it.
use oxidrive.Base.{
  ℕ, suc, ◌+◌, ◌<◌, ◌≡◌, ◌≢◌, refl, ap, ◌∙◌, inl, inr, true, false, not, some, [], ◌∷◌, ◌++◌, arith,
  if◌then◌else◌, length, length-append, All, Option-cases, Bool-cases,
}
use oxidrive.Text.{
  Text, text, is_empty, rsplit_once, trim_start_char, trim_end_char, trim_cons_char, ends_with,
}
use oxidrive.Types.{SyncAction}
use oxidrive.Types.Path.{RelativePath, normalize_relative}
use oxidrive.Decision.{ConflictPolicy, remote_wins, conflict_resolution_from_policy}
use oxidrive.Executor.Conflict.{
  is_device_char, sanitize_loop, or_device, suffix_device_component, conflict_copy_suffix,
  tag_conflict_copy_resolution, apply_suffix_to_file_name, path_with_suffix, FollowUps, actions,
  rename_like_actions, conflict_resolution_actions,
}

-- A split gives the text back.
pub rsplit_once-parts : (d : ℕ) (s a b : Text) → rsplit_once d s ≡ some (a, b) → s ≡ a ++ d ∷ b
unfolding rsplit_once
rsplit_once-parts d [] a b h = cc
rsplit_once-parts d (c ∷ s) a b h = elim (Option-cases (rsplit_once d s)) [
  | inl e ↦ ground (arith, e)
  | inr ((x, y), e) ↦ ground (arith, e, rsplit_once-parts d s x y)
]

length-normalize_relative : (s : Text) → length (normalize_relative s) ≡ length s
unfolding normalize_relative
length-normalize_relative [] = refl
length-normalize_relative (c ∷ s) = ap suc (length-normalize_relative s)

length-apply_suffix_to_file_name :
    (name suffix : Text)
    → length (apply_suffix_to_file_name name suffix) ≡ length name + length suffix
unfolding apply_suffix_to_file_name
length-apply_suffix_to_file_name name suffix = elim (Option-cases (rsplit_once b'.' name)) [
  | inl e ↦ rw e (length-append name suffix)
  | inr ((stem, ext), e) ↦ elim (Bool-cases (is_empty stem)) [
    | inl empty ↦ rw (e, empty) (length-append name suffix)
    | inr filled ↦
        rw (e, filled)
          (omega (
            arith,
            length-append stem (suffix ++ b'.' ∷ ext),
            length-append suffix (b'.' ∷ ext),
            length-append stem (b'.' ∷ ext),
            ap (length {A = ℕ}) (rsplit_once-parts b'.' name stem ext e),
          ))
  ]
]

length-path_with_suffix :
    (path : RelativePath) (suffix : Text)
    → length (path_with_suffix path suffix) ≡ length path + length suffix
unfolding path_with_suffix
length-path_with_suffix path suffix = elim (Option-cases (rsplit_once b'/' path)) [
  | inl e ↦ rw e (
      length-normalize_relative (apply_suffix_to_file_name path suffix)
      ∙ length-apply_suffix_to_file_name path suffix)
  | inr ((d, f), e) ↦ rw e (
      omega (
        arith,
        length-normalize_relative (d ++ b'/' ∷ apply_suffix_to_file_name f suffix),
        length-append d (b'/' ∷ apply_suffix_to_file_name f suffix),
        length-append d (b'/' ∷ f),
        length-apply_suffix_to_file_name f suffix,
        ap (length {A = ℕ}) (rsplit_once-parts b'/' path d f e),
      ))
]

-- The renamed path differs from the path for every suffix that is not empty.
path_with_suffix-ne :
    (path : RelativePath) (suffix : Text) → 0 < length suffix → path_with_suffix path suffix ≢ path
path_with_suffix-ne path suffix h e =
    omega (arith, length-path_with_suffix path suffix, ap (length {A = ℕ}) e)

-- What the follow-ups of a conflict may be, if the Drive file's content is not to replace the local
-- one: the local file is uploaded, and the Drive file is fetched to another path at most.
abbrev pub KeepsLocal : RelativePath → FollowUps → Type 0
KeepsLocal path (actions (SyncAction.upload p id ∷ [])) = p ≡ path
KeepsLocal path (actions (SyncAction.download copy id ∷ SyncAction.upload p uid ∷ [])) =
    (copy ≢ path) × (p ≡ path) × (uid ≡ some id)
KeepsLocal path _ = ⊥

rename_like-KeepsLocal :
    (path : RelativePath) (id suffix mode : Text)
    → 0 < length suffix
    → KeepsLocal path (rename_like_actions path (some id) suffix mode)
unfolding rename_like_actions
rename_like-KeepsLocal path id suffix mode h = (path_with_suffix-ne path suffix h, refl, refl)

rename_suffix-pos :
    (stamp suffix : Text)
    → 0
      < length (if is_empty suffix then text ".conflict." ++ stamp else suffix ++ text "." ++ stamp)
rename_suffix-pos stamp [] = omega arith
rename_suffix-pos stamp (c ∷ suffix) = omega arith

-- Unless the policy says that the Drive side wins, resolving a conflict uploads the local file under
-- its path and never downloads over it: the Drive content, if it is kept, goes to a different path.
pub conflict-KeepsLocal :
    (stamp device : Text) (policy : ConflictPolicy) (path : RelativePath) (id : Text)
    → policy ≢ remote_wins
    → KeepsLocal path (
        conflict_resolution_actions path (some id) (
          tag_conflict_copy_resolution stamp (conflict_resolution_from_policy stamp policy) device))
unfolding conflict_resolution_actions tag_conflict_copy_resolution conflict_resolution_from_policy
conflict-KeepsLocal stamp device ConflictPolicy.conflict_copy path id h =
    rename_like-KeepsLocal path id (conflict_copy_suffix stamp device) (text "conflict_copy")
      (omega arith)
conflict-KeepsLocal stamp device ConflictPolicy.local_wins path id h = refl
conflict-KeepsLocal stamp device ConflictPolicy.remote_wins path id h = absurd (h refl)
conflict-KeepsLocal stamp device (ConflictPolicy.rename suffix) path id h =
    rename_like-KeepsLocal path id
      (if is_empty suffix then text ".conflict." ++ stamp else suffix ++ text "." ++ stamp)
      (text "rename") (rename_suffix-pos stamp suffix)

abbrev DeviceChars : Text → Type 0
DeviceChars s = All (λ c. is_device_char c ≡ true) s

DeviceChars-append :
    (s : Text) (c : ℕ) → DeviceChars s → is_device_char c ≡ true → DeviceChars (s ++ c ∷ [])
DeviceChars-append [] c a h = (h, tt)
DeviceChars-append (d ∷ s) c a h = (a.0, DeviceChars-append s c a.1 h)

next_out-DeviceChars :
    (out : Text) (c : ℕ)
    → DeviceChars out
    → DeviceChars (
        if is_device_char c
        then out ++ c ∷ []
        else if not (ends_with out b'-')
        then out ++ b'-' ∷ []
        else out)
next_out-DeviceChars out c a = elim (Bool-cases (is_device_char c)) [
  | inl e ↦ rw e (DeviceChars-append out c a e)
  | inr e ↦ rw e (elim (Bool-cases (ends_with out b'-')) [
    | inl ends ↦ rw ends a
    | inr other ↦ rw other (DeviceChars-append out b'-' a refl)
  ])
]

sanitize_loop-DeviceChars : (out s : Text) → DeviceChars out → DeviceChars (sanitize_loop out s)
unfolding sanitize_loop
sanitize_loop-DeviceChars out [] a = a
sanitize_loop-DeviceChars out (c ∷ s) a =
    sanitize_loop-DeviceChars
      (if is_device_char c
        then out ++ c ∷ []
        else if not (ends_with out b'-')
        then out ++ b'-' ∷ []
        else out)
      s (next_out-DeviceChars out c a)

trim_start_char-DeviceChars : (d : ℕ) (s : Text) → DeviceChars s → DeviceChars (trim_start_char d s)
unfolding trim_start_char
trim_start_char-DeviceChars d [] a = tt
trim_start_char-DeviceChars d (c ∷ s) a = ground (arith, trim_start_char-DeviceChars d s a.1)

trim_cons_char-DeviceChars :
    (d c : ℕ) (s : Text)
    → is_device_char c ≡ true
    → DeviceChars s
    → DeviceChars (trim_cons_char d c s)
trim_cons_char-DeviceChars d c [] h a = ground arith
trim_cons_char-DeviceChars d c (b ∷ s) h a = (h, a)

trim_end_char-DeviceChars : (d : ℕ) (s : Text) → DeviceChars s → DeviceChars (trim_end_char d s)
unfolding trim_end_char
trim_end_char-DeviceChars d [] a = tt
trim_end_char-DeviceChars d (c ∷ s) a =
    trim_cons_char-DeviceChars d c (trim_end_char d s) a.0 (trim_end_char-DeviceChars d s a.1)

or_device-DeviceChars :
    (s : Text) → DeviceChars s → DeviceChars (or_device s) × (is_empty (or_device s) ≡ false)
or_device-DeviceChars [] a = ((refl, (refl, (refl, (refl, (refl, (refl, tt)))))), refl)
or_device-DeviceChars (c ∷ s) a = (a, refl)

-- The device part of a conflict suffix is never empty and holds only ASCII letters, digits, `-`, `_`
-- and `.`, whatever the configured device id, so it brings no path separator into a file name.
pub suffix_device_component_clean :
    (device_id : Text)
    → All (λ c. is_device_char c ≡ true) (suffix_device_component device_id)
      × (is_empty (suffix_device_component device_id) ≡ false)
unfolding suffix_device_component
suffix_device_component_clean device_id = or_device-DeviceChars _ (
    trim_end_char-DeviceChars b'-' _
      (trim_start_char-DeviceChars b'-' _ (sanitize_loop-DeviceChars [] device_id tt)))
