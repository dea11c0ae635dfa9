-- ===== src/Engine/PlanLaws.antt =====
-- The plan of a cycle spares every edit.
use oxidrive.Base.{
  IsIn, ◌≡◌, ◌≢◌, refl, sym, ap, ◌∙◌, ◌⊎◌, inl, inr, Bool, true, false, Option, none, some, List,
  [], ◌∷◌, map, arith, Bool-cases,
}
use mathlib.Core.Path.{subst}
use oxidrive.Text.{Text, text_eq}
use oxidrive.Text.Order.{text_eq_iff}
use oxidrive.TextMap.{TextMap, lookup, insert, contains_key, keys}
use oxidrive.TextMap.Order.{IsOrdered, upsert-IsOrdered}
use oxidrive.TextMap.Laws.{lookup-insert_at}
use oxidrive.Types.{Timestamp, LocalFile, SyncRecord, SyncAction, WorkspaceConversion}
use oxidrive.Types.Path.{RelativePath}
use oxidrive.Drive.{DriveFile}
use oxidrive.Store.Session.{Store, get, get_conversion}
use oxidrive.Decision.{
  ConflictPolicy, determine_action_converted_with_remote_ids, resolve_dual_content_change,
  conflict_action, upload_action,
}
use oxidrive.Decision.Safety.{baseline, decide}
use oxidrive.Decision.Edited.{Spares, edited_is_spared}
use oxidrive.Engine.Plan.{
  PathSet, extend_keys, known_paths, file_ids, by_conversion, action_for, plan_actions,
}

extend_keys-has :
    {V : Type 0} (p : Text) (m : TextMap V) (set : PathSet)
    → IsOrdered set
    → IsOrdered (extend_keys m set)
      × ((contains_key p set ≡ true) ⊎ (contains_key p m ≡ true)
          → contains_key p (extend_keys m set) ≡ true)
unfolding extend_keys lookup
extend_keys-has p [] set o = (o, λ h. elim h [ inl a ↦ a | inr b ↦ cc ])
extend_keys-has p ((k, v) ∷ m) set o =
    let (o', has) = extend_keys-has p m (insert k tt set) (upsert-IsOrdered (λ _. tt) k tt set o) in
    let at = lookup-insert_at p k tt set o in
    (
      o',
      λ h. elim h [
        | inl a ↦ has (inl (ground (arith, a, at)))
        | inr b ↦ elim (Bool-cases (text_eq p k)) [
          | inl e ↦ has (inl (ground (arith, e, at)))
          | inr e ↦ has (inr (ground (arith, e, b)))
        ]
      ],
    )

key-IsIn : {V : Type 0} (p : Text) (m : TextMap V) → contains_key p m ≡ true → IsIn p (keys m)
unfolding lookup
key-IsIn p [] h = cc
key-IsIn p ((k, v) ∷ m) h = elim (Bool-cases (text_eq p k)) [
  | inl e ↦ inl ((text_eq_iff p k).0 e)
  | inr e ↦ inr (key-IsIn p m (ground (arith, e, h)))
]

map-IsIn : {A B : Type 0} (f : A → B) (a : A) (xs : List A) → IsIn a xs → IsIn (f a) (map f xs)
map-IsIn f a [] h = h
map-IsIn f a (x ∷ xs) (inl e) = inl (ap f e)
map-IsIn f a (x ∷ xs) (inr h) = inr (map-IsIn f a xs h)

of-map-IsIn :
    {A B : Type 0} (f : A → B) (b : B) (xs : List A) → IsIn b (map f xs) → (a : A) × (b ≡ f a)
of-map-IsIn f b [] h = absurd h
of-map-IsIn f b (x ∷ xs) (inl e) = (x, e)
of-map-IsIn f b (x ∷ xs) (inr h) = of-map-IsIn f b xs h

-- `SyncAction` names the path it is about.
abbrev pub action_path : SyncAction → RelativePath
action_path (SyncAction.skip p) = p
action_path (SyncAction.upload p remote_id) = p
action_path (SyncAction.download p remote_id) = p
action_path (SyncAction.delete_local p) = p
action_path (SyncAction.delete_remote p remote_id) = p
action_path (SyncAction.conflict p remote_id local_md5 resolution) = p
action_path (SyncAction.cleanup_metadata p) = p
action_path (SyncAction.touch_metadata p) = p

dual_path :
    (stamp : Text) (path : RelativePath) (l : LocalFile) (r : DriveFile) (m : SyncRecord)
    (policy : ConflictPolicy)
    → action_path (resolve_dual_content_change stamp path l r m policy) ≡ path
unfolding resolve_dual_content_change conflict_action upload_action
dual_path stamp path l r m policy = ground arith

decide_path :
    (to_rfc3339 : Timestamp → Text) (stamp : Text) (path : RelativePath) (policy : ConflictPolicy)
    (c : Bool) (last : Option Text) (ids : List Text) (l : Option LocalFile) (r : Option DriveFile)
    (m : Option SyncRecord)
    → action_path (decide to_rfc3339 stamp path policy c last ids l r m) ≡ path
unfolding determine_action_converted_with_remote_ids conflict_action upload_action
decide_path to_rfc3339 stamp path policy c last ids none none none = ground arith
decide_path to_rfc3339 stamp path policy c last ids none none (some m) = ground arith
decide_path to_rfc3339 stamp path policy c last ids none (some r) none = ground arith
decide_path to_rfc3339 stamp path policy c last ids none (some r) (some m) = ground arith
decide_path to_rfc3339 stamp path policy c last ids (some l) none none = ground arith
decide_path to_rfc3339 stamp path policy c last ids (some l) none (some m) = ground arith
decide_path to_rfc3339 stamp path policy c last ids (some l) (some r) none = ground arith
decide_path to_rfc3339 stamp path policy c last ids (some l) (some r) (some m) =
    ground (arith, dual_path stamp path l r m policy)

-- The content that a path's local file had at the last sync, or at the last export if it is converted.
abbrev pub content_at_sync : Option WorkspaceConversion → SyncRecord → Text
content_at_sync none m = baseline false none m
content_at_sync (some conversion) m = baseline true conversion.last_export_md5 m

module _ (to_rfc3339 : Timestamp → Text) (stamp : Text) (policy : ConflictPolicy)
    (local : TextMap LocalFile) (remote : TextMap DriveFile) (store : Store) where
  abbrev action : RelativePath → SyncAction
  action p = action_for to_rfc3339 stamp policy local remote store p

  action_for-path : (p : RelativePath) → action_path (action p) ≡ p
  unfolding action_for determine_action_converted_with_remote_ids
  action_for-path p = go (get_conversion p store)
    where
      go :
          (o : Option WorkspaceConversion)
          → action_path (by_conversion to_rfc3339 stamp policy local remote store p o) ≡ p
      go none =
          decide_path to_rfc3339 stamp p policy false none (file_ids remote) (lookup p local)
            (lookup p remote) (get p store)
      go (some c) =
          decide_path to_rfc3339 stamp p policy true c.last_export_md5 (file_ids remote)
            (lookup p local) (lookup p remote) (get p store)

  action_for-Spares :
      (p : RelativePath) (l : LocalFile) (m : SyncRecord)
      → lookup p local ≡ some l
      → get p store ≡ some m
      → l.md5 ≢ content_at_sync (get_conversion p store) m
      → Spares p (action p)
  unfolding action_for determine_action_converted_with_remote_ids
  action_for-Spares p l m e f d = go (get_conversion p store) d
    where
      go :
          (o : Option WorkspaceConversion)
          → l.md5 ≢ content_at_sync o m
          → Spares p (by_conversion to_rfc3339 stamp policy local remote store p o)
      go none d =
          rw (e, f)
            (edited_is_spared to_rfc3339 stamp p policy false none (file_ids remote) l
              (lookup p remote) m d)
      go (some c) d =
          rw (e, f)
            (edited_is_spared to_rfc3339 stamp p policy true c.last_export_md5 (file_ids remote) l
              (lookup p remote) m d)

  -- In the plan of a cycle, each path with a local file whose content is not that of the last sync (of the
  -- last export, for a converted file) has an action, and every action for the path uploads the file
  -- or reports a conflict: whatever Drive and the other paths hold, no action deletes the file,
  -- downloads over it or skips it.
  pub plan_carries_edits :
      (p : RelativePath) (l : LocalFile) (m : SyncRecord)
      → lookup p local ≡ some l
      → get p store ≡ some m
      → l.md5 ≢ content_at_sync (get_conversion p store) m
      → IsIn (action p) (plan_actions to_rfc3339 stamp policy local remote store)
        × ((a : SyncAction)
            → IsIn a (plan_actions to_rfc3339 stamp policy local remote store)
            → action_path a ≡ p
            → Spares p a)
  unfolding plan_actions known_paths lookup
  plan_carries_edits p l m e f d =
      let here : contains_key p local ≡ true = rw (contains_key, e) refl in
      let (o1, h1) = extend_keys-has p local [] tt in
      let (o2, h2) = extend_keys-has p remote (extend_keys local []) o1 in
      let (o3, h3) =
        extend_keys-has p store.records (extend_keys remote (extend_keys local [])) o2 in
      let known = key-IsIn p _ (h3 (inl (h2 (inl (h1 (inr here)))))) in
      (
        map-IsIn action p (known_paths local remote store) known,
        λ a has about.
            let (q, same) = of-map-IsIn action a (known_paths local remote store) has in
            let own : q ≡ p = sym (action_for-path q) ∙ ap action_path (sym same) ∙ about in
            subst (Spares p) (sym (same ∙ ap action own)) (action_for-Spares p l m e f d),
      )
