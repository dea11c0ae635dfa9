-- ===== src/Engine/ViewLinks.antt =====
-- The paths that are known for ids, and the files they lead to: what an insertion, a removal and the
-- start from the records keep.
use oxidrive.Base.{◌≡◌, sym, ap, ◌∙◌, ◌⊎◌, inl, inr, false, none, some, [], ◌∷◌, arith, Bool-cases}
use oxidrive.Text.{Text, text_eq}
use oxidrive.Text.Order.{text_eq_iff, text_eq_refl}
use oxidrive.TextMap.{TextMap, lookup, insert, remove}
use oxidrive.TextMap.Order.{IsOrdered, lookup-Above, upsert-IsOrdered}
use oxidrive.TextMap.Laws.{lookup-remove, lookup-insert_at}
use oxidrive.Types.Path.{RelativePath}
use oxidrive.Drive.{DriveFile}
use oxidrive.Engine.View.{ids_of}

abbrev pub IsLinked : TextMap DriveFile → TextMap RelativePath → Type 0
IsLinked remote ids =
    (id : Text) (p : RelativePath)
    → lookup id ids ≡ some p
    → (f : DriveFile) × (lookup p remote ≡ some f) × (f.id ≡ id)

some-inj {ℓ} : {A : Type ℓ} (a b : A) → some a ≡ some b → a ≡ b
some-inj a b h = cc

pub forget-IsLinked :
    (remote : TextMap DriveFile) (ids : TextMap RelativePath) (path : RelativePath) (file_id : Text)
    → IsLinked remote ids
    → lookup file_id ids ≡ some path
    → IsLinked (remove path remote) (remove file_id ids)
forget-IsLinked remote ids path file_id linked tracked id p h =
    elim (Bool-cases (text_eq id file_id)) [
      | inl e ↦ ground (arith, e, h, lookup-remove id file_id ids)
      | inr e ↦
          let h' : lookup id ids ≡ some p = ground (arith, e, h, lookup-remove id file_id ids) in
          let (f, at, own) = linked id p h' in
          let (g, at_path, its) = linked file_id path tracked in
          elim (Bool-cases (text_eq p path)) [
            | inl t ↦
                let q = (text_eq_iff p path).0 t in
                let same : some f ≡ some g = sym at ∙ ap (λ k. lookup k remote) q ∙ at_path in
                let ids_same : id ≡ file_id = sym own ∙ ap (λ o. o.id) (some-inj f g same) ∙ its in
                ground (arith, e, (text_eq_iff id file_id).1 ids_same)
            | inr t ↦ (f, ground (arith, t, at, lookup-remove p path remote), own)
          ]
    ]

-- The path that a file gets is not the path of a file with another id.
other-file :
    (remote : TextMap DriveFile) (path : RelativePath) (file f : DriveFile) (id : Text)
    → lookup path remote ≡ some f
    → f.id ≡ id
    → text_eq id file.id ≡ false
    → (lookup path remote ≡ none)
      ⊎ ((g : DriveFile) × (lookup path remote ≡ some g) × (g.id ≡ file.id))
    → ⊥
other-file remote path file f id at own e (inl free) = ground (arith, at, free)
other-file remote path file f id at own e (inr (g, at', its)) =
    let same : id ≡ file.id = sym own ∙ ap (λ o. o.id) (some-inj f g (sym at ∙ at')) ∙ its in
    ground (arith, e, (text_eq_iff id file.id).1 same)

pub place-IsLinked :
    (remote : TextMap DriveFile) (ids : TextMap RelativePath) (path : RelativePath)
    (file : DriveFile)
    → IsOrdered remote
    → IsOrdered ids
    → IsLinked remote ids
    → (lookup path remote ≡ none)
      ⊎ ((f : DriveFile) × (lookup path remote ≡ some f) × (f.id ≡ file.id))
    → IsLinked (insert path file remote) (insert file.id path ids)
place-IsLinked remote ids path file o oi linked free id p h =
    elim (Bool-cases (text_eq id file.id)) [
      | inl e ↦
          let q : path ≡ p = ground (arith, e, h, lookup-insert_at id file.id path ids oi) in
          (
            file,
            rw (sym q)
                (ground (arith, lookup-insert_at path path file remote o, text_eq_refl path)),
            sym ((text_eq_iff id file.id).0 e),
          )
      | inr e ↦
          let h' : lookup id ids ≡ some p =
            ground (arith, e, h, lookup-insert_at id file.id path ids oi) in
          let (f, at, own) = linked id p h' in
          elim (Bool-cases (text_eq p path)) [
            | inr t ↦ (f, ground (arith, t, at, lookup-insert_at p path file remote o), own)
            | inl t ↦
                let at_path : lookup path remote ≡ some f =
                  ap (λ k. lookup k remote) (sym ((text_eq_iff p path).0 t)) ∙ at in
                absurd (other-file remote path file f id at_path own e free)
          ]
    ]

insert-IsLinked :
    (remote : TextMap DriveFile) (ids : TextMap RelativePath) (path : RelativePath)
    (file : DriveFile)
    → IsOrdered ids
    → IsLinked remote ids
    → lookup path remote ≡ some file
    → IsLinked remote (insert file.id path ids)
insert-IsLinked remote ids path file oi linked at id p h = elim (Bool-cases (text_eq id file.id)) [
  | inl e ↦
      let q : path ≡ p = ground (arith, e, h, lookup-insert_at id file.id path ids oi) in
      (file, ap (λ k. lookup k remote) (sym q) ∙ at, sym ((text_eq_iff id file.id).0 e))
  | inr e ↦ linked id p (ground (arith, e, h, lookup-insert_at id file.id path ids oi))
]

pub ids_of-IsLinked :
    (rest remote : TextMap DriveFile) (ids : TextMap RelativePath)
    → ((p : RelativePath) (f : DriveFile) → lookup p rest ≡ some f → lookup p remote ≡ some f)
    → IsOrdered rest
    → IsOrdered ids
    → IsLinked remote ids
    → IsOrdered (ids_of rest ids) × IsLinked remote (ids_of rest ids)
unfolding ids_of lookup
ids_of-IsLinked [] remote ids sub o oi linked = (oi, linked)
ids_of-IsLinked ((path, file) ∷ rest) remote ids sub o oi linked =
    ids_of-IsLinked rest remote (insert file.id path ids)
      (λ p f h. sub p f (ground (arith, h, text_eq_iff p path, lookup-Above path rest o.0))) o.1
      (upsert-IsOrdered _ file.id path ids oi)
      (insert-IsLinked remote ids path file oi linked
        (sub path file (ground (arith, text_eq_refl path))))
