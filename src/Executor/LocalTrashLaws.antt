-- ===== src/Executor/LocalTrashLaws.antt =====
-- No content is lost by moving a file to the trash.
use oxidrive.Base.{
  ℕ, zero, suc, ◌+◌, ◌≡◌, refl, sym, ap, ◌∙◌, Bool, true, false, Option, none, some, arith, Result,
  ok, err, Result-cases, Bool-cases, inl, inr,
}
use oxidrive.Text.{Text, text_eq}
use oxidrive.Text.Order.{text_eq_iff}
use oxidrive.Types.Path.{RelativePath}
use oxidrive.Executor.Effects.{ExecError, Disk}
use oxidrive.Executor.Effects.Hoare.{Post, Ensures, Ensures-bind, Ensures-then}
use oxidrive.Executor.Effects.Keeps.{IfOk}
use oxidrive.Executor.LocalTrash.{
  chosen, find_free, trash_target, trash_path, with_collision_suffix, max_attempts,
  move_local_file_to_trash, read,
}

-- What the operating system promises: directories are made without changing a file, a name that does
-- not exist has no content, and a rename moves a content and nothing else, or fails and changes nothing.
pub record IsFileSystem {F : Type 0} (K : Disk F) (content : RelativePath → F → Option Text)
    : Type 0 where
  pub mkdir : (p q : RelativePath) (f : F) → content q (K.create_parent_dirs p f).1 ≡ content q f
  pub absent : (p : RelativePath) (f : F) → K.try_exists p f ≡ ok false → content p f ≡ none
  pub renamed :
      (p q : RelativePath) (f : F)
      → (K.rename p q f).0 ≡ ok tt
      → content q (K.rename p q f).1 ≡ content p f
  pub others :
      (p q t : RelativePath) (f : F)
      → text_eq t p ≡ false
      → text_eq t q ≡ false
      → content t (K.rename p q f).1 ≡ content t f
  pub failed :
      (p q t : RelativePath) (f : F) (e : ExecError)
      → (K.rename p q f).0 ≡ err e
      → content t (K.rename p q f).1 ≡ content t f

module _ {F : Type 0} (K : Disk F) (content : RelativePath → F → Option Text)
    (fs : IsFileSystem K content) (stamp : Text) where
  abbrev IsAbsent : F → RelativePath → Type 0
  IsAbsent f p = K.try_exists p f ≡ ok false

  chosen-IsAbsent :
      (p : RelativePath) (rest : Result ExecError RelativePath) (f : F)
      → (a : Result ExecError Bool) → K.try_exists p f ≡ a
      → IfOk (IsAbsent f) rest
      → IfOk (IsAbsent f) (chosen p rest a)
  chosen-IsAbsent p rest f (err x) e h = tt
  chosen-IsAbsent p rest f (ok true) e h = h
  chosen-IsAbsent p rest f (ok false) e h = e

  find_free-IsAbsent :
      (initial : RelativePath) (attempt left : ℕ) (f : F)
      → IfOk (IsAbsent f) (find_free K stamp initial attempt left f)
  unfolding find_free
  find_free-IsAbsent initial attempt zero f = tt
  find_free-IsAbsent initial attempt (suc left) f =
      chosen-IsAbsent (with_collision_suffix initial stamp attempt) _ f _ refl
        (find_free-IsAbsent initial (attempt + 1) left f)

  trash_target-IsAbsent :
      (target : RelativePath) (f : F) → IfOk (IsAbsent f) (trash_target K stamp target f)
  unfolding trash_target
  trash_target-IsAbsent target f =
      chosen-IsAbsent target _ f _ refl (find_free-IsAbsent target 0 (max_attempts K stamp) f)

  -- Some file holds the text.
  abbrev pub Holds : Text → F → Type 0
  Holds t f = (p : RelativePath) × (content p f ≡ some t)

  rename_lem :
      (t : Text) (p q r : RelativePath) (f : F)
      → K.try_exists q f ≡ ok false
      → content r f ≡ some t
      → Holds t (K.rename p q f).1
  rename_lem t p q r f absent h = elim (Result-cases (K.rename p q f).0) [
    | inr (x, e) ↦ (r, fs.failed p q r f x e ∙ h)
    | inl (u, e) ↦ elim (Bool-cases (text_eq r p)) [
      | inl same ↦
          (q, fs.renamed p q f e ∙ ap (λ x. content x f) (sym ((text_eq_iff r p).0 same)) ∙ h)
      | inr apart ↦ elim (Bool-cases (text_eq r q)) [
        | inl taken ↦ absurd (go (ap (λ x. content x f) (sym ((text_eq_iff r q).0 taken))))
        | inr free ↦ (r, fs.others p q r f apart free ∙ h)
      ]
    ]
  ]
    where
      go : content q f ≡ content r f → ⊥
      go e = ground (arith, e, h, fs.absent q f absent)

  Holds-mkdir :
      (t : Text) (p : RelativePath)
      → Ensures (Holds t) (K.create_parent_dirs p) (λ _. Holds t) (Holds t)
  Holds-mkdir t p = record {
    at = λ f h. go (K.create_parent_dirs p f) (h.0, fs.mkdir p h.0 f ∙ h.1);
  }
    where
      go : (a : Result ExecError Unit × F) → Holds t a.1 → Post (λ _. Holds t) (Holds t) a
      go (ok u, f) h = h
      go (err e, f) h = h

  Holds-read :
      (t : Text) (m : F → Result ExecError RelativePath)
      → ((f : F) → IfOk (IsAbsent f) (m f))
      → Ensures (Holds t) (read K stamp m) (λ q f. Holds t f × IsAbsent f q) (Holds t)
  Holds-read t m a = record { at = λ f h. go f h (m f) (a f) }
    where
      go :
          (f : F)
          → Holds t f
          → (r : Result ExecError RelativePath) → IfOk (IsAbsent f) r
          → Post (λ q v. Holds t v × IsAbsent v q) (Holds t) (r, f)
      go f h (ok q) x = (h, x)
      go f h (err e) x = h

  Holds-rename :
      (t : Text) (p q : RelativePath)
      → Ensures (λ f. Holds t f × IsAbsent f q) (K.rename p q) (λ _. Holds t) (Holds t)
  Holds-rename t p q = record {
    at = λ f h. go (K.rename p q f) (rename_lem t p q h.0.0 f h.1 h.0.1);
  }
    where
      go : (a : Result ExecError Unit × F) → Holds t a.1 → Post (λ _. Holds t) (Holds t) a
      go (ok u, f) h = h
      go (err e, f) h = h

  -- Moving a file to the trash keeps every text that some file held, whether it succeeds or fails.
  pub Holds-move :
      (t : Text) (rel_path : RelativePath)
      → Ensures (Holds t) (move_local_file_to_trash K stamp rel_path) (λ _. Holds t) (Holds t)
  unfolding move_local_file_to_trash
  Holds-move t rel_path = Ensures-then _ _ (Holds-mkdir t (trash_path K stamp rel_path)) (λ _.
      Ensures-bind _ _ (Holds-read t _ (trash_target-IsAbsent (trash_path K stamp rel_path)))
        (λ q. Holds-rename t rel_path q))
