-- ===== src/Examples/Wire.antt =====
-- Encodings with a prefix property, put together from parts, for the tests.
use mathlib.Core.List.{append-nil, append_assoc}
use oxidrive.Base.{
  ℕ, zero, suc, ◌≡◌, refl, sym, ap, ◌∙◌, Option, none, some, List, [], ◌∷◌, ◌++◌, length,
}
use oxidrive.Store.Table.{Bytes, Codec}

pub record Wire (A : Type 0) : Type 0 where
  pub put : A → Bytes
  pub take : Bytes → Option (A × Bytes)
  pub take-put : (a : A) (rest : Bytes) → take (put a ++ rest) ≡ some (a, rest)

abbrev take_number : Bytes → Option (ℕ × Bytes)
take_number [] = none
take_number (n ∷ s) = some (n, s)

abbrev pub number : Wire ℕ
number = record { put = λ n. n ∷ []; take = take_number; take-put = λ n rest. refl }

module _ {A B : Type 0} where
  abbrev pub pair_with : A → Option (B × Bytes) → Option ((A × B) × Bytes)
  pair_with a none = none
  pair_with a (some (b, s)) = some ((a, b), s)

  abbrev pub take_second : Wire B → Option (A × Bytes) → Option ((A × B) × Bytes)
  take_second w none = none
  take_second w (some (a, s)) = pair_with a (w.take s)

  pub pair-take-put :
      (v : Wire A) (w : Wire B) (p : A × B) (rest : Bytes)
      → take_second w (v.take ((v.put p.0 ++ w.put p.1) ++ rest)) ≡ some (p, rest)
  pair-take-put v w p rest =
      ap (λ s. take_second w (v.take s)) (append_assoc (v.put p.0) (w.put p.1) rest)
      ∙ ap (take_second w) (v.take-put p.0 (w.put p.1 ++ rest))
      ∙ ap (pair_with p.0) (w.take-put p.1 rest)

  abbrev pub pair : Wire A → Wire B → Wire (A × B)
  pair v w = record {
    put = λ p. v.put p.0 ++ w.put p.1;
    take = λ s. take_second w (v.take s);
    take-put = pair-take-put v w;
  }

  abbrev pub through : (A → B) → Option (A × Bytes) → Option (B × Bytes)
  through f none = none
  through f (some (a, s)) = some (f a, s)

  -- The encoding of a type by the way of another.
  abbrev pub by : (g : B → A) (f : A → B) → ((b : B) → f (g b) ≡ b) → Wire A → Wire B
  by g f h w = record {
    put = λ b. w.put (g b);
    take = λ s. through f (w.take s);
    take-put = λ b rest. ap (through f) (w.take-put (g b) rest) ∙ ap (λ c. some (c, rest)) (h b);
  }

module _ {A : Type 0} where
  abbrev pub cons_to : A → Option (List A × Bytes) → Option (List A × Bytes)
  cons_to a none = none
  cons_to a (some (l, s)) = some (a ∷ l, s)

  unfoldable pub take_many : Wire A → ℕ → Bytes → Option (List A × Bytes)
  take_many w zero s = some ([], s)
  take_many w (suc n) s = elim (w.take s) [
    | none ↦ none
    | some (a, r) ↦ cons_to a (take_many w n r)
  ]

  unfoldable pub put_many : Wire A → List A → Bytes
  put_many w [] = []
  put_many w (a ∷ l) = w.put a ++ put_many w l

  pub take_many-put_many :
      (w : Wire A) (l : List A) (rest : Bytes)
      → take_many w (length l) (put_many w l ++ rest) ≡ some (l, rest)
  unfolding take_many put_many
  take_many-put_many w [] rest = refl
  take_many-put_many w (a ∷ l) rest =
      rw
        (
          append_assoc (w.put a) (put_many w l) rest,
          w.take-put a (put_many w l ++ rest),
          take_many-put_many w l rest,
        )
        refl

  unfoldable pub take_list : Wire A → Bytes → Option (List A × Bytes)
  unfolding take_many
  take_list w [] = none
  take_list w (n ∷ s) = take_many w n s

  pub take_list-put_many :
      (w : Wire A) (l : List A) (rest : Bytes)
      → take_list w ((length l ∷ put_many w l) ++ rest) ≡ some (l, rest)
  unfolding take_list
  take_list-put_many w l rest = take_many-put_many w l rest

  -- A list behind its length.
  abbrev pub list : Wire A → Wire (List A)
  list w = record {
    put = λ l. length l ∷ put_many w l;
    take = take_list w;
    take-put = take_list-put_many w;
  }

  abbrev pub some_of : Option (A × Bytes) → Option (Option A × Bytes)
  some_of none = none
  some_of (some (a, s)) = some (some a, s)

  unfoldable pub take_option : Wire A → Bytes → Option (Option A × Bytes)
  take_option w [] = none
  take_option w (zero ∷ s) = some (none, s)
  take_option w (suc n ∷ s) = some_of (w.take s)

  unfoldable pub put_option : Wire A → Option A → Bytes
  put_option w none = 0 ∷ []
  put_option w (some a) = 1 ∷ w.put a

  pub take_option-put_option :
      (w : Wire A) (o : Option A) (rest : Bytes)
      → take_option w (put_option w o ++ rest) ≡ some (o, rest)
  unfolding take_option put_option
  take_option-put_option w none rest = refl
  take_option-put_option w (some a) rest = ap some_of (w.take-put a rest)

  -- A value that may be missing, behind a mark.
  abbrev pub option : Wire A → Wire (Option A)
  option w = record {
    put = put_option w;
    take = take_option w;
    take-put = take_option-put_option w;
  }

  abbrev pub value_of : Option (A × Bytes) → Option A
  value_of none = none
  value_of (some (a, s)) = some a

  read-whole : (w : Wire A) (a : A) → value_of (w.take (w.put a)) ≡ some a
  read-whole w a =
      ap (λ s. value_of (w.take s)) (sym (append-nil (w.put a))) ∙ ap value_of (w.take-put a [])

  abbrev pub read_written : Wire A → Option Bytes → Option A
  read_written w none = none
  read_written w (some s) = value_of (w.take s)

  pub read_written-some :
      (w : Wire A) (a : A) (b : Bytes) → some (w.put a) ≡ some b → value_of (w.take b) ≡ some a
  read_written-some w a b e = ap (read_written w) (sym e) ∙ read-whole w a

  -- The codec that writes one value.
  abbrev pub codec : Wire A → Codec A
  codec w = record {
    serialize = λ a. some (w.put a);
    deserialize = λ s. value_of (w.take s);
    deserialize-serialize = read_written-some w;
  }
