-- ===== src/Drive/UploadDone.antt =====
-- A resumable upload to a server that keeps what it is sent succeeds, and the server has the file.
use oxidrive.Base.{
  ℕ, zero, suc, ◌+◌, ◌-◌, ◌≤◌, ◌<◌, ◌≡◌, min, refl, sym, ap, ◌∙◌, arith, true, false, some, List,
  [], ◌∷◌, ◌++◌, ltb, leb, ◌==◌, length, take, drop, ok,
}
use oxidrive.Text.{Text, text, split_once, contains_char, u64_max}
use oxidrive.Text.Split.{split_none}
use oxidrive.Text.Decimal.{show_u64, parse_u64-show_u64, contains_char-show_u64}
use oxidrive.Drive.Upload.{
  Reply, success, incomplete, rejected, unreachable, Sent, parse_next_offset, resumable_chunk_bytes,
  after_reply, send_chunks, upload_resumable_bytes,
}

suc_add : (a b : ℕ) → suc (a + b) ≡ suc a + b
suc_add a b = omega arith

module _ {A : Type 0} where
  take_nil : (n : ℕ) → take {A = A} n [] ≡ []
  take_nil zero = refl
  take_nil (suc n) = refl

  take_add : (a b : ℕ) (xs : List A) → take a xs ++ take b (drop a xs) ≡ take (a + b) xs
  take_add zero b xs = ap (λ n. take n xs) (omega arith)
  take_add (suc a) b [] = take_nil b ∙ sym (take_nil (suc a + b))
  take_add (suc a) b (x ∷ xs) =
      ap (λ r. x ∷ r) (take_add a b xs) ∙ ap (λ n. take n (x ∷ xs)) (suc_add a b)

  take_take : (m n : ℕ) (xs : List A) → m ≤ n → take m (take n xs) ≡ take m xs
  take_take zero n xs h = refl
  take_take (suc m) zero xs h = absurd (omega (arith, h))
  take_take (suc m) (suc n) [] h = refl
  take_take (suc m) (suc n) (x ∷ xs) h = ap (λ r. x ∷ r) (take_take m n xs (omega (arith, h)))

  take_all : (xs : List A) → take (length xs) xs ≡ xs
  take_all [] = refl
  take_all (x ∷ xs) = ap (λ r. x ∷ r) (take_all xs)

  length-take : (n : ℕ) (xs : List A) → n ≤ length xs → length (take n xs) ≡ n
  length-take zero xs h = refl
  length-take (suc n) [] h = absurd (omega (arith, h))
  length-take (suc n) (x ∷ xs) h = ap suc (length-take n xs (omega (arith, h)))

  length-drop : (n : ℕ) (xs : List A) → length (drop n xs) ≡ length xs - n
  length-drop zero xs = omega arith
  length-drop (suc n) [] = omega arith
  length-drop (suc n) (x ∷ xs) = omega (arith, length-drop n xs)

-- The header of a server that has the bytes up to this one.
abbrev pub range_to : ℕ → Text
range_to last = text "bytes=0-" ++ show_u64 last

parse_next_offset-range_to :
    (n : ℕ) → n < u64_max → parse_next_offset (some (range_to n)) ≡ some (n + 1)
unfolding parse_next_offset split_once contains_char
parse_next_offset-range_to n h =
    let one = split_none b',' (range_to n) (contains_char-show_u64 b',' n refl) in
    let read = parse_u64-show_u64 n (omega (arith, h)) in rw (one, read) (ground (arith, h))

-- What a server that keeps chunks answers, `received` being the bytes that it has: it has the whole
-- file and says so, or it has at least one byte more, lacks some, and names the last one that it has.
abbrev pub IsKept : {S : Type 0} → (S → List ℕ) → ℕ → S → ℕ → List ℕ → S × Reply → Type 0
IsKept received total s offset chunk (s', success) =
    (offset + length chunk ≡ total) × (received s' ≡ received s ++ chunk)
IsKept received total s offset chunk (s', incomplete range) =
    (n : ℕ) × (n < length chunk)
    × (offset + suc n < total)
    × (range ≡ some (range_to (offset + n)))
    × (received s' ≡ received s ++ take (suc n) chunk)
IsKept received total s offset chunk (s', rejected status) = ⊥
IsKept received total s offset chunk (s', unreachable) = ⊥

-- It does so for every chunk that starts where its bytes end.
abbrev pub IsKeeping :
    {S : Type 0} → (S → List ℕ) → ℕ → Text → (S → Text → ℕ → List ℕ → S × Reply) → Type 0
IsKeeping {S} received total url put =
    (s : S) (offset : ℕ) (chunk : List ℕ)
    → offset ≡ length (received s)
    → 0 < length chunk
    → offset + length chunk ≤ total
    → IsKept received total s offset chunk (put s url offset chunk)

module _ {S : Type 0} (received : S → List ℕ) (put : S → Text → ℕ → List ℕ → S × Reply)
    (content : List ℕ) (url : Text) (keeping : IsKeeping received (length content) url put)
    (small : length content ≤ u64_max) where
  abbrev IsDone : Sent S → Type 0
  IsDone r = (r.outcome ≡ ok tt) × (received r.server ≡ content)

  kept_so_far :
      (s s' : S) (offset m n : ℕ) (chunk : List ℕ)
      → received s ≡ take offset content
      → chunk ≡ take n (drop offset content)
      → m ≤ n
      → received s' ≡ received s ++ take m chunk
      → received s' ≡ take (offset + m) content
  kept_so_far s s' offset m n chunk had is le got =
      got
      ∙ rw (had, is) (ap (λ r. take offset content ++ r) (take_take m n (drop offset content) le))
      ∙ take_add offset m content

  after_reply-IsDone :
      (continue : S → ℕ → Sent S) (s : S) (offset n : ℕ) (chunk : List ℕ) (r : S × Reply)
      → received s ≡ take offset content
      → chunk ≡ take n (drop offset content)
      → length chunk ≡ n
      → IsKept received (length content) s offset chunk r
      → ((s : S) (next : ℕ)
          → offset < next
          → next < length content
          → received s ≡ take next content
          → IsDone (continue s next))
      → IsDone (after_reply put (λ _. true) content url (length content) continue offset n r)
  after_reply-IsDone continue s offset n chunk (s', success) had is long (end, got) next =
      let all : offset + n ≡ length content = omega (arith, end, long) in
      (
        refl,
        got
            ∙ rw (had, is) (take_add offset n content)
            ∙ ap (λ k. take k content) all
            ∙ take_all content,
      )
  after_reply-IsDone continue s offset n chunk (s', incomplete range) had is long
        (m, lt, more, named, got) next =
      let read = parse_next_offset-range_to (offset + m) (omega (arith, more, small)) in
      let a : ltb (length content) (offset + m + 1) ≡ false = ground (arith, more) in
      let b : leb (offset + m + 1) offset ≡ false = ground arith in
      let q : offset + suc m ≡ offset + m + 1 = omega arith in
      let has : received s' ≡ take (offset + m + 1) content =
        kept_so_far s s' offset (suc m) n chunk had is (omega (arith, lt, long)) got
        ∙ ap (λ k. take k content) q in
      let go = next s' (offset + m + 1) (omega arith) (omega (arith, more)) has in
      rw (named, read, a, b) go
  after_reply-IsDone continue s offset n chunk (s', rejected status) had is long bad next =
      absurd bad
  after_reply-IsDone continue s offset n chunk (s', unreachable) had is long bad next = absurd bad

  send_chunks-IsDone :
      (fuel : ℕ) (s : S) (offset : ℕ)
      → length content - offset < fuel
      → offset < length content
      → received s ≡ take offset content
      → IsDone (send_chunks put (λ _. true) content url (length content) fuel s offset)
  unfolding send_chunks
  send_chunks-IsDone zero s offset h lt had = absurd (omega (arith, h))
  send_chunks-IsDone (suc fuel) s offset h lt had =
      let n = min (length content - offset) resumable_chunk_bytes in
      let chunk = take n (drop offset content) in
      let e : (length content - offset == 0) ≡ false = ground (arith, lt) in
      let pos : 0 < n = omega (arith, lt) in
      let fits : n ≤ length content - offset = omega arith in
      let long : length chunk ≡ n =
        length-take n (drop offset content) (omega (arith, fits, length-drop offset content)) in
      let f : (length chunk == n) ≡ true = ground (arith, long) in
      let at : offset ≡ length (received s) =
        sym (ap length had ∙ length-take offset content (omega (arith, lt))) in
      let kept =
        keeping s offset chunk at (omega (arith, long, pos)) (omega (arith, long, fits, lt)) in
      rw (e, f)
        (after_reply-IsDone (send_chunks put (λ _. true) content url (length content) fuel) s offset
          n chunk (put s url offset chunk) had refl long kept
          (λ s' next low high got.
            send_chunks-IsDone fuel s' next (omega (arith, h, low, high)) high got))

  -- If the server keeps every chunk, whole or in part, as the protocol of resumable uploads has it,
  -- it has the bytes in front of the offset at which the upload starts, the offset lies within the
  -- file, the file does not change and the progress can be kept, then the upload succeeds, and the
  -- server has exactly the file.
  pub upload_done :
      (s : S) (start : ℕ)
      → start < length content
      → received s ≡ take start content
      → ((upload_resumable_bytes put (λ _. true) content url (length content) s start).outcome
          ≡ ok tt)
        × (received
              (upload_resumable_bytes put (λ _. true) content url (length content) s start).server
            ≡ content)
  unfolding upload_resumable_bytes
  upload_done s start lt had =
      let e : (length content == 0) ≡ false = ground (arith, lt) in
      let q : min start (length content) ≡ start = omega (arith, lt) in
      rw (e, q) (send_chunks-IsDone (suc (length content)) s start (omega arith) lt had)
