-- ===== src/Drive/UploadLaws.antt =====
-- The chunk loop of a resumable upload ends whatever the server answers, and its progress only grows.
use oxidrive.Base.{
  ℕ, zero, suc, ◌-◌, ◌≤◌, ◌<◌, ◌≡◌, ◌≢◌, min, refl, arith, Bool, Option, none, some, List, [], ◌∷◌,
  ltb, leb, ◌==◌, Bool-cases, inl, inr, err,
}
use oxidrive.Text.{Text}
use oxidrive.Drive.Upload.{
  ResumableUploadState, Reply, success, incomplete, rejected, unreachable, UploadError, Sent,
  empty_outcome, advance_to, after_reply, after_read, send_chunks, upload_resumable_bytes,
}

-- The offsets strictly increase from `low` on and stay within the total.
abbrev pub IsProgress : Text → ℕ → ℕ → List ResumableUploadState → Type 0
IsProgress url total low [] = Unit
IsProgress url total low (s ∷ states) =
    (s.session_url ≡ url)
    × (s.file_size ≡ total)
    × (low < s.next_offset)
    × (s.next_offset ≤ total)
    × IsProgress url total s.next_offset states

abbrev IsGood : {S : Type 0} → Text → ℕ → ℕ → Sent S → Type 0
IsGood url total low r =
    IsProgress url total low r.progress × (r.outcome ≢ err UploadError.out_of_fuel)

empty-ends : (r : Reply) → empty_outcome r ≢ err UploadError.out_of_fuel
empty-ends success h = cc
empty-ends (incomplete range) h = cc
empty-ends (rejected status) h = cc
empty-ends unreachable h = cc

module _ {S : Type 0} (put : S → Text → ℕ → List ℕ → S × Reply)
    (on_progress : ResumableUploadState → Bool) (content : List ℕ) (url : Text) (total : ℕ) where
  advance_to-IsGood :
      (continue : ℕ → Sent S) (s : S) (offset next : ℕ)
      → (offset < next → next ≤ total → IsGood url total next (continue next))
      → IsGood url total offset
          (advance_to put on_progress content url total continue s offset next)
  advance_to-IsGood continue s offset next good = elim (Bool-cases (ltb total next)) [
    | inl a ↦ rw a (tt, λ h. cc)
    | inr a ↦ elim (Bool-cases (leb next offset)) [
      | inl b ↦ rw (a, b) (tt, λ h. cc)
      | inr b ↦
          elim (Bool-cases
            (on_progress (record { session_url = url; next_offset = next; file_size = total }))) [
              | inr c ↦ rw (a, b, c) (tt, λ h. cc)
              | inl c ↦
                  let low : offset < next = ground (arith, b) in
                  let high : next ≤ total = ground (arith, a) in
                  let (p, o) = good low high in rw (a, b, c) ((refl, refl, low, high, p), o)
            ]
    ]
  ]

  after_reply-IsGood :
      (continue : S → ℕ → Sent S) (offset n : ℕ) (r : S × Reply)
      → ((s : S) (next : ℕ)
          → offset < next
          → next ≤ total
          → IsGood url total next (continue s next))
      → IsGood url total offset (after_reply put on_progress content url total continue offset n r)
  after_reply-IsGood continue offset n (s, success) good = (tt, λ h. cc)
  after_reply-IsGood continue offset n (s, incomplete range) good =
      advance_to-IsGood (continue s) s offset _ (good s _)
  after_reply-IsGood continue offset n (s, rejected status) good = (tt, λ h. cc)
  after_reply-IsGood continue offset n (s, unreachable) good = (tt, λ h. cc)

  after_read-IsGood :
      (continue : S → ℕ → Sent S) (s : S) (offset n : ℕ) (o : Option (List ℕ))
      → ((s : S) (next : ℕ)
          → offset < next
          → next ≤ total
          → IsGood url total next (continue s next))
      → IsGood url total offset (after_read put on_progress content url total continue s offset n o)
  after_read-IsGood continue s offset n none good = (tt, λ h. cc)
  after_read-IsGood continue s offset n (some chunk) good =
      after_reply-IsGood continue offset n (put s url offset chunk) good

  send_chunks-IsGood :
      (fuel : ℕ) (s : S) (offset : ℕ)
      → total - offset < fuel
      → IsGood url total offset (send_chunks put on_progress content url total fuel s offset)
  unfolding send_chunks
  send_chunks-IsGood zero s offset h = absurd (omega (arith, h))
  send_chunks-IsGood (suc fuel) s offset h = elim (Bool-cases (total - offset == 0)) [
    | inl e ↦ rw e (tt, λ h. cc)
    | inr e ↦ rw e (
        after_read-IsGood (send_chunks put on_progress content url total fuel) s offset _ _
          (λ s next low high. send_chunks-IsGood fuel s next (omega (arith, h, low, high))))
  ]

  -- Whatever the server answers, whatever the file holds and whether or not the progress can be kept,
  -- the upload ends, with a success or one of the source's errors: a round more than the file has
  -- bytes is enough. All progress that it reports has the session's URL and the file's size, and its offsets
  -- strictly increase from the offset it starts at and never exceed the size.
  pub upload_progress :
      (s : S) (start : ℕ)
      → IsProgress url total
          (min start total)
          (upload_resumable_bytes put on_progress content url total s start).progress
        × ((upload_resumable_bytes put on_progress content url total s start).outcome
            ≢ err UploadError.out_of_fuel)
  unfolding upload_resumable_bytes
  upload_progress s start = elim (Bool-cases (total == 0)) [
    | inl e ↦ rw e (tt, empty-ends (put s url 0 []).1)
    | inr e ↦ rw e (send_chunks-IsGood (suc total) s (min start total) (omega arith))
  ]
