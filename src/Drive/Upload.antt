-- ===== src/Drive/Upload.antt =====
-- The chunk loop of a resumable upload, `upload_resumable_bytes` of src/drive/upload.rs. The server,
-- the file and the callback that keeps the progress are parameters.
use oxidrive.Base.{
  ℕ, zero, suc, ◌+◌, ◌-◌, min, Bool, not, Option, none, some, List, [], ◌∷◌, ltb, leb, ◌==◌,
  if◌then◌else◌, length, take, drop, Result, ok, err,
}
use oxidrive.Text.{Text, text, split, split_once, u64_max}
use oxidrive.Text.Decimal.{parse_u64}

-- `str::strip_prefix`
abbrev strip_prefix : Text → Text → Option Text
strip_prefix s [] = some s
strip_prefix [] (d ∷ prefix) = none
strip_prefix (c ∷ s) (d ∷ prefix) = if c == d then strip_prefix s prefix else none

abbrev first_of : List Text → Text
first_of [] = []
first_of (s ∷ rest) = s

-- `checked_add(1)` on a u64.
abbrev checked_suc : Option ℕ → Option ℕ
checked_suc none = none
checked_suc (some n) = if ltb n u64_max then some (n + 1) else none

abbrev end_of_value : Option Text → Option ℕ
end_of_value none = none
end_of_value (some value) = elim (split_once b'-' value) [
  | none ↦ none
  | some (start, end) ↦ checked_suc (parse_u64 end)
]

-- Of the `Range` header, if there is one.
unfoldable pub parse_next_offset : Option Text → Option ℕ
unfolding split split_once parse_u64
parse_next_offset none = none
parse_next_offset (some range) =
    end_of_value (strip_prefix (first_of (split b',' range)) (text "bytes="))

pub record ResumableUploadState : Type 0 where
  pub session_url : Text
  pub next_offset : ℕ
  pub file_size : ℕ

-- What a request comes to: a status of 2xx, 308 with its `Range` header, another status, or no answer.
pub data Reply : Type 0 where
  success : Reply
  incomplete : (range : Option Text) → Reply
  rejected : (status : ℕ) → Reply
  unreachable : Reply

-- The errors of the loop. `out_of_fuel` is the model's own, and never comes up.
pub data UploadError : Type 0 where
  no_remaining_bytes : (offset : ℕ) → UploadError
  unreadable : (offset : ℕ) → UploadError
  request_failed : UploadError
  http_error : (status : ℕ) → UploadError
  beyond_total : (next total_size : ℕ) → UploadError
  not_increasing : (next offset : ℕ) → UploadError
  progress_failed : UploadError
  out_of_fuel : UploadError

-- The server afterwards, the progress that was kept in order, and the result.
pub record Sent (S : Type 0) : Type 0 where
  pub server : S
  pub progress : List ResumableUploadState
  pub outcome : Result UploadError Unit

abbrev pub resumable_chunk_bytes : ℕ
resumable_chunk_bytes = 8_388_608

-- `read_exact` of so many bytes from an offset.
abbrev pub read_exact : ℕ → ℕ → List ℕ → Option (List ℕ)
read_exact offset n content =
    let chunk = take n (drop offset content) in if length chunk == n then some chunk else none

abbrev or_end : Option ℕ → ℕ → ℕ
or_end (some next) end = next
or_end none end = end

-- The end of the loop with a result.
abbrev pub finish : {S : Type 0} → S → Result UploadError Unit → Sent S
finish s r = record { server = s; progress = []; outcome = r }

abbrev pub after_progress : {S : Type 0} → ResumableUploadState → Sent S → Sent S
after_progress state sent = record sent { progress = state ∷ sent.progress }

abbrev pub empty_outcome : Reply → Result UploadError Unit
empty_outcome success = ok tt
empty_outcome (incomplete range) = err (http_error 308)
empty_outcome (rejected status) = err (http_error status)
empty_outcome unreachable = err request_failed

module _ {S : Type 0} (put : S → Text → ℕ → List ℕ → S × Reply)
    (on_progress : ResumableUploadState → Bool) (content : List ℕ) (session_url : Text)
    (total_size : ℕ) where
  abbrev pub state_at : ℕ → ResumableUploadState
  state_at offset = record {
    session_url = session_url;
    next_offset = offset;
    file_size = total_size;
  }

  -- The tests of a new offset, and the callback.
  abbrev pub advance_to : (ℕ → Sent S) → S → ℕ → ℕ → Sent S
  advance_to continue s offset next =
      if ltb total_size next
      then finish s (err (beyond_total next total_size))
      else if leb next offset
      then finish s (err (not_increasing next offset))
      else if not (on_progress (state_at next))
      then finish s (err progress_failed)
      else after_progress (state_at next) (continue next)

  abbrev pub after_reply : (S → ℕ → Sent S) → ℕ → ℕ → S × Reply → Sent S
  after_reply continue offset n (s, success) = finish s (ok tt)
  after_reply continue offset n (s, incomplete range) =
      advance_to (continue s) s offset (or_end (parse_next_offset range) (min (offset + n) u64_max))
  after_reply continue offset n (s, rejected status) = finish s (err (http_error status))
  after_reply continue offset n (s, unreachable) = finish s (err request_failed)

  abbrev pub after_read : (S → ℕ → Sent S) → S → ℕ → ℕ → Option (List ℕ) → Sent S
  after_read continue s offset n none = finish s (err (unreadable offset))
  after_read continue s offset n (some chunk) =
      after_reply continue offset n (put s session_url offset chunk)

  unfoldable pub send_chunks : ℕ → S → ℕ → Sent S
  unfolding parse_next_offset
  send_chunks zero s offset = finish s (err out_of_fuel)
  send_chunks (suc fuel) s offset =
      let n = min (total_size - offset) resumable_chunk_bytes in
      if total_size - offset == 0
      then finish s (err (no_remaining_bytes offset))
      else after_read (send_chunks fuel) s offset n (read_exact offset n content)

  -- An empty file takes one request. Each round of the loop sends at least one byte more.
  unfoldable pub upload_resumable_bytes : S → ℕ → Sent S
  unfolding send_chunks
  upload_resumable_bytes s start_offset =
      if total_size == 0
      then (let (s', reply) = put s session_url 0 [] in finish s' (empty_outcome reply))
      else send_chunks (suc total_size) s (min start_offset total_size)
