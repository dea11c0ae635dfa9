-- ===== src/Examples/Transfers.antt =====
-- A server that keeps one byte of a chunk, a failing one, a retried call and an interrupted deletion.
use oxidrive.Base.{
  ℕ, ◌+◌, ◌<◌, ◌≡◌, ◌≢◌, refl, arith, Bool, true, false, none, some, List, [], ◌∷◌, ◌++◌, ◌==◌, ◌⊎◌,
  inl, inr, min, Bool-cases, if◌then◌else◌, length, take, Result, ok, err,
}
use oxidrive.Text.{Text, text, text_cmp, ends_with}
use oxidrive.TextMap.{lookup}
use oxidrive.Types.Path.{normalize_relative, is_safe_normalized_relative}
use oxidrive.Drive.Upload.{Reply, success, incomplete, UploadError, upload_resumable_bytes}
use oxidrive.Drive.UploadLaws.{IsProgress, upload_progress}
use oxidrive.Drive.UploadDone.{range_to, IsKeeping, upload_done}
use oxidrive.Retry.{RetryConfig, Retried, retry_with_backoff, IsSettledBy, retry_settles}
use oxidrive.Store.Session.{Store, get}
use oxidrive.Store.Persist.{RedbStore}
use oxidrive.Engine.Recovery.{recover_pending_operations}
use oxidrive.Executor.TrashRemote.{Live, stopped_after}
use oxidrive.Executor.TrashLaws.{trash_crash_safe}
use oxidrive.Examples.Codecs.{table, no_rows, codecs, tombstone_codec, pending_op_codec}
use oxidrive.Examples.World.{notes, session, database}

abbrev url : Text
url = text "https://upload/1"

abbrev bytes : List ℕ
bytes = 10 ∷ 20 ∷ 30 ∷ []

-- It never names a range.
abbrev silent : ℕ → Text → ℕ → List ℕ → ℕ × Reply
silent s session_url offset chunk = (s, incomplete none)

upload_progress_example :
    IsProgress url 3
      (min 1 3)
      (upload_resumable_bytes silent (λ state. true) bytes url 3 0 1).progress
    × ((upload_resumable_bytes silent (λ state. true) bytes url 3 0 1).outcome
        ≢ err UploadError.out_of_fuel)
upload_progress_example = upload_progress silent (λ state. true) bytes url 3 0 1

-- It keeps the first byte of a chunk, or all of the last chunk.
abbrev slow : List ℕ → Text → ℕ → List ℕ → List ℕ × Reply
slow s session_url offset chunk =
    if offset + length chunk == 3
    then (s ++ chunk, success)
    else (s ++ take 1 chunk, incomplete (some (range_to (offset + 0))))

slow-IsKeeping : IsKeeping (λ s. s) 3 url slow
slow-IsKeeping s offset chunk at some_ fits = elim (Bool-cases (offset + length chunk == 3)) [
  | inl e ↦ rw e (ground (arith, e), refl)
  | inr e ↦
      let more : offset + 1 < 3 = ground (arith, e, some_, fits) in
      rw e (0, some_, more, refl, refl)
]

upload_done_example :
    ((upload_resumable_bytes slow (λ state. true) bytes url 3 (10 ∷ []) 1).outcome ≡ ok tt)
    × ((upload_resumable_bytes slow (λ state. true) bytes url 3 (10 ∷ []) 1).server ≡ bytes)
upload_done_example =
    upload_done (λ s. s) slow bytes url slow-IsKeeping (omega arith) (10 ∷ []) 1 (omega arith) refl

abbrev config : RetryConfig
config = record { max_retries = 3; max_delay_ms = 30_000 }

-- The third call succeeds.
abbrev flaky : ℕ → Result ℕ Text
flaky attempt = if attempt == 2 then ok (text "done") else err attempt

retry_settles_example :
    (r : Retried ℕ Text) × (retry_with_backoff config flaky (λ attempt. 1_000) ≡ some r)
    × IsSettledBy config flaky (λ attempt. 1_000) 0 r
retry_settles_example = retry_settles config flaky (λ attempt. 1_000)

-- Drive is whether the file is in its trash.
abbrev before : Live table.State Bool
before = record { store = session; pending_ops = no_rows; tombstones = no_rows; drive = false }

abbrev trash : Text → Bool → Bool × Bool
trash id trashed = (true, true)

-- The state when the process stops behind the request.
abbrev crashed : Live table.State Bool
crashed =
    stopped_after table pending_op_codec tombstone_codec trash notes (text "drive-1")
      (text "laptop") 400 3 before

trash_crash_safe_example :
    (saved : Store) × (db : RedbStore table) × (recover_pending_operations table codecs
        pending_op_codec session
        (record database { pending_ops = crashed.pending_ops })
      ≡ some (saved, db))
    × (table.rows db.pending_ops ≡ [])
    × (((crashed.drive ≡ false) × (get notes saved ≡ get notes session)) ⊎ (get notes saved ≡ none))
unfolding is_safe_normalized_relative normalize_relative ends_with text_cmp lookup
trash_crash_safe_example =
    trash_crash_safe table pending_op_codec tombstone_codec trash notes (text "drive-1")
      (text "laptop") 400 refl codecs 3 before session database
      (λ a. (_, refl), λ a. (_, refl), λ a. (_, refl)) tt refl refl
