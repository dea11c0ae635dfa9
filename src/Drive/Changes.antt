-- ===== src/Drive/Changes.antt =====
-- The pages of Drive's change log, `fetch_changes` of src/drive/changes.rs. The answer to a request
-- for the page of a token is a parameter.
use oxidrive.Base.{
  ℕ, zero, suc, ◌≤◌, ◌≡◌, refl, ap, ◌∙◌, Option, none, some, List, [], ◌∷◌, ◌++◌, arith, length,
  Result, ok, err,
}
use mathlib.Core.List.{append_assoc, append-nil}
use oxidrive.Text.{Text}
use oxidrive.Drive.{DriveChange}

pub record ChangesPage : Type 0 where
  pub changes : List DriveChange
  pub next_page_token : Option Text
  pub new_start_page_token : Option Text

-- `too_many_pages` is the model's own, when the fuel runs out.
pub data ChangesError : Type 0 where
  request_failed : ChangesError
  missing_token : ChangesError
  too_many_pages : ChangesError

abbrev pub Fetched : Type 0
Fetched = Result ChangesError (List DriveChange × Text)

abbrev pub or_token : Option Text → Option Text → Option Text
or_token none other = other
or_token (some t) other = some t

abbrev pub with_token : List DriveChange → Option Text → Fetched
with_token collected none = err missing_token
with_token collected (some t) = ok (collected, t)

module _ (page_of : Text → Result ChangesError ChangesPage) where
  abbrev after_page :
      (Text → Option Text → List DriveChange → Fetched)
      → List DriveChange
      → Option Text
      → Option Text
      → Option Text
      → Fetched
  after_page rest collected latest new_start (some next) = rest next latest collected
  after_page rest collected latest new_start none = with_token collected (or_token latest new_start)

  abbrev pub on_page :
      (Text → Option Text → List DriveChange → Fetched)
      → Option Text
      → List DriveChange
      → Result ChangesError ChangesPage
      → Fetched
  on_page rest latest collected (err e) = err e
  on_page rest latest collected (ok page) =
      after_page rest (collected ++ page.changes) (or_token page.new_start_page_token latest)
        page.new_start_page_token page.next_page_token

  -- The loop, for so many pages at most.
  unfoldable pub fetch_loop : ℕ → Text → Option Text → List DriveChange → Fetched
  fetch_loop zero token latest collected = err too_many_pages
  fetch_loop (suc n) token latest collected =
      on_page (fetch_loop n) latest collected (page_of token)

  abbrev pub fetch_changes : ℕ → Text → Fetched
  fetch_changes pages page_token = fetch_loop pages page_token none []

  -- Drive has these pages from the token on.
  abbrev pub Serves : Text → List ChangesPage → Type 0
  Serves token [] = ⊥
  Serves token (page ∷ []) = (page_of token ≡ ok page) × (page.next_page_token ≡ none)
  Serves token (page ∷ q ∷ pages) =
      (page_of token ≡ ok page)
      × (next : Text) × (page.next_page_token ≡ some next)
      × Serves next (q ∷ pages)

abbrev pub all_changes : List ChangesPage → List DriveChange
all_changes [] = []
all_changes (page ∷ pages) = page.changes ++ all_changes pages

-- The last new token of the pages, or an earlier one.
abbrev pub last_token : Option Text → List ChangesPage → Option Text
last_token latest [] = latest
last_token latest (page ∷ pages) = last_token (or_token page.new_start_page_token latest) pages

or_token_lem : (new latest : Option Text) → or_token (or_token new latest) new ≡ or_token new latest
or_token_lem none none = refl
or_token_lem none (some t) = refl
or_token_lem (some t) latest = refl

module _ (page_of : Text → Result ChangesError ChangesPage) where
  fetch_loop_lem :
      (n : ℕ) (token : Text) (pages : List ChangesPage) (latest : Option Text)
      (collected : List DriveChange)
      → Serves page_of token pages
      → length pages ≤ n
      → fetch_loop page_of n token latest collected
        ≡ with_token (collected ++ all_changes pages) (last_token latest pages)
  unfolding fetch_loop
  fetch_loop_lem n token [] latest collected s h = absurd s
  fetch_loop_lem zero token (page ∷ pages) latest collected s h = absurd (omega (arith, h))
  fetch_loop_lem (suc n) token (page ∷ []) latest collected (e, f) h =
      rw (e, f, or_token_lem page.new_start_page_token latest, append-nil page.changes) refl
  fetch_loop_lem (suc n) token (page ∷ q ∷ pages) latest collected (e, next, f, s) h =
      rw (e, f)
        (fetch_loop_lem n next (q ∷ pages) (or_token page.new_start_page_token latest)
            (collected ++ page.changes) s (omega (arith, h))
          ∙ ap
              (λ c.
                with_token c (last_token (or_token page.new_start_page_token latest) (q ∷ pages)))
              (append_assoc collected page.changes (all_changes (q ∷ pages))))

  -- If Drive has these pages from the token on, and no more than the limit, fetching the changes ends
  -- with all of them in order and the last new token of the pages, or with an error if no page has one.
  pub fetch_changes_all :
      (n : ℕ) (token : Text) (pages : List ChangesPage)
      → Serves page_of token pages
      → length pages ≤ n
      → fetch_changes page_of n token ≡ with_token (all_changes pages) (last_token none pages)
  fetch_changes_all n token pages s h = fetch_loop_lem n token pages none [] s h
