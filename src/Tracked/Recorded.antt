-- ===== src/Tracked/Recorded.antt =====
-- What `record_pull_requests` leaves in its table of the pull requests of one account.
use gitbounty.Base.{
  ℕ, ◌≡◌, refl, ap, ◌∙◌, Bool, true, not, Option, none, some, List, [], ◌∷◌, ◌&&◌, ◌==◌, All, map,
  arith, is_some, Bool-cases, inl, inr, length, if◌then◌else◌,
}
use gitbounty.Text.{Text, Unicode}
use gitbounty.PullRequest.{
  AuthoredPr, ReviewState, Category, PublishedBounties, PullRequestState, with_author_user_id,
  pull_request_state,
}
use gitbounty.PullRequest.Lifecycle.{TrackedPullRequest, expected_points, assess}
use gitbounty.PullRequest.Eligible.{assess-explains}
use gitbounty.Detect.{GitHub, is_merged, track_one, detect_pull_requests}
use gitbounty.Points.Result.{Result, ok, ◌>>=◌}
use gitbounty.Tracked.{
  Row, row_of, is_allowed, store_row, record_pull_request, record_rows, record_pull_requests,
  find_row, expected,
}

is_merged-pull_request_state :
    (pr : AuthoredPr) (review : Option ReviewState)
    → is_merged (pull_request_state pr review) ≡ is_some pr.merged_at
unfolding pull_request_state
is_merged-pull_request_state pr review = ground arith

-- A row whose columns meet the checks of the table.
row-is_allowed :
    (now user_id : ℕ) (t : TrackedPullRequest)
    → is_merged t.state ≡ is_some t.pr.merged_at
    → is_some t.ineligible_reason ≡ not t.eligible
    → is_allowed (row_of now user_id t) ≡ true
unfolding is_allowed
row-is_allowed now user_id t h k = ground arith

abbrev pub Storable : TrackedPullRequest → Type 0
Storable t = (now user_id : ℕ) → is_allowed (row_of now user_id t) ≡ true

assess-Storable :
    (u : Unicode) (pr : AuthoredPr) (review : Option ReviewState) (inferred_category : Category)
    (published : PublishedBounties) (tracked_repositories : List Text)
    → Storable (assess u pr review inferred_category published tracked_repositories)
assess-Storable u pr review inferred_category published tracked_repositories now user_id =
    row-is_allowed now user_id (assess u pr review inferred_category published tracked_repositories)
      (unfold assess in is_merged-pull_request_state pr review)
      (assess-explains u pr review inferred_category published tracked_repositories).0

-- What the website shows of a pull request: its state and the points that are expected of it.
abbrev pub View : Type 0
View = PullRequestState × ℕ

abbrev pub shown : ℕ → ℕ → List Row → Option View
unfolding find_row expected
shown user_id id rows = elim (find_row user_id id rows) [
  | none ↦ none
  | some r ↦ some (r.state, expected r)
]

abbrev pub view : TrackedPullRequest → View
view t = (t.state, expected_points t)

-- The view of the last of the pull requests with a number, or what stood before.
abbrev pub last_view : ℕ → List TrackedPullRequest → Option View → Option View
last_view id [] before = before
last_view id (t ∷ ts) before =
    last_view id ts (if t.pr.github_pr_id == id then some (view t) else before)

shown-store_row :
    (now user_id v id : ℕ) (t : TrackedPullRequest) (rows : List Row)
    → shown v id (store_row (row_of now user_id t) rows)
      ≡ (if user_id == v && t.pr.github_pr_id == id then some (view t) else shown v id rows)
unfolding store_row find_row expected expected_points
shown-store_row now user_id v id t [] = ground arith
shown-store_row now user_id v id t (r ∷ rows) =
    ground (arith, shown-store_row now user_id v id t rows)

module _ (now user_id : ℕ) where
  -- The table after the pull requests: what is shown of each account's pull requests.
  abbrev pub Shown : List TrackedPullRequest → List Row → List Row → Type 0
  Shown ts rows rows' =
      (v id : ℕ)
      → shown v id rows'
        ≡ (if user_id == v then last_view id ts (shown v id rows) else shown v id rows)

  record_rows-Shown :
      (ts : List TrackedPullRequest) (rows : List Row)
      → All Storable ts
      → (rows' : List Row) × (record_rows now user_id ts rows ≡ ok rows') × Shown ts rows rows'
  unfolding record_rows
  record_rows-Shown [] rows h = (rows, refl, λ v id. ground arith)
  record_rows-Shown (t ∷ ts) rows h =
      let (rows', e, s) = record_rows-Shown ts (store_row (row_of now user_id t) rows) h.1 in
      (rows', unfold record_pull_request in rw (h.0 now user_id) e, λ v id. s v id ∙ one v id)
    where
      one :
          (v id : ℕ)
          → (if user_id == v
              then last_view id ts (shown v id (store_row (row_of now user_id t) rows))
              else shown v id (store_row (row_of now user_id t) rows))
            ≡ (if user_id == v then last_view id (t ∷ ts) (shown v id rows) else shown v id rows)
      one v id = elim (Bool-cases (user_id == v)) [
        | inl e ↦ rw (e, shown-store_row now user_id v id t rows) (rw e refl)
        | inr e ↦ rw (e, shown-store_row now user_id v id t rows) (rw e refl)
      ]

  -- The pull requests that a sync tracked are stored without a violation of the checks. The website
  -- then shows of each pull request of the account the state and the expected points of the last that
  -- was tracked with its number, or what it showed before; other accounts' stay as they were.
  pub record_pull_requests_lem :
      (u : Unicode) (gh : GitHub) (inspect_files inspect_reviews : Bool)
      (published : PublishedBounties) (fetched : List AuthoredPr) (rows : List Row)
      → let ts =
          detect_pull_requests u gh inspect_files published inspect_reviews
            (some user_id)
            fetched in
        (rows' : List Row) × (record_pull_requests now user_id ts rows ≡ ok (rows', length ts))
        × Shown ts rows rows'
  unfolding record_pull_requests detect_pull_requests
  record_pull_requests_lem u gh inspect_files inspect_reviews published fetched rows =
      let ts =
        detect_pull_requests u gh inspect_files published inspect_reviews (some user_id) fetched in
      let (rows', e, s) = record_rows-Shown ts rows storable in
      (rows', ap (λ (r : Result (List Row)). r >>= (λ xs. ok (xs, length ts))) e, s)
    where
      all_storable :
          (prs : List AuthoredPr)
          → All Storable (map (track_one u gh inspect_files published inspect_reviews) prs)
      all_storable [] = tt
      all_storable (pr ∷ prs) =
          (unfold track_one in assess-Storable u pr _ _ published _, all_storable prs)

      storable :
          All Storable (
            detect_pull_requests u gh inspect_files published inspect_reviews
              (some user_id)
              fetched)
      storable = all_storable (map (with_author_user_id user_id) fetched)
