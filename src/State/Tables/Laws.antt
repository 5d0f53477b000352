-- ===== src/State/Tables/Laws.antt =====
-- internal/state/state.go: the SQL statements row by row.
use gmail_visibility_manager.Base.{
  List, [], ◌∷◌, ◌++◌, ◌≡◌, refl, ◌&&◌, Option, none, some, if◌then◌else◌, arith, All, Bool-cases,
  inl, inr,
}
use gmail_visibility_manager.Text.{Text, ◌==◌, ==_iff}
use gmail_visibility_manager.State.Records.{RequestRow, GrantRow, status_active}
use gmail_visibility_manager.State.Tables.{
  find_request, find_grant, update_request, upsert_grant, overwrite_grant, set_filter_id,
}

abbrev pub map_some {ℓ} : {A : Type ℓ} → (A → A) → Option A → Option A
map_some f none = none
map_some f (some a) = some (f a)

abbrev pub or_else {ℓ} : {A : Type ℓ} → Option A → Option A → Option A
or_else none b = b
or_else (some a) b = some a

pub find_request-append :
    (rows : List RequestRow) (row : RequestRow) (k : Text)
    → find_request (rows ++ row ∷ []) k
      ≡ or_else (find_request rows k) (if row.request_id == k then some row else none)
unfolding find_request
find_request-append [] row k = refl
find_request-append (r ∷ rows) row k = ground (arith, find_request-append rows row k)

-- a change of a row that keeps its primary key
abbrev pub KeepsId : (RequestRow → RequestRow) → Type 0
KeepsId change = (row : RequestRow) → (change row).request_id ≡ row.request_id

pub find_request-update_request :
    (change : RequestRow → RequestRow) (rows : List RequestRow) (id k : Text)
    → KeepsId change
    → find_request (update_request change rows id) k
      ≡ (if id == k then map_some change (find_request rows k) else find_request rows k)
unfolding find_request update_request
find_request-update_request change [] id k keeps = ground arith
find_request-update_request change (r ∷ rows) id k keeps = ground (
  arith,
  keeps r,
  ==_iff r.request_id id,
  ==_iff r.request_id k,
  ==_iff id k,
  find_request-update_request change rows id k keeps,
)

pub find_request-id :
    (rows : List RequestRow) (k : Text) (row : RequestRow)
    → find_request rows k ≡ some row
    → row.request_id ≡ k
unfolding find_request
find_request-id [] k row h = cc
find_request-id (r ∷ rows) k row h =
    ground (arith, ==_iff r.request_id k, find_request-id rows k row)

pub find_grant-email :
    (rows : List GrantRow) (k : Text) (row : GrantRow)
    → find_grant rows k ≡ some row
    → row.email ≡ k
unfolding find_grant
find_grant-email [] k row h = cc
find_grant-email (r ∷ rows) k row h = ground (arith, ==_iff r.email k, find_grant-email rows k row)

-- the row that an upsert leaves
abbrev pub upserted : GrantRow → Option GrantRow → GrantRow
upserted new none = new
upserted new (some old) = overwrite_grant new old

pub find_grant-upsert_grant :
    (new : GrantRow) (rows : List GrantRow) (k : Text)
    → find_grant (upsert_grant new rows) k
      ≡ (if new.email == k then some (upserted new (find_grant rows k)) else find_grant rows k)
unfolding find_grant upsert_grant
find_grant-upsert_grant new [] k = refl
find_grant-upsert_grant new (r ∷ rows) k = ground (
  arith,
  ==_iff r.email new.email,
  ==_iff r.email k,
  ==_iff new.email k,
  find_grant-upsert_grant new rows k,
)

module _ (P Q : GrantRow → Type 0) where
  pub upsert_grant-All :
      (new : GrantRow) (rows : List GrantRow)
      → ((row : GrantRow) → P row → Q row)
      → Q new
      → ((row : GrantRow) → row.email ≡ new.email → P row → Q (overwrite_grant new row))
      → All P rows
      → All Q (upsert_grant new rows)
  unfolding upsert_grant
  upsert_grant-All new [] keep q over _ = (q, tt)
  upsert_grant-All new (r ∷ rows) keep q over (p, ps) = elim (Bool-cases (r.email == new.email)) [
    | inl same ↦ rw same (over r ((==_iff _ _).0 same) p, all_keep rows ps)
    | inr other ↦ rw other (keep r p, upsert_grant-All new rows keep q over ps)
  ]
    where
      all_keep : (l : List GrantRow) → All P l → All Q l
      all_keep [] _ = tt
      all_keep (x ∷ xs) (y, ys) = (keep x y, all_keep xs ys)

  pub set_filter_id-All :
      (filter_id now email : Text) (rows : List GrantRow)
      → ((row : GrantRow) → P row → Q row)
      → ((row : GrantRow)
          → P row
          → Q (record row { gmail_filter_id = filter_id; updated_at = now }))
      → All P rows
      → All Q (set_filter_id filter_id now email rows)
  unfolding set_filter_id
  set_filter_id-All filter_id now email [] keep change _ = tt
  set_filter_id-All filter_id now email (r ∷ rows) keep change (p, ps) =
      elim (Bool-cases (r.email == email && r.status == status_active)) [
        | inl hit ↦ rw hit (change r p, set_filter_id-All filter_id now email rows keep change ps)
        | inr miss ↦ rw miss (keep r p, set_filter_id-All filter_id now email rows keep change ps)
      ]

-- the row that set_filter_id leaves in place of another
pub record Filtered (a b : GrantRow) : Type 0 where
  pub email : b.email ≡ a.email
  pub visibility_label : b.visibility_label ≡ a.visibility_label
  pub labels : b.classification_labels_json ≡ a.classification_labels_json
  pub status : b.status ≡ a.status
  pub source : b.created_from_request_id ≡ a.created_from_request_id
  pub approved_by : b.approved_by ≡ a.approved_by

pub find_grant-set_filter_id :
    (filter_id at email : Text) (rows : List GrantRow) (k : Text) (after : GrantRow)
    → find_grant (set_filter_id filter_id at email rows) k ≡ some after
    → (before : GrantRow) × (find_grant rows k ≡ some before) × Filtered before after
unfolding find_grant set_filter_id
find_grant-set_filter_id filter_id at email [] k after h = absurd (ground arith)
find_grant-set_filter_id filter_id at email (r ∷ rows) k after h =
    elim (Bool-cases (r.email == k)) [
      | inl same ↦ (r, ground arith, ground arith)
      | inr other ↦
          let (before, found, rest) =
            find_grant-set_filter_id filter_id at email rows k after (ground arith) in
          (before, ground arith, rest)
    ]
