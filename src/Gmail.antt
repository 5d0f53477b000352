-- ===== src/Gmail.antt =====
-- internal/gmail/gmail.go: the types of a reconciliation, and the client as the manager sees it.
pub mod Senders
pub mod Terms
pub mod Api
pub mod Matching
pub mod Backfill
pub mod Grouping
pub mod Groups
pub mod Resolve
pub mod Reconcile
use gmail_visibility_manager.Base.{ℕ, ℤ, List, Bool, Option}
use gmail_visibility_manager.Text.{Text}
use gmail_visibility_manager.GmailFilter.{Spec}
use gmail_visibility_manager.State.Records.{GrantRecord}

-- of the map from addresses to true, the addresses
pub record ReconcileOptions : Type 0 where
  pub apply : Bool
  pub backfill_historical : Bool
  pub backfill_historical_emails : List Text

pub record LabelFilter : Type 0 where
  pub label : Text
  pub gmail_filter_id : Text
  pub status : Text
  pub primary : Bool
  pub message : Text

pub record HistoricalBackfill : Type 0 where
  pub query : Text
  pub labels : List Text
  pub messages_matched : ℤ
  pub messages_modified : ℤ
  pub batches : ℤ
  pub include_spam_trash : Bool
  pub status : Text
  pub message : Text

pub record ReconcileResult : Type 0 where
  pub email : Text
  pub expected_filter : Spec
  pub gmail_filter_id : Text
  pub label_filters : List LabelFilter
  pub historical_backfill : Option HistoricalBackfill
  pub status : Text
  pub changed : Bool
  pub message : Text

-- The Gmail account as it answers: the n-th call has an answer of its own. `connect` is the error of
-- gmail.New, and `reconcile` what ReconcileGrants returns, its results and its error.
pub record Gmail : Type 0 where
  pub connect : ℕ → Option Text
  pub reconcile : ℕ → List GrantRecord → ReconcileOptions → List ReconcileResult × Option Text
