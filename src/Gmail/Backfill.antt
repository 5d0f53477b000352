-- ===== src/Gmail/Backfill.antt =====
-- internal/gmail/gmail.go: the labels of a grant on the messages that are there already.
pub mod Batches
pub mod Search
pub mod Modified
use gmail_visibility_manager.Base.{
  ℕ, zero, suc, pos, ◌+◌, length, List, [], ◌∷◌, ◌++◌, Bool, true, false, eqb, is_empty, Option,
  none, some, if◌then◌else◌,
}
use gmail_visibility_manager.Text.{Text, text, trim_space}
use gmail_visibility_manager.Result.{Result, ok, err}
use gmail_visibility_manager.Exec.{Exec, pure, wrap_result, continue, ◌>>=◌, ◌>>◌}
use gmail_visibility_manager.Std.{Std}
use gmail_visibility_manager.Gmail.{HistoricalBackfill}
use gmail_visibility_manager.Gmail.Api.{Api, Call, Calls, list_messages, batch_modify}
use gmail_visibility_manager.Gmail.Matching.{compact_strings}

abbrev pub batch_modify_limit : ℕ
batch_modify_limit = 1000

unfoldable pub sender_query : Text → Text
sender_query from = text "from:(" ++ (trim_space from ++ text ")")

-- the variables that the loop of BackfillLabelsForSender changes
pub record Backfilling : Type 0 where
  pub matched : ℕ
  pub modified : ℕ
  pub batches : ℕ
  pub batch : List Text
  pub calls : Calls

-- the outcome of a call of BatchModify
abbrev pub flushed : Result (Unit {0}) → List Text → List Text → Exec Backfilling (Unit {0})
flushed (err message) ids label_ids s =
    (err message, record s { calls = batch_modify ids label_ids ∷ s.calls })
flushed (ok _) ids label_ids s = (
  ok tt,
  record s {
    modified = s.modified + length ids;
    batches = s.batches + 1;
    batch = [];
    calls = batch_modify ids label_ids ∷ s.calls;
  },
)

-- the values of HistoricalBackfill before the loop
unfoldable pub new_backfill : Text → List Text → HistoricalBackfill
new_backfill from labels = record {
  query = sender_query from;
  labels = labels;
  messages_matched = pos 0;
  messages_modified = pos 0;
  batches = pos 0;
  include_spam_trash = true;
  status = [];
  message = [];
}

-- the counters, a status and a message
abbrev pub with_counts : HistoricalBackfill → Backfilling → Text → Text → HistoricalBackfill
with_counts result s status message = record result {
  messages_matched = pos s.matched;
  messages_modified = pos s.modified;
  batches = pos s.batches;
  status = status;
  message = message;
}

module _ ⦃api : Api⦄ where
  -- the closure `flush`
  unfoldable pub flush : Text → List Text → Exec Backfilling (Unit {0})
  flush from label_ids s =
      if is_empty s.batch
      then (ok tt, s)
      else flushed
          (wrap_result (text "batch label historical messages for " ++ (from ++ text ": "))
            (api.modify s.calls s.batch label_ids))
          s.batch label_ids s

  -- the body of the loop over the messages of a page
  unfoldable pub add_message : Text → List Text → Text → Exec Backfilling (Unit {0})
  unfolding flush
  add_message from label_ids id s =
      let grown = record s { matched = s.matched + 1; batch = s.batch ++ id ∷ [] } in
      if eqb (length grown.batch) batch_modify_limit
      then flush from label_ids grown
      else (ok tt, grown)

  unfoldable pub add_messages : Text → List Text → List (Option Text) → Exec Backfilling (Unit {0})
  unfolding add_message
  add_messages from label_ids [] = pure tt
  add_messages from label_ids (none ∷ messages) = add_messages from label_ids messages
  add_messages from label_ids (some id ∷ messages) =
      let rest = add_messages from label_ids messages in
      if is_empty (trim_space id)
      then rest
      else (add_message from label_ids (trim_space id) >> rest)

  -- the body of the loop over the pages behind the request, with the rest of the loop from a token
  -- on; `some` is the error of a request for a page, and the error of a flush stops the loop too
  unfoldable pub read_page :
      Text
      → List Text
      → (Text → Exec Backfilling (Option Text))
      → Result (List (Option Text) × Text)
      → Exec Backfilling (Option Text)
  unfolding add_messages
  read_page from label_ids next_page (err message) = pure (some message)
  read_page from label_ids next_page (ok (messages, next)) =
      add_messages from label_ids messages
      >> (if is_empty (trim_space next) then pure none else next_page (trim_space next))

  -- the loop over the pages, from the request with a token on, for a number of pages
  unfoldable pub list_pages : Text → List Text → Text → ℕ → Text → Exec Backfilling (Option Text)
  unfolding read_page
  list_pages from label_ids query zero page_token s = pure none s
  list_pages from label_ids query (suc pages) page_token s =
      read_page from label_ids (λ next. list_pages from label_ids query pages next)
        (api.messages s.calls query page_token)
        (record s { calls = list_messages query page_token ∷ s.calls })

  -- the flush behind the loop, which an error of the loop skips
  unfoldable pub flush_rest : Text → List Text → Option Text → Exec Backfilling (Option Text)
  unfolding flush
  flush_rest from label_ids (some message) = pure (some message)
  flush_rest from label_ids none = flush from label_ids >> pure none

  -- the pages, and the flush of what is left in the batch
  unfoldable pub run_backfill : Text → List Text → Calls → Result (Option Text) × Backfilling
  unfolding list_pages flush_rest
  run_backfill from label_ids calls =
      (do
        failed ←
            list_pages from label_ids (sender_query from)
              (suc (api.pages_left (sender_query from) [])) []
        flush_rest from label_ids failed)
        (record { matched = 0; modified = 0; batches = 0; batch = []; calls = calls })

  module _ ⦃std : Std⦄ where
    -- BackfillLabelsForSender behind the loop, with its error beside its value
    abbrev pub finish_backfill :
        Text
        → HistoricalBackfill
        → Result (Option Text) × Backfilling
        → HistoricalBackfill × Option Text × Calls
    finish_backfill from result (err message, s) =
        (with_counts result s (text "error") message, some message, s.calls)
    finish_backfill from result (ok (some message), s) = (
      with_counts result s (text "error") message,
      some (text "list historical messages for " ++ (from ++ (text ": " ++ message))),
      s.calls,
    )
    finish_backfill from result (ok none, s) = (
      with_counts result s (text "ok") (
          if eqb s.matched 0
          then text "no historical messages matched"
          else text "backfilled "
            ++ (std.decimal (pos s.modified) ++ text " historical message(s)")),
      none,
      s.calls,
    )

    unfoldable pub backfill_labels_for_sender :
        Text → List Text → List Text → Calls → HistoricalBackfill × Option Text × Calls
    unfolding run_backfill new_backfill
    backfill_labels_for_sender from labels label_ids calls =
        let result = new_backfill from labels in
        if is_empty (trim_space from)
        then (
          record result { status = text "error"; message = text "sender email is required" },
          some (text "backfill historical messages: sender email is required"),
          calls,
        )
        else if is_empty (compact_strings label_ids)
        then (
          record result { status = text "skipped"; message = text "no labels to backfill" },
          none,
          calls,
        )
        else finish_backfill from result (run_backfill from (compact_strings label_ids) calls)
