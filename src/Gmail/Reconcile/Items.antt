-- ===== src/Gmail/Reconcile/Items.antt =====
-- internal/gmail/gmail.go: the loop of ReconcileGrants over the grants, with their other labels.
use gmail_visibility_manager.Base.{
  ◌+◌, List, [], ◌∷◌, ◌++◌, Bool, true, false, ◌&&◌, not, is_empty, Option, none, some,
  if◌then◌else◌,
}
use gmail_visibility_manager.Text.{Text, text, ◌==◌, trim_space}
use gmail_visibility_manager.Result.{Result, ok, err}
use gmail_visibility_manager.Exec.{Exec, pure, ◌>>◌}
use gmail_visibility_manager.Dict.{Dict}
use gmail_visibility_manager.Std.{Std}
use gmail_visibility_manager.Config.{normalize_label}
use gmail_visibility_manager.Gmail.{
  ReconcileOptions, LabelFilter, HistoricalBackfill, ReconcileResult,
}
use gmail_visibility_manager.Gmail.Api.{Api, Calls, Filter, create_managed_label_filter}
use gmail_visibility_manager.Gmail.Matching.{find_matching_filter}
use gmail_visibility_manager.Gmail.Resolve.{label_ids_for_spec}
use gmail_visibility_manager.Gmail.Backfill.{backfill_labels_for_sender}
use gmail_visibility_manager.Gmail.Grouping.{CompiledGrant, text_at}
use gmail_visibility_manager.Gmail.Reconcile.{
  Tally, Progress, fail_result, add_filter, tally_filters, conclude_result,
  should_backfill_historical,
}

unfoldable pub secondary_filter : Text → Text → Text → Text → LabelFilter
secondary_filter label id status message = record {
  label = label;
  gmail_filter_id = id;
  status = status;
  primary = false;
  message = message;
}

-- the filter is there, or it is missing and changes are not applied
unfoldable pub note_existing : Text → Filter → Progress → Progress
unfolding secondary_filter add_filter
note_existing label filter p = record p {
  result =
      add_filter
        (secondary_filter label (trim_space filter.id) (text "ok")
          (text "matching Gmail label filter exists"))
        p.result;
}

unfoldable pub note_missing : Text → Progress → Progress
unfolding secondary_filter add_filter
note_missing label p = record p {
  result =
      add_filter
        (secondary_filter label [] (text "missing") (text "managed Gmail label filter is missing"))
        p.result;
  tally = record p.tally { missing_count = p.tally.missing_count + 1 };
}

-- the outcome of the creation
unfoldable pub note_created :
    Text → Text → Result Text × Calls → Progress → Result (Unit {0}) × Progress
unfolding secondary_filter add_filter fail_result
note_created label label_id (err message, after) p = (
  err message,
  record p {
    result =
        fail_result message
          (add_filter (secondary_filter label [] (text "error") message) p.result);
    calls = after;
  },
)
note_created label label_id (ok id, after) p = (
  ok tt,
  record p {
    result =
        record (add_filter
          (secondary_filter label id (text "created") (text "created managed Gmail label filter"))
          p.result) { changed = true };
    tally = record p.tally {
      created_count = p.tally.created_count + 1;
      created_labels = p.tally.created_labels ++ label ∷ [];
      created_label_ids = p.tally.created_label_ids ++ label_id ∷ [];
    };
    calls = after;
  },
)

-- the outcome of a backfill
unfoldable pub note_backfill :
    HistoricalBackfill × Option Text × Calls → Progress → Result (Unit {0}) × Progress
unfolding fail_result
note_backfill (backfill, some message, after) p = (
  err message,
  record p {
    result = fail_result message (record p.result { historical_backfill = some backfill });
    calls = after;
  },
)
note_backfill (backfill, none, after) p = (
  ok tt,
  record p { result = record p.result { historical_backfill = some backfill }; calls = after },
)

module _ ⦃std : Std⦄ ⦃api : Api⦄ where
  module _ (apply : Bool) (filters : List (Option Filter)) (label_ids : Dict Text) where
    -- the body of the loop over the labels behind the first one
    unfoldable pub ensure_label : Text → Text → Exec Progress (Unit {0})
    unfolding note_existing note_missing note_created
    ensure_label from label p =
        let label_id = text_at label_ids (normalize_label label) in
        elim (find_matching_filter filters from (label_id ∷ [])) [
          | some filter ↦ (ok tt, note_existing label filter p)
          | none ↦
              if apply
              then note_created label label_id (create_managed_label_filter from label_id p.calls) p
              else (ok tt, note_missing label p)
        ]

    unfoldable pub ensure_labels : Text → Text → List Text → Exec Progress (Unit {0})
    unfolding ensure_label
    ensure_labels from primary_key [] = pure tt
    ensure_labels from primary_key (label ∷ labels) =
        let rest = ensure_labels from primary_key labels in
        if normalize_label label == primary_key then rest else (ensure_label from label >> rest)

  -- whether all labels of the grant go to the messages that are there, or only the new ones
  abbrev pub backfills_all : ReconcileOptions → CompiledGrant → Bool
  backfills_all opts item = opts.apply && should_backfill_historical opts item.spec.from

  abbrev pub backfill_labels : ReconcileOptions → CompiledGrant → Tally → List Text
  backfill_labels opts item t =
      if backfills_all opts item then item.spec.add_labels else t.created_labels

  abbrev pub backfill_label_ids : ReconcileOptions → Dict Text → CompiledGrant → Tally → List Text
  backfill_label_ids opts label_ids item t =
      if backfills_all opts item
      then label_ids_for_spec item.spec label_ids
      else t.created_label_ids

  unfoldable pub backfill_grant :
      ReconcileOptions → Dict Text → CompiledGrant → Exec Progress (Unit {0})
  unfolding note_backfill
  backfill_grant opts label_ids item p =
      let labels = backfill_labels opts item p.tally in
      let ids = backfill_label_ids opts label_ids item p.tally in
      if opts.apply && not (is_empty ids)
      then note_backfill (backfill_labels_for_sender item.spec.from labels ids p.calls) p
      else (ok tt, p)

  unfoldable pub conclude_item : Exec Progress (Unit {0})
  conclude_item p = (ok tt, record p { result = conclude_result p.tally p.result })

  unfoldable pub reconcile_item :
      ReconcileOptions → List (Option Filter) → Dict Text → CompiledGrant → Exec Progress (Unit {0})
  unfolding ensure_labels backfill_grant conclude_item
  reconcile_item opts filters label_ids item =
      ensure_labels opts.apply filters label_ids item.spec.from item.primary_label_key
        item.spec.add_labels
      >> (backfill_grant opts label_ids item >> conclude_item)

  -- the counters of a grant before its other labels
  unfoldable pub start_item : Dict Text → ReconcileResult → Calls → Progress
  start_item label_ids result calls = record {
    result = result;
    tally = tally_filters label_ids result.label_filters (record {
      created_labels = [];
      created_label_ids = [];
      missing_count = 0;
      created_count = 0;
      bound_primary = false;
    });
    calls = calls;
  }
