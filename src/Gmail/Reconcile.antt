-- ===== src/Gmail/Reconcile.antt =====
-- internal/gmail/gmail.go: the results of ReconcileGrants and how they are built.
pub mod Items
pub mod Grants
pub mod Members
pub mod Steady
pub mod Filled
pub mod Complete
pub mod Aligned
pub mod Calling
pub mod Permits
pub mod Mutations
use gmail_visibility_manager.Base.{
  ℕ, zero, suc, pos, ◌+◌, List, [], ◌∷◌, ◌++◌, Bool, true, false, ◌&&◌, ◌||◌, not, ltb, is_empty,
  Option, none, some, map, if◌then◌else◌,
}
use gmail_visibility_manager.Text.{Text, text, ◌==◌, trim_space}
use gmail_visibility_manager.Result.{Result, ok, err}
use gmail_visibility_manager.Exec.{Exec, pure, continue, ◌>>=◌, ◌>>◌}
use gmail_visibility_manager.Dict.{Dict, lookup}
use gmail_visibility_manager.Std.{Std}
use gmail_visibility_manager.Request.{normalize_email}
use gmail_visibility_manager.Config.{normalize_label}
use gmail_visibility_manager.GmailFilter.{Spec, compile_grant}
use gmail_visibility_manager.State.Records.{GrantRecord}
use gmail_visibility_manager.Gmail.{
  Gmail, ReconcileOptions, LabelFilter, HistoricalBackfill, ReconcileResult,
}
use gmail_visibility_manager.Gmail.Senders.{is_member}
use gmail_visibility_manager.Gmail.Api.{
  Api, Calls, Filter, list_filters, create_managed_label_filter,
}
use gmail_visibility_manager.Gmail.Matching.{find_matching_filter}
use gmail_visibility_manager.Gmail.Resolve.{resolve_label_id_map, label_ids_for_spec}
use gmail_visibility_manager.Gmail.Backfill.{backfill_labels_for_sender}
use gmail_visibility_manager.Gmail.Grouping.{
  CompiledGrant, VisibilityGroup, text_at, build_visibility_groups,
}
use gmail_visibility_manager.Gmail.Groups.{GroupReconcile, reconcile_visibility_group}

-- a read and a change at an index, which the code keeps in range
abbrev pub get_elem? : {A : Type 0} → List A → ℕ → Option A
get_elem? [] i = none
get_elem? (x ∷ xs) zero = some x
get_elem? (x ∷ xs) (suc i) = get_elem? xs i

abbrev pub update_at : {A : Type 0} → ℕ → (A → A) → List A → List A
update_at i change [] = []
update_at zero change (x ∷ xs) = change x ∷ xs
update_at (suc i) change (x ∷ xs) = x ∷ update_at i change xs

-- the counters of the loop over the grants
pub record Tally : Type 0 where
  pub created_labels : List Text
  pub created_label_ids : List Text
  pub missing_count : ℕ
  pub created_count : ℕ
  pub bound_primary : Bool

-- the result of one grant under construction
pub record Progress : Type 0 where
  pub result : ReconcileResult
  pub tally : Tally
  pub calls : Calls

-- a result with an error
unfoldable pub fail_result : Text → ReconcileResult → ReconcileResult
fail_result message result = record result { status = text "error"; message = message }

-- `if results[index].Status == ""`
unfoldable pub fail_fresh : Text → ReconcileResult → ReconcileResult
unfolding fail_result
fail_fresh message result = if is_empty result.status then fail_result message result else result

unfoldable pub add_filter : LabelFilter → ReconcileResult → ReconcileResult
add_filter f result = record result { label_filters = result.label_filters ++ f ∷ [] }

unfoldable pub no_sender_result : Text → LabelFilter
no_sender_result label = record {
  label = label;
  gmail_filter_id = [];
  status = text "error";
  primary = true;
  message = text "visibility group reconcile returned no sender result";
}

-- the filter of a sender in the outcome of its group
unfoldable pub sender_result : VisibilityGroup → GroupReconcile → Text → LabelFilter
unfolding no_sender_result
sender_result group outcome from = elim (lookup outcome.label_filters from) [
  | none ↦ no_sender_result group.label
  | some f ↦ if is_empty f.label then no_sender_result group.label else f
]

-- a filter that the grant does not record yet, where it was found
unfoldable pub bind_filter : LabelFilter → LabelFilter
bind_filter f =
    if f.status == text "ok"
    then record f {
      status = text "bind_existing";
      message =
          text
            "matching grouped Gmail visibility filter already exists and can be recorded as managed";
    }
    else f

-- the body of the loop over the indexes of a group
unfoldable pub note_primary : Text → LabelFilter → ReconcileResult → ReconcileResult
unfolding bind_filter add_filter
note_primary recorded_id f result =
    let found = not (is_empty f.gmail_filter_id) in
    let rebound = found && not (trim_space recorded_id == f.gmail_filter_id) in
    add_filter (if rebound then bind_filter f else f) (record result {
      gmail_filter_id = if found then f.gmail_filter_id else result.gmail_filter_id;
      changed = rebound || f.status == text "created" || result.changed;
    })

unfoldable pub note_index :
    VisibilityGroup
    → GroupReconcile
    → Option CompiledGrant
    → ℕ
    → List ReconcileResult
    → List ReconcileResult
unfolding sender_result note_primary
note_index group outcome none i results = results
note_index group outcome (some item) i results =
    update_at i
      (note_primary item.grant.gmail_filter_id (sender_result group outcome item.spec.from)) results

unfoldable pub note_indexes :
    VisibilityGroup
    → GroupReconcile
    → List CompiledGrant
    → List ℕ
    → List ReconcileResult
    → List ReconcileResult
unfolding note_index
note_indexes group outcome compiled [] results = results
note_indexes group outcome compiled (i ∷ indexes) results =
    note_indexes group outcome compiled indexes
      (note_index group outcome (get_elem? compiled i) i results)

unfoldable pub fail_indexes : Text → List ℕ → List ReconcileResult → List ReconcileResult
unfolding fail_fresh
fail_indexes message [] results = results
fail_indexes message (i ∷ indexes) results =
    fail_indexes message indexes (update_at i (fail_fresh message) results)

module _ ⦃std : Std⦄ where
  unfoldable pub should_backfill_historical : ReconcileOptions → Text → Bool
  should_backfill_historical opts email =
      opts.backfill_historical
      && (is_empty opts.backfill_historical_emails || elim (normalize_email email) [
        | err _ ↦ false
        | ok normalized ↦ is_member normalized opts.backfill_historical_emails
      ])

  -- the switch on the status of a filter of the visibility group
  unfoldable pub tally_filter : Dict Text → LabelFilter → Tally → Tally
  unfolding text_at
  tally_filter label_ids f t =
      if f.status == text "missing"
      then record t { missing_count = t.missing_count + 1 }
      else if f.status == text "created"
      then record t {
        created_count = t.created_count + 1;
        created_labels = if f.primary then t.created_labels ++ f.label ∷ [] else t.created_labels;
        created_label_ids =
            if f.primary
            then t.created_label_ids ++ text_at label_ids (normalize_label f.label) ∷ []
            else t.created_label_ids;
      }
      else if f.status == text "bind_existing"
      then record t { bound_primary = f.primary || t.bound_primary }
      else t

  unfoldable pub tally_filters : Dict Text → List LabelFilter → Tally → Tally
  unfolding tally_filter
  tally_filters label_ids [] t = t
  tally_filters label_ids (f ∷ fs) t = tally_filters label_ids fs (tally_filter label_ids f t)

  -- the last switch of the loop over the grants
  unfoldable pub conclude_result : Tally → ReconcileResult → ReconcileResult
  conclude_result t result =
      if ltb 0 t.missing_count
      then record result {
        status = text "missing";
        message =
            std.decimal (pos t.missing_count) ++ text " managed Gmail label filter(s) are missing";
      }
      else if ltb 0 t.created_count
      then record result {
        status = text "created";
        message =
            text "created "
            ++ (std.decimal (pos t.created_count) ++ text " managed Gmail label filter(s)");
      }
      else if t.bound_primary
      then record result {
        status = text "bind_existing";
        message =
            text
              "matching grouped Gmail visibility filter already exists and can be recorded as managed";
      }
      else record result {
        status = text "ok";
        message = text "all managed Gmail label filters exist";
      }
