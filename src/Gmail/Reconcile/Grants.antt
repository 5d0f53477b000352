-- ===== src/Gmail/Reconcile/Grants.antt =====
-- internal/gmail/gmail.go: ReconcileGrants, and the account as the manager sees it.
use gmail_visibility_manager.Base.{ℕ, List, [], ◌∷◌, ◌++◌, false, Option, none, some, map}
use gmail_visibility_manager.Text.{Text, text}
use gmail_visibility_manager.Result.{Result, ok, err}
use gmail_visibility_manager.Dict.{Dict}
use gmail_visibility_manager.Std.{Std}
use gmail_visibility_manager.Config.{normalize_label}
use gmail_visibility_manager.GmailFilter.{compile_grant}
use gmail_visibility_manager.State.Records.{GrantRecord}
use gmail_visibility_manager.Gmail.{Gmail, ReconcileOptions, ReconcileResult}
use gmail_visibility_manager.Gmail.Api.{Api, Calls, Filter, list_filters}
use gmail_visibility_manager.Gmail.Resolve.{resolve_label_id_map}
use gmail_visibility_manager.Gmail.Grouping.{
  CompiledGrant, VisibilityGroup, build_visibility_groups,
}
use gmail_visibility_manager.Gmail.Groups.{reconcile_visibility_group}
use gmail_visibility_manager.Gmail.Reconcile.{Progress, fail_result, note_indexes, fail_indexes}
use gmail_visibility_manager.Gmail.Reconcile.Items.{reconcile_item, start_item}

-- results with an error, and the calls so far
abbrev pub Outcome : Type 0
Outcome = List ReconcileResult × Option Text × Calls

module _ ⦃std : Std⦄ where
  unfoldable pub compile : GrantRecord → CompiledGrant
  compile grant = record {
    grant = grant;
    spec = compile_grant grant.email grant.visibility_label grant.classification_labels;
    primary_label_key = normalize_label grant.visibility_label;
  }

  unfoldable pub all_labels : List CompiledGrant → List Text
  all_labels [] = []
  all_labels (item ∷ items) = item.spec.add_labels ++ all_labels items

  unfoldable pub new_result : CompiledGrant → ReconcileResult
  new_result item = record {
    email = item.grant.email;
    expected_filter = item.spec;
    gmail_filter_id = [];
    label_filters = [];
    historical_backfill = none;
    status = [];
    changed = false;
    message = [];
  }

  module _ ⦃api : Api⦄ (opts : ReconcileOptions) (filters : List (Option Filter)) where
    -- the error of a group, or what the groups behind it come to
    abbrev pub after_group : List ℕ → Option Text → List ReconcileResult → Calls → Outcome → Outcome
    after_group indexes (some message) results calls rest =
        (fail_indexes message indexes results, some message, calls)
    after_group indexes none results calls rest = rest

    unfoldable pub groups_loop :
        List VisibilityGroup → List CompiledGrant → List ReconcileResult → Calls → Outcome
    unfolding note_indexes fail_indexes
    groups_loop [] compiled results calls = (results, none, calls)
    groups_loop (group ∷ groups) compiled results calls =
        let (outcome, after) = reconcile_visibility_group filters group opts.apply calls in
        let noted = note_indexes group outcome compiled group.indexes results in
        let rest = groups_loop groups compiled noted after in
        after_group group.indexes outcome.error noted after rest

    -- a grant with its outcome, and the grants behind it, whose results stay as they are on an error
    abbrev pub after_item :
        Result (Unit {0}) × Progress → List ReconcileResult → (Calls → Outcome) → Outcome
    after_item (err message, p) results rest = (p.result ∷ results, some message, p.calls)
    after_item (ok _, p) results rest =
        let (more, failed, calls) = rest p.calls in (p.result ∷ more, failed, calls)

    unfoldable pub items_loop :
        Dict Text → List CompiledGrant → List ReconcileResult → Calls → Outcome
    unfolding reconcile_item start_item
    items_loop label_ids (item ∷ items) (result ∷ results) calls =
        after_item (reconcile_item opts filters label_ids item (start_item label_ids result calls))
          results (items_loop label_ids items results)
    items_loop label_ids _ results calls = (results, none, calls)

    -- the loop over the grants, if the one over the groups had no error
    abbrev pub after_groups : Dict Text → List CompiledGrant → Outcome → Outcome
    after_groups label_ids compiled (results, some message, calls) = (results, some message, calls)
    after_groups label_ids compiled (results, none, calls) =
        items_loop label_ids compiled results calls

  module _ ⦃api : Api⦄ (opts : ReconcileOptions) where
    -- ReconcileGrants behind the labels, and behind the list of the filters
    abbrev pub with_filters :
        List CompiledGrant → Dict Text → Result (List (Option Filter)) × Calls → Outcome
    with_filters compiled label_ids (err message, calls) =
        (map (λ item. fail_result message (new_result item)) compiled, some message, calls)
    with_filters compiled label_ids (ok filters, calls) =
        after_groups opts filters label_ids compiled (
          groups_loop opts filters (build_visibility_groups compiled label_ids) compiled
            (map new_result compiled) calls)

    abbrev pub with_label_ids : List CompiledGrant → Result (Dict Text) × Calls → Outcome
    with_label_ids compiled (err message, calls) =
        (map (λ item. fail_result message (new_result item)) compiled, some message, calls)
    with_label_ids compiled (ok label_ids, calls) =
        with_filters compiled label_ids (list_filters calls)

    unfoldable pub reconcile_grants : List GrantRecord → Calls → Outcome
    unfolding compile all_labels new_result groups_loop items_loop
    reconcile_grants [] calls = ([], none, calls)
    reconcile_grants (grant ∷ grants) calls =
        let compiled = map compile (grant ∷ grants) in
        with_label_ids compiled (resolve_label_id_map (all_labels compiled) calls)

    -- the first result, or the one that says that there is none
    abbrev pub first_result : GrantRecord → Outcome → ReconcileResult × Option Text × Calls
    first_result grant (result ∷ _, failed, calls) = (result, failed, calls)
    first_result grant ([], failed, calls) = (
      record {
        email = grant.email;
        expected_filter = record { from = []; add_labels = [] };
        gmail_filter_id = [];
        label_filters = [];
        historical_backfill = none;
        status = text "error";
        changed = false;
        message = text "reconcile returned no results";
      },
      failed,
      calls,
    )

    unfoldable pub reconcile_grant : GrantRecord → Calls → ReconcileResult × Option Text × Calls
    unfolding reconcile_grants
    reconcile_grant grant calls = first_result grant (reconcile_grants (grant ∷ []) calls)

  -- The account that the manager calls: each call of gmail.New gives a client with answers of its own.
  unfoldable pub gmail_account : (ℕ → Option Text) → (ℕ → Api) → Gmail
  gmail_account connect client = record {
    connect = connect;
    reconcile = λ n grants opts.
        let (results, failed, _) = reconcile_grants ⦃api = client n⦄ opts grants [] in
        (results, failed);
  }
