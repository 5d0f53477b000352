-- ===== src/Manager/Reconcile.antt =====
-- internal/manager/manager.go: ReconcileAll.
use gmail_visibility_manager.Base.{
  List, [], ◌∷◌, Bool, false, ◌&&◌, ◌||◌, not, is_empty, if◌then◌else◌, Option, none, some,
}
use gmail_visibility_manager.Text.{Text, text, ◌==◌}
use gmail_visibility_manager.Result.{ok, err}
use gmail_visibility_manager.Exec.{Exec, pure, lift, ◌>>=◌, ◌>>◌}
use gmail_visibility_manager.Std.{Std}
use gmail_visibility_manager.Os.{Os}
use gmail_visibility_manager.Config.{Config, validate_gmail}
use gmail_visibility_manager.State.Records.{GrantRecord, is_approved}
use gmail_visibility_manager.State.Calls.{Host, Db, get_request}
use gmail_visibility_manager.State.Operations.{mark_request_applied}
use gmail_visibility_manager.State.Operations.Lists.{list_grants}
use gmail_visibility_manager.Gmail.{Gmail, ReconcileOptions, ReconcileResult}
use gmail_visibility_manager.Manager.{
  World, Details, on_store, append, next_gmail, record_grant_filter_ids, find_reconcile_result,
}

unfoldable pub successful_reconcile_status : Text → Bool
successful_reconcile_status status =
    status == text "ok" || status == text "created" || status == text "bind_existing"

-- what ReconcileAll returns, its results and its error
abbrev pub Reconciled : Type 0
Reconciled = List ReconcileResult × Option Text

module _ ⦃std : Std⦄ ⦃host : Host⦄ where
  -- the loop that collects the addresses of the grants whose request is approved and not yet applied
  unfoldable pub backfill_emails : List GrantRecord → Exec Db (List Text)
  backfill_emails [] = pure []
  backfill_emails (grant ∷ grants) =
      if is_empty grant.created_from_request_id then backfill_emails grants else (do
        req ← get_request grant.created_from_request_id
        rest ← backfill_emails grants
        pure (if is_approved req.status then grant.email ∷ rest else rest))

  -- whether the loop behind the reconciliation marks the request of a grant
  unfoldable pub is_enforced : Bool → List ReconcileResult → GrantRecord → Bool
  unfolding successful_reconcile_status find_reconcile_result
  is_enforced apply results grant =
      apply
      && not (is_empty grant.created_from_request_id)
      && elim (find_reconcile_result results grant.email) [
        | none ↦ false
        | some result ↦ successful_reconcile_status result.status
      ]

  unfoldable pub mark_enforced : Bool → List ReconcileResult → List GrantRecord → Exec Db (Unit {0})
  unfolding is_enforced
  mark_enforced apply results [] = pure tt
  mark_enforced apply results (grant ∷ grants) =
      if is_enforced apply results grant
      then (do
        _applied ← mark_request_applied grant.created_from_request_id
        mark_enforced apply results grants)
      else mark_enforced apply results grants

  unfoldable pub options_of : Bool → Bool → List Text → ReconcileOptions
  options_of apply backfill_historical emails = record {
    apply = apply;
    backfill_historical = backfill_historical || not (is_empty emails);
    backfill_historical_emails =
        if not backfill_historical && not (is_empty emails) then emails else [];
  }

  -- ReconcileAll behind the call of ReconcileGrants
  unfoldable pub finish_reconcile :
      Bool → List GrantRecord → List ReconcileResult → Option Text → World → Reconciled × World
  unfolding mark_enforced record_grant_filter_ids
  finish_reconcile apply grants results problem w =
      let (recorded, w') =
        (if apply then on_store (record_grant_filter_ids results) w else (ok tt, w)) in
      elim recorded [
        | err e ↦ ((results, some e), w')
        | ok _ ↦ elim problem [
          | some e ↦ ((results, some e), w')
          | none ↦
              let (marked, w'') = on_store (mark_enforced apply results grants) w' in
              elim marked [
                | err e ↦ ((results, some e), w'')
                | ok _ ↦ (
                  (results, none),
                  append
                      (record {
                        event = text "gmail_reconcile";
                        request_id = [];
                        request_hash = [];
                        actor = text "local";
                        status = text "completed";
                        details = Details.reconciliation apply results;
                      })
                      w'',
                )
              ]
        ]
      ]

module _ ⦃std : Std⦄ ⦃os : Os⦄ ⦃host : Host⦄ ⦃gmail : Gmail⦄ where
  abbrev pub connect : Exec World (Unit {0})
  connect w = elim (gmail.connect w.gmail_calls) [
    | none ↦ (ok tt, next_gmail w)
    | some e ↦ (err e, next_gmail w)
  ]

  -- ReconcileAll in front of the call of ReconcileGrants
  unfoldable pub prepare_reconcile :
      Config → Bool → Bool → Exec World (List GrantRecord × List Text)
  unfolding backfill_emails
  prepare_reconcile cfg apply backfill_historical = do
    lift (validate_gmail cfg)
    connect
    grants ← on_store list_grants
    emails ←
        (if apply && not backfill_historical then on_store (backfill_emails grants) else pure [])
    pure (grants, emails)

  unfoldable pub reconcile_all : Config → Bool → Bool → World → Reconciled × World
  unfolding prepare_reconcile options_of finish_reconcile
  reconcile_all cfg apply backfill_historical w =
      let (prepared, w') = prepare_reconcile cfg apply backfill_historical w in
      elim prepared [
        | err e ↦ (([], some e), w')
        | ok (grants, emails) ↦
            let (results, problem) =
              gmail.reconcile w'.gmail_calls grants (options_of apply backfill_historical emails) in
            finish_reconcile apply grants results problem (next_gmail w')
      ]
