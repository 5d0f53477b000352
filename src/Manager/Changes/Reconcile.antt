-- ===== src/Manager/Changes/Reconcile.antt =====
-- internal/manager/manager.go: what ReconcileAll does to the store.
use gmail_visibility_manager.Base.{
  List, [], Bool, ◌&&◌, not, Bool-cases, Option-cases, Option, inl, inr, if◌then◌else◌,
}
use gmail_visibility_manager.Text.{Text}
use gmail_visibility_manager.Result.{ok, Result-cases}
use gmail_visibility_manager.Exec.{Exec, lift, pure, ◌>>=◌}
use gmail_visibility_manager.Std.{Std}
use gmail_visibility_manager.Os.{Os}
use gmail_visibility_manager.Config.{Config, validate_gmail}
use gmail_visibility_manager.State.Records.{GrantRecord}
use gmail_visibility_manager.State.Calls.{Host}
use gmail_visibility_manager.State.Operations.Lists.{list_grants}
use gmail_visibility_manager.State.Changes.{Changes, done, same_tables, Changes-trans}
use gmail_visibility_manager.Gmail.{Gmail, ReconcileResult}
use gmail_visibility_manager.Manager.{World, record_grant_filter_ids, next_gmail, on_store}
use gmail_visibility_manager.Manager.Reconcile.{
  mark_enforced, backfill_emails, prepare_reconcile, finish_reconcile, reconcile_all, options_of,
  connect,
}
use gmail_visibility_manager.Manager.Changes.{
  tables-list_grants, record_grant_filter_ids-Changes, mark_enforced-Changes,
  backfill_emails-Changes,
}

module _ ⦃std : Std⦄ ⦃host : Host⦄ where
  -- a step of the manager, and then another
  bind-Changes :
      {A B : Type 0} (m : Exec World A) (f : A → Exec World B) (w : World)
      → Changes w.db (m w).1.db
      → ((a : A) (w' : World) → Changes w'.db (f a w').1.db)
      → Changes w.db ((m >>= f) w).1.db
  bind-Changes m f w c k = elim (Result-cases (m w).0) [
    | inr (e, p) ↦ rw p c
    | inl (a, p) ↦ rw p (Changes-trans c (k a (m w).1))
  ]

  finish_reconcile-Changes :
      (apply : Bool) (grants : List GrantRecord) (results : List ReconcileResult)
      (problem : Option Text) (w : World)
      → Changes w.db (finish_reconcile apply grants results problem w).1.db
  unfolding finish_reconcile
  finish_reconcile-Changes apply grants results problem w =
      let recorded : Changes w.db
          (if apply then on_store (record_grant_filter_ids results) w else (ok tt, w)).1.db =
        elim (Bool-cases apply) [
          | inl on ↦ rw on (record_grant_filter_ids-Changes results w.db)
          | inr off ↦ rw off done
        ] in
      let (r, w') = (if apply then on_store (record_grant_filter_ids results) w else (ok tt, w)) in
      elim (Result-cases
        (if apply then on_store (record_grant_filter_ids results) w else (ok tt, w)).0) [
          | inr (e, p) ↦ rw (p, finish_reconcile) recorded
          | inl (u, p) ↦ elim (Option-cases problem) [
            | inr (e, q) ↦ rw (p, q, finish_reconcile) recorded
            | inl q ↦
                let marked = mark_enforced-Changes apply results grants w'.db in
                elim (Result-cases (mark_enforced apply results grants w'.db).0) [
                  | inr (e, m) ↦ rw (p, q, m, finish_reconcile) (Changes-trans recorded marked)
                  | inl (v, m) ↦ rw (p, q, m, finish_reconcile) (Changes-trans recorded marked)
                ]
          ]
        ]

module _ ⦃std : Std⦄ ⦃os : Os⦄ ⦃host : Host⦄ ⦃gmail : Gmail⦄ where
  prepare_reconcile-Changes :
      (cfg : Config) (apply backfill : Bool) (w : World)
      → Changes w.db (prepare_reconcile cfg apply backfill w).1.db
  unfolding prepare_reconcile
  prepare_reconcile-Changes cfg apply backfill w =
      bind-Changes (lift (validate_gmail cfg)) _ w done (λ _ w.
        bind-Changes connect _ w (connected w) (λ _ w.
          bind-Changes (on_store list_grants) _ w (same_tables (tables-list_grants w.db))
            (λ grants w.
              bind-Changes
                (if apply && not backfill then on_store (backfill_emails grants) else pure []) _ w
                (emails grants w) (λ es w. done))))
    where
      connected : (w : World) → Changes w.db (connect w).1.db
      connected w = elim (Option-cases (gmail.connect w.gmail_calls)) [
        | inr (e, q) ↦ rw (q, connect) done
        | inl q ↦ rw (q, connect) done
      ]

      emails :
          (grants : List GrantRecord) (w : World)
          → Changes w.db
              ((if apply && not backfill then on_store (backfill_emails grants) else pure [])
                w).1.db
      emails grants w = elim (Bool-cases (apply && not backfill)) [
        | inl on ↦ rw on (backfill_emails-Changes grants w.db)
        | inr off ↦ rw off done
      ]

  pub reconcile_all-Changes :
      (cfg : Config) (apply backfill : Bool) (w : World)
      → Changes w.db (reconcile_all cfg apply backfill w).1.db
  unfolding reconcile_all
  reconcile_all-Changes cfg apply backfill w =
      let c = prepare_reconcile-Changes cfg apply backfill w in
      let w' = (prepare_reconcile cfg apply backfill w).1 in
      elim (Result-cases (prepare_reconcile cfg apply backfill w).0) [
        | inr (e, p) ↦ rw (p, reconcile_all) c
        | inl (found, p) ↦
            let opts = options_of apply backfill found.1 in
            let answer = gmail.reconcile w'.gmail_calls found.0 opts in
            rw (p, reconcile_all)
              (Changes-trans c
                (finish_reconcile-Changes apply found.0 answer.0 answer.1 (next_gmail w')))
      ]
