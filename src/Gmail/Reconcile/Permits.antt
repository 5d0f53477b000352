-- ===== src/Gmail/Reconcile/Permits.antt =====
-- internal/gmail/gmail.go: the calls of each part of ReconcileGrants.
use mathlib.Core.Path.{subst}
use gmail_visibility_manager.Base.{
  ℕ, List, [], ◌∷◌, ◌++◌, append_assoc, sym, ◌∙◌, ◌&&◌, not, is_empty, Option, none, some,
  All-append, All-imp, Bool-cases, Option-cases, inl, inr, if-both,
}
use gmail_visibility_manager.Text.{Text, ◌==◌}
use gmail_visibility_manager.Result.{Result, ok, err}
use gmail_visibility_manager.Exec.{◌>>◌}
use gmail_visibility_manager.Dict.{Dict}
use gmail_visibility_manager.Std.{Std}
use gmail_visibility_manager.Config.{normalize_label}
use gmail_visibility_manager.Gmail.{ReconcileOptions, ReconcileResult}
use gmail_visibility_manager.Gmail.Api.{Api, Call, Calls, Filter, create_managed_label_filter}
use gmail_visibility_manager.Gmail.Api.Log.{
  Extends, Extends-refl, Extends-trans, Extends-imp, create_checked-Makes,
}
use gmail_visibility_manager.Gmail.Matching.{find_matching_filter, compact_strings}
use gmail_visibility_manager.Gmail.Backfill.{backfill_labels_for_sender}
use gmail_visibility_manager.Gmail.Backfill.Modified.{backfill-CallsOnly}
use gmail_visibility_manager.Gmail.Grouping.{CompiledGrant, VisibilityGroup, text_at}
use gmail_visibility_manager.Gmail.Groups.{reconcile_visibility_group}
use gmail_visibility_manager.Gmail.Groups.Safety.{reconcile_visibility_group-GroupCalls}
use gmail_visibility_manager.Gmail.Reconcile.{Progress, note_indexes}
use gmail_visibility_manager.Gmail.Reconcile.Items.{
  note_backfill, ensure_label, ensure_labels, backfill_grant, backfill_labels, backfill_label_ids,
  conclude_item, reconcile_item, start_item,
}
use gmail_visibility_manager.Gmail.Reconcile.Grants.{
  Outcome, groups_loop, after_group, items_loop, after_item, after_groups,
}
use gmail_visibility_manager.Gmail.Reconcile.Calling.{
  Permits, Calling, Calling->>, note_created-Extends, note_backfill-Extends, group_create,
}

module _ ⦃std : Std⦄ ⦃api : Api⦄ (P : Call → Type 0) (opts : ReconcileOptions)
    (filters : List (Option Filter)) (permits : Permits P opts.apply filters) where
  ensure_label-Calling :
      (label_ids : Dict Text) (from label : Text)
      → Calling P (ensure_label opts.apply filters label_ids from label)
  unfolding ensure_label
  ensure_label-Calling label_ids from label p =
      let id = text_at label_ids (normalize_label label) in
      elim (Option-cases (find_matching_filter filters from (id ∷ []))) [
        | inr (filter, q) ↦ rw (q, ensure_label) (Extends-refl p.calls)
        | inl q ↦ elim (Bool-cases opts.apply) [
          | inr off ↦ rw (q, ensure_label) (rw off (Extends-refl p.calls))
          | inl on ↦
              rw (q, ensure_label)
                (rw on (
                  note_created-Extends label id (create_managed_label_filter from id p.calls) p (
                    unfold create_managed_label_filter in
                    create_checked-Makes P _ _ (permits.creates on from id) p.calls)))
        ]
      ]

  ensure_labels-Calling :
      (label_ids : Dict Text) (from key : Text) (labels : List Text)
      → Calling P (ensure_labels opts.apply filters label_ids from key labels)
  unfolding ensure_labels
  ensure_labels-Calling label_ids from key [] = λ p. Extends-refl p.calls
  ensure_labels-Calling label_ids from key (label ∷ labels) =
      let rest = ensure_labels-Calling label_ids from key labels in
      if-both (Calling P) (normalize_label label == key) rest (
        Calling->> (ensure_label opts.apply filters label_ids from label) _
          (ensure_label-Calling label_ids from label) rest)

  backfill_grant-Calling :
      (label_ids : Dict Text) (item : CompiledGrant)
      → Calling P (backfill_grant opts label_ids item)
  unfolding backfill_grant
  backfill_grant-Calling label_ids item p =
      let labels = backfill_labels opts item p.tally in
      let ids = backfill_label_ids opts label_ids item p.tally in
      elim (Bool-cases opts.apply) [
        | inr off ↦ rw off (Extends-refl p.calls)
        | inl on ↦
            if-both (λ (o : Result (Unit {0}) × Progress). Extends P p.calls o.1.calls)
              (opts.apply && not (is_empty ids))
              {x = note_backfill (backfill_labels_for_sender item.spec.from labels ids p.calls) p}
              {y = (ok tt, p)}
              (note_backfill-Extends _ p (
                Extends-imp _ P (permits.backfills on (compact_strings ids)) p.calls _
                  (backfill-CallsOnly item.spec.from labels ids p.calls)))
              (Extends-refl p.calls)
      ]

  reconcile_item-Calling :
      (label_ids : Dict Text) (item : CompiledGrant)
      → Calling P (reconcile_item opts filters label_ids item)
  unfolding reconcile_item conclude_item
  reconcile_item-Calling label_ids item =
      Calling->>
        (ensure_labels opts.apply filters label_ids item.spec.from item.primary_label_key
          item.spec.add_labels)
        (backfill_grant opts label_ids item >> conclude_item)
        (ensure_labels-Calling label_ids item.spec.from item.primary_label_key item.spec.add_labels)
        (Calling->> (backfill_grant opts label_ids item) conclude_item
          (backfill_grant-Calling label_ids item) (λ p. Extends-refl p.calls))

  group-Extends :
      (group : VisibilityGroup) (calls : Calls)
      → Extends P calls (reconcile_visibility_group filters group opts.apply calls).1
  group-Extends group calls =
      let g = reconcile_visibility_group-GroupCalls filters group opts.apply calls in
      elim (Bool-cases opts.apply) [
        | inr off ↦ subst (Extends P calls) (sym (g.idle off)) (Extends-refl calls)
        | inl on ↦ record {
          new = g.deleted ++ g.created;
          split = g.split ∙ sym (append_assoc g.deleted g.created calls);
          each =
              All-append P g.deleted g.created
                (All-imp _ P (permits.deletes on group.label_id) g.deleted g.deletes)
                (All-imp _ P (group_create P _ group.label_id (permits.creates on)) g.created
                  g.creates);
        }
      ]

  pub groups_loop-Extends :
      (groups : List VisibilityGroup) (compiled : List CompiledGrant)
      (results : List ReconcileResult) (calls : Calls)
      → Extends P calls (groups_loop opts filters groups compiled results calls).2
  unfolding groups_loop
  groups_loop-Extends [] compiled results calls = Extends-refl calls
  groups_loop-Extends (group ∷ groups) compiled results calls =
      let o = reconcile_visibility_group filters group opts.apply calls in
      after group.indexes o.0.error _ o.1 _ (group-Extends group calls) (
        groups_loop-Extends groups compiled (note_indexes group o.0 compiled group.indexes results)
          o.1)
    where
      after :
          (indexes : List ℕ) (error : Option Text) (results : List ReconcileResult) (middle : Calls)
          (rest : Outcome)
          → Extends P calls middle
          → Extends P middle rest.2
          → Extends P calls (after_group opts filters indexes error results middle rest).2
      after indexes none results middle rest x y = Extends-trans calls middle rest.2 x y
      after indexes (some e) results middle rest x y = x

  after_item-Extends :
      (o : Result (Unit {0}) × Progress) (results : List ReconcileResult) (rest : Calls → Outcome)
      (calls : Calls)
      → Extends P calls o.1.calls
      → ((middle : Calls) → Extends P middle (rest middle).2)
      → Extends P calls (after_item opts filters o results rest).2
  after_item-Extends (err e, p) results rest calls x f = x
  after_item-Extends (ok _, p) results rest calls x f = Extends-trans calls p.calls _ x (f p.calls)

  items_loop-Extends :
      (label_ids : Dict Text) (items : List CompiledGrant) (results : List ReconcileResult)
      (calls : Calls)
      → Extends P calls (items_loop opts filters label_ids items results calls).2
  unfolding items_loop start_item
  items_loop-Extends label_ids (item ∷ items) (result ∷ results) calls =
      after_item-Extends _ results (items_loop opts filters label_ids items results) calls
        (reconcile_item-Calling label_ids item (start_item label_ids result calls))
        (λ middle. items_loop-Extends label_ids items results middle)
  items_loop-Extends label_ids (item ∷ items) [] calls = Extends-refl calls
  items_loop-Extends label_ids [] results calls = Extends-refl calls

  pub changes-Extends :
      (label_ids : Dict Text) (compiled : List CompiledGrant) (o : Outcome) (calls : Calls)
      → Extends P calls o.2
      → Extends P calls (after_groups opts filters label_ids compiled o).2
  changes-Extends label_ids compiled (results, some e, middle) calls x = x
  changes-Extends label_ids compiled (results, none, middle) calls x =
      Extends-trans calls middle _ x (items_loop-Extends label_ids compiled results middle)
