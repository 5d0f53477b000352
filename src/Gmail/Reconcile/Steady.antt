-- ===== src/Gmail/Reconcile/Steady.antt =====
-- internal/gmail/gmail.go: the loop over the grants leaves what the groups settled.
use gmail_visibility_manager.Base.{
  List, [], ◌∷◌, ◌≡◌, refl, ◌∙◌, Bool, ◌&&◌, not, is_empty, ltb, Option, none, some, map,
  Option-cases, inl, inr, if-both,
}
use gmail_visibility_manager.Text.{Text, ◌==◌}
use gmail_visibility_manager.Result.{Result, ok, err, Result-cases}
use gmail_visibility_manager.Exec.{Exec, ◌>>◌}
use gmail_visibility_manager.Dict.{Dict}
use gmail_visibility_manager.Std.{Std}
use gmail_visibility_manager.Config.{normalize_label}
use gmail_visibility_manager.GmailFilter.{Spec}
use gmail_visibility_manager.Gmail.{HistoricalBackfill, ReconcileOptions, ReconcileResult}
use gmail_visibility_manager.Gmail.Api.{Api, Calls, Filter, create_managed_label_filter}
use gmail_visibility_manager.Gmail.Matching.{find_matching_filter}
use gmail_visibility_manager.Gmail.Backfill.{backfill_labels_for_sender}
use gmail_visibility_manager.Gmail.Grouping.{CompiledGrant, text_at}
use gmail_visibility_manager.Gmail.Reconcile.{Tally, Progress, conclude_result}
use gmail_visibility_manager.Gmail.Reconcile.Items.{
  note_existing, note_missing, note_created, note_backfill, ensure_label, ensure_labels,
  backfill_grant, backfill_labels, backfill_label_ids, conclude_item, reconcile_item, start_item,
}
use gmail_visibility_manager.Gmail.Reconcile.Grants.{Outcome, items_loop, after_item}

-- whom a result is about, and the filter of its group
abbrev pub settled : ReconcileResult → Text × Spec × Text
settled r = (r.email, r.expected_filter, r.gmail_filter_id)

-- a step on the result of one grant that leaves what the groups settled
abbrev Steady : {A : Type 0} → Exec Progress A → Type 0
Steady step = (p : Progress) → settled (step p).1.result ≡ settled p.result

Steady->> :
    {A B : Type 0} (step : Exec Progress A) (rest : Exec Progress B)
    → Steady step
    → Steady rest
    → Steady (step >> rest)
Steady->> step rest h k p = elim (Result-cases (step p).0) [
  | inr (e, q) ↦ rw q (h p)
  | inl (value, q) ↦ rw q (k (step p).1 ∙ h p)
]

note_created-settled :
    (label label_id : Text) (o : Result Text × Calls) (p : Progress)
    → settled (note_created label label_id o p).1.result ≡ settled p.result
unfolding note_created
note_created-settled label label_id (err e, after) p = refl
note_created-settled label label_id (ok id, after) p = refl

note_backfill-settled :
    (o : HistoricalBackfill × Option Text × Calls) (p : Progress)
    → settled (note_backfill o p).1.result ≡ settled p.result
unfolding note_backfill
note_backfill-settled (b, some e, after) p = refl
note_backfill-settled (b, none, after) p = refl

module _ ⦃std : Std⦄ where
  conclude_result-settled :
      (t : Tally) (r : ReconcileResult) → settled (conclude_result t r) ≡ settled r
  unfolding conclude_result
  conclude_result-settled t r =
      let Same = λ (x : ReconcileResult). settled x ≡ settled r in
      if-both Same (ltb 0 t.missing_count) refl
        (if-both Same (ltb 0 t.created_count) refl (if-both Same t.bound_primary refl refl))

module _ ⦃std : Std⦄ ⦃api : Api⦄ where
  ensure_label-Steady :
      (apply : Bool) (filters : List (Option Filter)) (label_ids : Dict Text) (from label : Text)
      → Steady (ensure_label apply filters label_ids from label)
  unfolding ensure_label
  ensure_label-Steady apply filters label_ids from label p =
      let id = text_at label_ids (normalize_label label) in
      elim (Option-cases (find_matching_filter filters from (id ∷ []))) [
        | inr (filter, q) ↦ rw (q, ensure_label) (unfold note_existing in refl)
        | inl q ↦
            rw (q, ensure_label)
              (if-both (λ (o : Result (Unit {0}) × Progress). settled o.1.result ≡ settled p.result)
                apply
                (note_created-settled label id (create_managed_label_filter from id p.calls) p)
                (unfold note_missing in refl))
      ]

  ensure_labels-Steady :
      (apply : Bool) (filters : List (Option Filter)) (label_ids : Dict Text) (from key : Text)
      (labels : List Text)
      → Steady (ensure_labels apply filters label_ids from key labels)
  unfolding ensure_labels
  ensure_labels-Steady apply filters label_ids from key [] = λ p. refl
  ensure_labels-Steady apply filters label_ids from key (label ∷ labels) =
      let rest = ensure_labels-Steady apply filters label_ids from key labels in
      if-both Steady (normalize_label label == key) rest (
        Steady->> (ensure_label apply filters label_ids from label) _
          (ensure_label-Steady apply filters label_ids from label) rest)

  backfill_grant-Steady :
      (opts : ReconcileOptions) (label_ids : Dict Text) (item : CompiledGrant)
      → Steady (backfill_grant opts label_ids item)
  unfolding backfill_grant
  backfill_grant-Steady opts label_ids item p =
      let ids = backfill_label_ids opts label_ids item p.tally in
      let after =
        backfill_labels_for_sender item.spec.from (backfill_labels opts item p.tally) ids p.calls in
      if-both (λ (o : Result (Unit {0}) × Progress). settled o.1.result ≡ settled p.result)
        (opts.apply && not (is_empty ids)) {x = note_backfill after p} {y = (ok tt, p)}
        (note_backfill-settled after p) refl

  reconcile_item-Steady :
      (opts : ReconcileOptions) (filters : List (Option Filter)) (label_ids : Dict Text)
      (item : CompiledGrant)
      → Steady (reconcile_item opts filters label_ids item)
  unfolding reconcile_item conclude_item
  reconcile_item-Steady opts filters label_ids item =
      Steady->>
        (ensure_labels opts.apply filters label_ids item.spec.from item.primary_label_key
          item.spec.add_labels)
        (backfill_grant opts label_ids item >> conclude_item)
        (ensure_labels-Steady opts.apply filters label_ids item.spec.from item.primary_label_key
          item.spec.add_labels)
        (Steady->> (backfill_grant opts label_ids item) conclude_item
          (backfill_grant-Steady opts label_ids item)
          (λ p. conclude_result-settled p.tally p.result))

module _ ⦃std : Std⦄ ⦃api : Api⦄ (opts : ReconcileOptions) where
  after_item-settled :
      (filters : List (Option Filter)) (o : Result (Unit {0}) × Progress) (result : ReconcileResult)
      (results : List ReconcileResult) (rest : Calls → Outcome)
      → settled o.1.result ≡ settled result
      → ((calls : Calls) → map settled (rest calls).0 ≡ map settled results)
      → map settled (after_item opts filters o results rest).0 ≡ map settled (result ∷ results)
  after_item-settled filters (err e, p) result results rest h f = cc
  after_item-settled filters (ok _, p) result results rest h f = cc (f p.calls)

  pub items_loop-settled :
      (filters : List (Option Filter)) (label_ids : Dict Text) (items : List CompiledGrant)
      (results : List ReconcileResult) (calls : Calls)
      → map settled (items_loop opts filters label_ids items results calls).0 ≡ map settled results
  unfolding items_loop
  items_loop-settled filters label_ids (item ∷ items) (result ∷ results) calls =
      after_item-settled filters
        (reconcile_item opts filters label_ids item (start_item label_ids result calls)) result
        results (items_loop opts filters label_ids items results)
        (reconcile_item-Steady opts filters label_ids item (start_item label_ids result calls))
        (λ calls. items_loop-settled filters label_ids items results calls)
  items_loop-settled filters label_ids (item ∷ items) [] calls = refl
  items_loop-settled filters label_ids [] results calls = refl
