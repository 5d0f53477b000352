-- ===== src/Gmail/Reconcile/Aligned.antt =====
-- internal/gmail/gmail.go: ReconcileGrants answers for each grant, in order.
use gmail_visibility_manager.Base.{
  ℕ, zero, suc, List, [], ◌∷◌, ◌≡◌, refl, ◌∙◌, ap, sym, is_empty, Option, none, some, map, if-both,
}
use gmail_visibility_manager.Text.{Text}
use gmail_visibility_manager.Result.{Result, ok, err}
use gmail_visibility_manager.Dict.{Dict}
use gmail_visibility_manager.Std.{Std}
use gmail_visibility_manager.GmailFilter.{Spec, compile_grant}
use gmail_visibility_manager.State.Records.{GrantRecord}
use gmail_visibility_manager.Gmail.{ReconcileOptions, LabelFilter, ReconcileResult}
use gmail_visibility_manager.Gmail.Api.{Api, Calls, Filter, list_filters}
use gmail_visibility_manager.Gmail.Resolve.{resolve_label_id_map}
use gmail_visibility_manager.Gmail.Grouping.{
  CompiledGrant, VisibilityGroup, build_visibility_groups,
}
use gmail_visibility_manager.Gmail.Groups.{GroupReconcile, reconcile_visibility_group}
use gmail_visibility_manager.Gmail.Reconcile.{
  get_elem?, update_at, fail_result, fail_fresh, add_filter, sender_result, note_primary,
  note_index, note_indexes, fail_indexes,
}
use gmail_visibility_manager.Gmail.Reconcile.Steady.{settled, items_loop-settled}
use gmail_visibility_manager.Gmail.Reconcile.Grants.{
  Outcome, compile, all_labels, new_result, groups_loop, after_group, items_loop, after_groups,
  with_filters, with_label_ids, reconcile_grants,
}

-- whom a result is about
abbrev pub subject : ReconcileResult → Text × Spec
subject r = (r.email, r.expected_filter)

settled-subjects :
    (xs ys : List ReconcileResult)
    → map settled xs ≡ map settled ys
    → map subject xs ≡ map subject ys
settled-subjects xs ys h =
    forget xs ∙ ap (map (λ (s : Text × Spec × Text). (s.0, s.1))) h ∙ sym (forget ys)
  where
    forget :
        (xs : List ReconcileResult)
        → map subject xs ≡ map (λ (s : Text × Spec × Text). (s.0, s.1)) (map settled xs)
    forget [] = refl
    forget (x ∷ xs) = cc (forget xs)

-- a change of a result that leaves its subject
abbrev KeepsSubject : (ReconcileResult → ReconcileResult) → Type 0
KeepsSubject change = (r : ReconcileResult) → subject (change r) ≡ subject r

update_at-subjects :
    (i : ℕ) (change : ReconcileResult → ReconcileResult) (results : List ReconcileResult)
    → KeepsSubject change
    → map subject (update_at i change results) ≡ map subject results
update_at-subjects i change [] k = refl
update_at-subjects zero change (r ∷ rs) k = cc (k r)
update_at-subjects (suc i) change (r ∷ rs) k = cc (update_at-subjects i change rs k)

fail_fresh-KeepsSubject : (message : Text) → KeepsSubject (fail_fresh message)
unfolding fail_fresh fail_result
fail_fresh-KeepsSubject message r =
    if-both (λ x. subject x ≡ subject r) (is_empty r.status) refl refl

note_primary-KeepsSubject : (id : Text) (f : LabelFilter) → KeepsSubject (note_primary id f)
unfolding note_primary add_filter
note_primary-KeepsSubject id f r = refl

note_index-subjects :
    (group : VisibilityGroup) (outcome : GroupReconcile) (found : Option CompiledGrant) (i : ℕ)
    (results : List ReconcileResult)
    → map subject (note_index group outcome found i results) ≡ map subject results
unfolding note_index
note_index-subjects group outcome none i results = refl
note_index-subjects group outcome (some item) i results = update_at-subjects i _ results (
    note_primary-KeepsSubject item.grant.gmail_filter_id
      (sender_result group outcome item.spec.from))

note_indexes-subjects :
    (group : VisibilityGroup) (outcome : GroupReconcile) (compiled : List CompiledGrant)
    (indexes : List ℕ) (results : List ReconcileResult)
    → map subject (note_indexes group outcome compiled indexes results) ≡ map subject results
unfolding note_indexes
note_indexes-subjects group outcome compiled [] results = refl
note_indexes-subjects group outcome compiled (i ∷ indexes) results =
    note_indexes-subjects group outcome compiled indexes _
    ∙ note_index-subjects group outcome (get_elem? compiled i) i results

fail_indexes-subjects :
    (message : Text) (indexes : List ℕ) (results : List ReconcileResult)
    → map subject (fail_indexes message indexes results) ≡ map subject results
unfolding fail_indexes
fail_indexes-subjects message [] results = refl
fail_indexes-subjects message (i ∷ indexes) results =
    fail_indexes-subjects message indexes _
    ∙ update_at-subjects i _ results (fail_fresh-KeepsSubject message)

module _ ⦃std : Std⦄ ⦃api : Api⦄ (opts : ReconcileOptions) where
  abbrev subjects : Outcome → List (Text × Spec)
  subjects o = map subject o.0

  after_group-subjects :
      (filters : List (Option Filter)) (indexes : List ℕ) (error : Option Text)
      (results : List ReconcileResult) (calls : Calls) (rest : Outcome)
      → subjects rest ≡ map subject results
      → subjects (after_group opts filters indexes error results calls rest) ≡ map subject results
  after_group-subjects filters indexes none results calls rest h = h
  after_group-subjects filters indexes (some message) results calls rest h =
      fail_indexes-subjects message indexes results

  pub groups_loop-subjects :
      (filters : List (Option Filter)) (groups : List VisibilityGroup)
      (compiled : List CompiledGrant) (results : List ReconcileResult) (calls : Calls)
      → subjects (groups_loop opts filters groups compiled results calls) ≡ map subject results
  unfolding groups_loop
  groups_loop-subjects filters [] compiled results calls = refl
  groups_loop-subjects filters (group ∷ groups) compiled results calls =
      let o = reconcile_visibility_group filters group opts.apply calls in
      let noted = note_indexes group o.0 compiled group.indexes results in
      after_group-subjects filters group.indexes o.0.error noted o.1 _
        (groups_loop-subjects filters groups compiled noted o.1)
      ∙ note_indexes-subjects group o.0 compiled group.indexes results

  -- what the grants ask for
  abbrev pub asked : List GrantRecord → List (Text × Spec)
  asked = map (λ g. (g.email, compile_grant g.email g.visibility_label g.classification_labels))

  new_results-asked :
      (grants : List GrantRecord) → map subject (map new_result (map compile grants)) ≡ asked grants
  unfolding new_result compile
  new_results-asked [] = refl
  new_results-asked (g ∷ gs) = cc (new_results-asked gs)

  failed_results-asked :
      (message : Text) (grants : List GrantRecord)
      → map subject (map (λ item. fail_result message (new_result item)) (map compile grants))
        ≡ asked grants
  unfolding new_result compile fail_result
  failed_results-asked message [] = refl
  failed_results-asked message (g ∷ gs) = cc (failed_results-asked message gs)

  after_groups-subjects :
      (filters : List (Option Filter)) (label_ids : Dict Text) (compiled : List CompiledGrant)
      (o : Outcome)
      → subjects (after_groups opts filters label_ids compiled o) ≡ subjects o
  after_groups-subjects filters label_ids compiled (results, some e, calls) = refl
  after_groups-subjects filters label_ids compiled (results, none, calls) =
      settled-subjects (items_loop opts filters label_ids compiled results calls).0 results
        (items_loop-settled opts filters label_ids compiled results calls)

  with_filters-asked :
      (grants : List GrantRecord) (label_ids : Dict Text)
      (o : Result (List (Option Filter)) × Calls)
      → subjects (with_filters opts (map compile grants) label_ids o) ≡ asked grants
  with_filters-asked grants label_ids (err message, calls) = failed_results-asked message grants
  with_filters-asked grants label_ids (ok filters, calls) =
      let compiled = map compile grants in
      after_groups-subjects filters label_ids compiled _
      ∙ groups_loop-subjects filters (build_visibility_groups compiled label_ids) compiled
          (map new_result compiled) calls
      ∙ new_results-asked grants

  with_label_ids-asked :
      (grants : List GrantRecord) (o : Result (Dict Text) × Calls)
      → subjects (with_label_ids opts (map compile grants) o) ≡ asked grants
  with_label_ids-asked grants (err message, calls) = failed_results-asked message grants
  with_label_ids-asked grants (ok label_ids, calls) =
      with_filters-asked grants label_ids (list_filters calls)

  -- ReconcileGrants has one result for each grant, in order, whether or not it returns an error, and
  -- wherever it stopped: the i-th one names the i-th grant's address and its compiled filter.
  pub reconcile_grants-subjects :
      (grants : List GrantRecord) (calls : Calls)
      → map subject (reconcile_grants opts grants calls).0 ≡ asked grants
  unfolding reconcile_grants
  reconcile_grants-subjects [] calls = refl
  reconcile_grants-subjects (g ∷ gs) calls =
      with_label_ids-asked (g ∷ gs) (resolve_label_id_map (all_labels (map compile (g ∷ gs))) calls)
