-- ===== src/Gmail/Reconcile/Mutations.antt =====
-- internal/gmail/gmail.go: what ReconcileGrants asks Gmail to change.
use mathlib.Core.Path.{subst}
use gmail_visibility_manager.Base.{
  ◌≤◌, length, List, [], ◌∷◌, ◌≡◌, refl, sym, false, is_empty, Option, map, Any, inl, inr, arith,
}
use gmail_visibility_manager.Text.{Text, trim_space}
use gmail_visibility_manager.Result.{Result, ok, err, Result-cases}
use gmail_visibility_manager.Dict.{Dict}
use gmail_visibility_manager.Std.{Std}
use gmail_visibility_manager.State.Records.{GrantRecord}
use gmail_visibility_manager.Gmail.{ReconcileOptions}
use gmail_visibility_manager.Gmail.Api.{
  Api, Call, Calls, Filter, list_label_names, list_all_filters, create_filter, remove_filter,
  list_messages, batch_modify, sender_filter, list_filters, label_name_to_id,
}
use gmail_visibility_manager.Gmail.Api.Log.{Extends, Extends-refl, Extends-one, Extends-trans}
use gmail_visibility_manager.Gmail.Matching.{ExactSenderFilter, exact_sender_visibility_filters}
use gmail_visibility_manager.Gmail.Resolve.{resolve_label_id_map}
use gmail_visibility_manager.Gmail.Backfill.{batch_modify_limit}
use gmail_visibility_manager.Gmail.Backfill.Batches.{IsBackfillCall}
use gmail_visibility_manager.Gmail.Grouping.{CompiledGrant, build_visibility_groups}
use gmail_visibility_manager.Gmail.Groups.Made.{IsGroupDelete}
use gmail_visibility_manager.Gmail.Reconcile.Grants.{
  compile, all_labels, new_result, with_filters, with_label_ids, reconcile_grants,
}
use gmail_visibility_manager.Gmail.Reconcile.Calling.{Permits}
use gmail_visibility_manager.Gmail.Reconcile.Permits.{groups_loop-Extends, changes-Extends}

-- the filters of the account as ListFilters is answered behind the call for the labels
abbrev pub known_filters : ⦃api : Api⦄ → Calls → List (Option Filter)
known_filters ⦃api⦄ calls = elim (api.filters (list_label_names ∷ calls)) [
  | err _ ↦ []
  | ok filters ↦ filters
]

-- a call that changes nothing
abbrev pub IsListing : Call → Type 0
IsListing list_label_names = Unit
IsListing list_all_filters = Unit
IsListing _ = ⊥

-- A call that stays within what the manager owns: a new filter with one criterion and one label, the
-- removal of a known filter that names exact senders and adds one label, or a batch of at most 1000
-- messages that get labels.
abbrev pub IsManaged : ⦃std : Std⦄ → List (Option Filter) → Call → Type 0
IsManaged filters (create_filter filter) = (from id : Text) × (filter ≡ sender_filter from id)
IsManaged filters (remove_filter id) =
    (label_id : Text) × Any (λ (filter : ExactSenderFilter). trim_space filter.id ≡ id)
      (exact_sender_visibility_filters filters label_id)
IsManaged filters (batch_modify ids added) =
    (is_empty ids ≡ false) × (length ids ≤ batch_modify_limit)
IsManaged filters _ = Unit

known-list_filters :
    ⦃api : Api⦄ (after calls : Calls) (filters : List (Option Filter))
    → after ≡ list_label_names ∷ calls
    → (list_filters after).0 ≡ ok filters
    → known_filters calls ≡ filters
unfolding list_filters
known-list_filters ⦃api⦄ after calls filters h e =
    elim (Result-cases (api.filters (list_label_names ∷ calls))) [
      | inr (m, p) ↦ ground (arith, h, e, p)
      | inl (fs, p) ↦ ground (arith, h, e, p)
    ]

IsManaged-delete :
    ⦃std : Std⦄ (filters : List (Option Filter)) (label_id : Text) (call : Call)
    → IsGroupDelete (exact_sender_visibility_filters filters label_id) call
    → IsManaged filters call
IsManaged-delete filters label_id (remove_filter id) h = (label_id, h)
IsManaged-delete filters label_id list_label_names h = absurd h
IsManaged-delete filters label_id list_all_filters h = absurd h
IsManaged-delete filters label_id (create_filter f) h = absurd h
IsManaged-delete filters label_id (list_messages q t) h = absurd h
IsManaged-delete filters label_id (batch_modify ids added) h = absurd h

IsManaged-batch :
    ⦃std : Std⦄ (filters : List (Option Filter)) (label_ids : List Text) (call : Call)
    → IsBackfillCall label_ids call
    → IsManaged filters call
IsManaged-batch filters label_ids (batch_modify ids added) (_, some_ids, few) = (some_ids, few)
IsManaged-batch filters label_ids (list_messages q t) h = tt
IsManaged-batch filters label_ids list_label_names h = absurd h
IsManaged-batch filters label_ids list_all_filters h = absurd h
IsManaged-batch filters label_ids (create_filter f) h = absurd h
IsManaged-batch filters label_ids (remove_filter id) h = absurd h

module _ ⦃std : Std⦄ ⦃api : Api⦄ (P : Call → Type 0) (opts : ReconcileOptions) where
  with_filters-Extends :
      (compiled : List CompiledGrant) (label_ids : Dict Text)
      (o : Result (List (Option Filter)) × Calls) (calls : Calls)
      → Extends P calls o.1
      → ((filters : List (Option Filter)) → o.0 ≡ ok filters → Permits P opts.apply filters)
      → Extends P calls (with_filters opts compiled label_ids o).2
  with_filters-Extends compiled label_ids (err e, after) calls x f = x
  with_filters-Extends compiled label_ids (ok filters, after) calls x f =
      changes-Extends P opts filters (f filters refl) label_ids compiled _ calls (
        Extends-trans calls after _ x (
          groups_loop-Extends P opts filters (f filters refl)
            (build_visibility_groups compiled label_ids) compiled (map new_result compiled) after))

  resolve-calls :
      (labels : List Text) (calls : Calls)
      → (resolve_label_id_map labels calls).1 ≡ list_label_names ∷ calls
  unfolding resolve_label_id_map label_name_to_id
  resolve-calls labels calls = elim (Result-cases (api.labels calls)) [
    | inr (e, p) ↦ rw p
    | inl (labels, p) ↦ rw p
  ]

  with_label_ids-Extends :
      (compiled : List CompiledGrant) (o : Result (Dict Text) × Calls) (calls : Calls)
      → o.1 ≡ list_label_names ∷ calls
      → P list_label_names
      → P list_all_filters
      → Permits P opts.apply (known_filters calls)
      → Extends P calls (with_label_ids opts compiled o).2
  with_label_ids-Extends compiled (err e, after) calls h p q permits =
      subst (Extends P calls) (sym h) (Extends-one list_label_names calls p)
  with_label_ids-Extends compiled (ok label_ids, after) calls h p q permits =
      with_filters-Extends compiled label_ids (list_filters after) calls listed allowed
    where
      listed : Extends P calls (list_filters after).1
      listed =
          unfold list_filters in
          subst (λ (c : Calls). Extends P calls (list_all_filters ∷ c)) (sym h)
            (Extends-trans calls _ _ (Extends-one list_label_names calls p)
              (Extends-one list_all_filters _ q))

      allowed :
          (filters : List (Option Filter))
          → (list_filters after).0 ≡ ok filters
          → Permits P opts.apply filters
      allowed filters e =
          subst (Permits P opts.apply) (known-list_filters after calls filters h e) permits

  grants-Extends :
      (grants : List GrantRecord) (calls : Calls)
      → P list_label_names
      → P list_all_filters
      → Permits P opts.apply (known_filters calls)
      → Extends P calls (reconcile_grants opts grants calls).2
  unfolding reconcile_grants
  grants-Extends [] calls p q permits = Extends-refl calls
  grants-Extends (grant ∷ grants) calls p q permits =
      let compiled = map compile (grant ∷ grants) in
      with_label_ids-Extends compiled (resolve_label_id_map (all_labels compiled) calls) calls
        (resolve-calls (all_labels compiled) calls) p q permits

module _ ⦃std : Std⦄ ⦃api : Api⦄ where
  -- Without `apply` ReconcileGrants changes nothing at Gmail: it calls at most the lists of the labels
  -- and of the filters.
  pub reconcile_grants-IsListing :
      (opts : ReconcileOptions) (grants : List GrantRecord) (calls : Calls)
      → opts.apply ≡ false
      → Extends IsListing calls (reconcile_grants opts grants calls).2
  reconcile_grants-IsListing opts grants calls off =
      grants-Extends IsListing opts grants calls tt tt (record {
        creates = λ on. absurd (cc);
        deletes = λ on. absurd (cc);
        backfills = λ on. absurd (cc);
      })

  -- Whatever ReconcileGrants is asked, wherever it stops and whatever Gmail answers, each of its calls
  -- stays within what the manager owns: it creates only filters with one criterion and one label, it
  -- deletes only filters of the account that name exact senders and add one label, and it gives labels
  -- to batches of one to 1000 messages.
  pub reconcile_grants-IsManaged :
      (opts : ReconcileOptions) (grants : List GrantRecord) (calls : Calls)
      → Extends (IsManaged (known_filters calls)) calls (reconcile_grants opts grants calls).2
  reconcile_grants-IsManaged opts grants calls =
      grants-Extends (IsManaged (known_filters calls)) opts grants calls tt tt (record {
        creates = λ on from id. (from, id, refl);
        deletes = λ on label_id. IsManaged-delete (known_filters calls) label_id;
        backfills = λ on ids. IsManaged-batch (known_filters calls) ids;
      })
