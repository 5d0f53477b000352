-- ===== src/Gmail/Reconcile/Calling.antt =====
-- internal/gmail/gmail.go: what the calls of ReconcileGrants must satisfy, and steps that keep to it.
use mathlib.Core.Path.{subst}
use gmail_visibility_manager.Base.{
  List, [], ◌∷◌, ◌≡◌, sym, Bool, true, Option, none, some, Any, inl, inr,
}
use gmail_visibility_manager.Text.{Text}
use gmail_visibility_manager.Result.{Result, ok, err, Result-cases}
use gmail_visibility_manager.Exec.{Exec, ◌>>◌}
use gmail_visibility_manager.Std.{Std}
use gmail_visibility_manager.Gmail.{HistoricalBackfill}
use gmail_visibility_manager.Gmail.Api.{
  Call, Calls, Filter, list_label_names, list_all_filters, create_filter, remove_filter,
  list_messages, batch_modify, sender_filter,
}
use gmail_visibility_manager.Gmail.Api.Log.{Extends, Extends-trans}
use gmail_visibility_manager.Gmail.Senders.{format_exact_sender_group}
use gmail_visibility_manager.Gmail.Matching.{exact_sender_visibility_filters}
use gmail_visibility_manager.Gmail.Backfill.Batches.{IsBackfillCall}
use gmail_visibility_manager.Gmail.Groups.Made.{IsGroupCreate, IsGroupDelete}
use gmail_visibility_manager.Gmail.Reconcile.{Progress}
use gmail_visibility_manager.Gmail.Reconcile.Items.{note_created, note_backfill}

-- what the calls for a list of filters must satisfy, those that change something only under `apply`
pub record Permits ⦃std : Std⦄ (P : Call → Type 0) (apply : Bool) (filters : List (Option Filter))
    : Type 0 where
  pub creates : apply ≡ true → (from id : Text) → P (create_filter (sender_filter from id))
  pub deletes :
      apply ≡ true
      → (label_id : Text) (call : Call)
      → IsGroupDelete (exact_sender_visibility_filters filters label_id) call
      → P call
  pub backfills : apply ≡ true → (ids : List Text) (call : Call) → IsBackfillCall ids call → P call

-- the calls of a step on one grant
abbrev pub Calling : {A : Type 0} → (Call → Type 0) → Exec Progress A → Type 0
Calling P step = (p : Progress) → Extends P p.calls (step p).1.calls

module _ {P : Call → Type 0} where
  pub Calling->> :
      {A B : Type 0} (step : Exec Progress A) (rest : Exec Progress B)
      → Calling P step
      → Calling P rest
      → Calling P (step >> rest)
  Calling->> step rest h k p = elim (Result-cases (step p).0) [
    | inr (e, q) ↦ rw q (h p)
    | inl (value, q) ↦ rw q (Extends-trans p.calls _ _ (h p) (k (step p).1))
  ]

  pub note_created-Extends :
      (label label_id : Text) (o : Result Text × Calls) (p : Progress)
      → Extends P p.calls o.1
      → Extends P p.calls (note_created label label_id o p).1.calls
  unfolding note_created
  note_created-Extends label label_id (err e, after) p x = x
  note_created-Extends label label_id (ok id, after) p x = x

  pub note_backfill-Extends :
      (o : HistoricalBackfill × Option Text × Calls) (p : Progress)
      → Extends P p.calls o.2
      → Extends P p.calls (note_backfill o p).1.calls
  unfolding note_backfill
  note_backfill-Extends (b, some e, after) p x = x
  note_backfill-Extends (b, none, after) p x = x

one_of_shards :
    ⦃std : Std⦄ (P : Call → Type 0) (shards : List (List Text)) (label_id : Text) (filter : Filter)
    → ((from id : Text) → P (create_filter (sender_filter from id)))
    → Any (λ shard. filter ≡ sender_filter (format_exact_sender_group shard) label_id) shards
    → P (create_filter filter)
one_of_shards P [] label_id filter f h = absurd h
one_of_shards P (shard ∷ shards) label_id filter f (inl e) =
    subst (λ x. P (create_filter x)) (sym e) (f (format_exact_sender_group shard) label_id)
one_of_shards P (shard ∷ shards) label_id filter f (inr h) =
    one_of_shards P shards label_id filter f h

-- a call for one of the shards is the creation of a filter for senders
pub group_create :
    ⦃std : Std⦄ (P : Call → Type 0) (shards : List (List Text)) (label_id : Text)
    → ((from id : Text) → P (create_filter (sender_filter from id)))
    → (call : Call) → IsGroupCreate shards label_id call
    → P call
group_create P shards label_id f (create_filter filter) h =
    one_of_shards P shards label_id filter f h
group_create P shards label_id f list_label_names h = absurd h
group_create P shards label_id f list_all_filters h = absurd h
group_create P shards label_id f (remove_filter id) h = absurd h
group_create P shards label_id f (list_messages q t) h = absurd h
group_create P shards label_id f (batch_modify ids added) h = absurd h
