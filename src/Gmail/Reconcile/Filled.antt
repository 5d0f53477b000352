-- ===== src/Gmail/Reconcile/Filled.antt =====
-- internal/gmail/gmail.go: ReconcileGrants with `apply` gives each grant a filter.
use mathlib.Core.Path.{subst}
use gmail_visibility_manager.Base.{
  ℕ, zero, suc, List, [], ◌∷◌, ◌≡◌, refl, Bool, true, false, is_empty, Option, none, some, Any, inl,
  inr, arith,
}
use gmail_visibility_manager.Text.{Text}
use gmail_visibility_manager.Result.{ok}
use gmail_visibility_manager.Dict.{lookup}
use gmail_visibility_manager.Std.{Std}
use gmail_visibility_manager.Request.{normalize_email}
use gmail_visibility_manager.Gmail.{ReconcileOptions, LabelFilter, ReconcileResult}
use gmail_visibility_manager.Gmail.Api.{Api, Calls, Filter}
use gmail_visibility_manager.Gmail.Grouping.{CompiledGrant, VisibilityGroup}
use gmail_visibility_manager.Gmail.Groups.{GroupReconcile, reconcile_visibility_group}
use gmail_visibility_manager.Gmail.Groups.Covered.{IsInPlace, reconcile_visibility_group-IsInPlace}
use gmail_visibility_manager.Gmail.Reconcile.{
  get_elem?, update_at, add_filter, sender_result, note_primary, note_index, note_indexes,
}
use gmail_visibility_manager.Gmail.Reconcile.Grants.{Outcome, groups_loop, after_group}
use gmail_visibility_manager.Gmail.Reconcile.Members.{Holds}

-- the result has the id of a filter
abbrev pub HasFilter : ReconcileResult → Type 0
HasFilter r = is_empty r.gmail_filter_id ≡ false

-- the list reaches to an index, and what is there satisfies `P`
unfoldable pub At : (ReconcileResult → Type 0) → ℕ → List ReconcileResult → Type 0
At P i [] = ⊥
At P zero (r ∷ rs) = P r
At P (suc i) (r ∷ rs) = At P i rs

unfoldable pub AnyResult : ReconcileResult → Type 0
AnyResult r = Unit

update_at-keeps :
    (P : ReconcileResult → Type 0) (i j : ℕ) (change : ReconcileResult → ReconcileResult)
    (rs : List ReconcileResult)
    → ((r : ReconcileResult) → P r → P (change r))
    → At P i rs
    → At P i (update_at j change rs)
unfolding At
update_at-keeps P i j change [] k h = h
update_at-keeps P zero zero change (r ∷ rs) k h = k r h
update_at-keeps P zero (suc j) change (r ∷ rs) k h = h
update_at-keeps P (suc i) zero change (r ∷ rs) k h = h
update_at-keeps P (suc i) (suc j) change (r ∷ rs) k h = update_at-keeps P i j change rs k h

update_at-sets :
    (P : ReconcileResult → Type 0) (i : ℕ) (change : ReconcileResult → ReconcileResult)
    (rs : List ReconcileResult)
    → ((r : ReconcileResult) → P (change r))
    → At AnyResult i rs
    → At P i (update_at i change rs)
unfolding At
update_at-sets P i change [] k h = h
update_at-sets P zero change (r ∷ rs) k h = k r
update_at-sets P (suc i) change (r ∷ rs) k h = update_at-sets P i change rs k h

note_primary-keeps :
    (id : Text) (f : LabelFilter) (r : ReconcileResult)
    → HasFilter r
    → HasFilter (note_primary id f r)
unfolding note_primary add_filter
note_primary-keeps id f r h = ground (arith, h)

note_primary-HasFilter :
    (id : Text) (f : LabelFilter) (r : ReconcileResult)
    → is_empty f.gmail_filter_id ≡ false
    → HasFilter (note_primary id f r)
unfolding note_primary add_filter
note_primary-HasFilter id f r h = ground (arith, h)

module _ (group : VisibilityGroup) (outcome : GroupReconcile) (compiled : List CompiledGrant) where
  -- a property that each note of this group keeps
  Keeps : (ReconcileResult → Type 0) → Type 0
  Keeps P = (id : Text) (f : LabelFilter) (r : ReconcileResult) → P r → P (note_primary id f r)

  note_index-keeps :
      (P : ReconcileResult → Type 0) (found : Option CompiledGrant) (i j : ℕ)
      (results : List ReconcileResult)
      → Keeps P
      → At P i results
      → At P i (note_index group outcome found j results)
  unfolding note_index Keeps
  note_index-keeps P none i j results k h = h
  note_index-keeps P (some item) i j results k h =
      update_at-keeps P i j _ results
        (k item.grant.gmail_filter_id (sender_result group outcome item.spec.from)) h

  note_indexes-keeps :
      (P : ReconcileResult → Type 0) (indexes : List ℕ) (i : ℕ) (results : List ReconcileResult)
      → Keeps P
      → At P i results
      → At P i (note_indexes group outcome compiled indexes results)
  unfolding note_indexes
  note_indexes-keeps P [] i results k h = h
  note_indexes-keeps P (j ∷ indexes) i results k h =
      note_indexes-keeps P indexes i _ k (note_index-keeps P (get_elem? compiled j) i j results k h)

  note_index-HasFilter :
      (i : ℕ) (item : CompiledGrant) (results : List ReconcileResult)
      → get_elem? compiled i ≡ some item
      → is_empty (sender_result group outcome item.spec.from).gmail_filter_id ≡ false
      → At AnyResult i results
      → At HasFilter i (note_index group outcome (get_elem? compiled i) i results)
  unfolding note_index
  note_index-HasFilter i item results p q h =
      rw (p, note_index)
        (update_at-sets HasFilter i _ results
          (λ r.
            note_primary-HasFilter item.grant.gmail_filter_id
              (sender_result group outcome item.spec.from) r q)
          h)

  note_indexes-HasFilter :
      (indexes : List ℕ) (i : ℕ) (item : CompiledGrant) (results : List ReconcileResult)
      → get_elem? compiled i ≡ some item
      → is_empty (sender_result group outcome item.spec.from).gmail_filter_id ≡ false
      → Any (λ j. i ≡ j) indexes
      → At AnyResult i results
      → At HasFilter i (note_indexes group outcome compiled indexes results)
  unfolding note_indexes
  note_indexes-HasFilter [] i item results p q a h = absurd a
  note_indexes-HasFilter (j ∷ indexes) i item results p q (inr later) h =
      note_indexes-HasFilter indexes i item _ p q later (
        note_index-keeps AnyResult (get_elem? compiled j) i j results
          (unfold Keeps AnyResult in λ id f r _. tt) h)
  note_indexes-HasFilter (j ∷ indexes) i item results p q (inl here) h =
      note_indexes-keeps HasFilter indexes i _ (unfold Keeps in note_primary-keeps) (
        subst (λ n. At HasFilter i (note_index group outcome (get_elem? compiled n) n results)) here
          (note_index-HasFilter i item results p q h))

-- a sender whose filter is in place
sender_result-HasFilter :
    (group : VisibilityGroup) (outcome : GroupReconcile) (from : Text) (f : LabelFilter)
    → is_empty group.label ≡ false
    → lookup outcome.label_filters from ≡ some f
    → IsInPlace group.label f
    → is_empty (sender_result group outcome from).gmail_filter_id ≡ false
unfolding sender_result
sender_result-HasFilter group outcome from f l p h =
    rw (p, sender_result) (ground (arith, h.labelled, h.id, l))

module _ ⦃std : Std⦄ ⦃api : Api⦄ where
  held-HasFilter :
      (apply : Bool) (filters : List (Option Filter)) (group : VisibilityGroup) (calls : Calls)
      (i : ℕ) (from : Text)
      → apply ≡ true
      → (reconcile_visibility_group filters group apply calls).0.error ≡ none
      → normalize_email from ≡ ok from
      → Holds i from group
      → is_empty
          (sender_result group
            (reconcile_visibility_group filters group apply calls).0
            from).gmail_filter_id
        ≡ false
  held-HasFilter false filters group calls i from a e n h = cc
  held-HasFilter true filters group calls i from a e n h =
      let (f, p, placed) =
        reconcile_visibility_group-IsInPlace filters group calls from e n h.sender in
      sender_result-HasFilter group (reconcile_visibility_group filters group true calls).0 from f
        h.labelled p placed

  module _ (opts : ReconcileOptions) (filters : List (Option Filter)) where
    after_group-At :
        (P : ReconcileResult → Type 0) (i : ℕ) (indexes : List ℕ) (error : Option Text)
        (noted : List ReconcileResult) (calls : Calls) (rest : Outcome)
        → (after_group opts filters indexes error noted calls rest).1 ≡ none
        → (error ≡ none → rest.1 ≡ none → At P i rest.0)
        → At P i (after_group opts filters indexes error noted calls rest).0
    after_group-At P i indexes none noted calls rest h f = f refl h
    after_group-At P i indexes (some e) noted calls rest h f = cc

    groups_loop-keeps :
        (groups : List VisibilityGroup) (compiled : List CompiledGrant) (i : ℕ)
        (results : List ReconcileResult) (calls : Calls)
        → (groups_loop opts filters groups compiled results calls).1 ≡ none
        → At HasFilter i results
        → At HasFilter i (groups_loop opts filters groups compiled results calls).0
    unfolding groups_loop
    groups_loop-keeps [] compiled i results calls e h = h
    groups_loop-keeps (group ∷ groups) compiled i results calls e h =
        let o = reconcile_visibility_group filters group opts.apply calls in
        let noted = note_indexes group o.0 compiled group.indexes results in
        after_group-At HasFilter i group.indexes o.0.error noted o.1 _ e (λ _ e.
          groups_loop-keeps groups compiled i noted o.1 e (
            note_indexes-keeps group o.0 compiled HasFilter group.indexes i results
              (unfold Keeps in note_primary-keeps) h))

    pub groups_loop-HasFilter :
        (groups : List VisibilityGroup) (compiled : List CompiledGrant) (i : ℕ)
        (item : CompiledGrant) (results : List ReconcileResult) (calls : Calls)
        → opts.apply ≡ true
        → get_elem? compiled i ≡ some item
        → normalize_email item.spec.from ≡ ok item.spec.from
        → Any (Holds i item.spec.from) groups
        → At AnyResult i results
        → (groups_loop opts filters groups compiled results calls).1 ≡ none
        → At HasFilter i (groups_loop opts filters groups compiled results calls).0
    unfolding groups_loop
    groups_loop-HasFilter [] compiled i item results calls a p n held r e = absurd held
    groups_loop-HasFilter (group ∷ groups) compiled i item results calls a p n (inr later) r e =
        let o = reconcile_visibility_group filters group opts.apply calls in
        let noted = note_indexes group o.0 compiled group.indexes results in
        after_group-At HasFilter i group.indexes o.0.error noted o.1 _ e (λ _ e.
          groups_loop-HasFilter groups compiled i item noted o.1 a p n later
            (note_indexes-keeps group o.0 compiled AnyResult group.indexes i results
              (unfold Keeps AnyResult in λ id f r _. tt) r)
            e)
    groups_loop-HasFilter (group ∷ groups) compiled i item results calls a p n (inl held) r e =
        let o = reconcile_visibility_group filters group opts.apply calls in
        let noted = note_indexes group o.0 compiled group.indexes results in
        after_group-At HasFilter i group.indexes o.0.error noted o.1 _ e (λ fine e.
          groups_loop-keeps groups compiled i noted o.1 e (
            note_indexes-HasFilter group o.0 compiled group.indexes i item results p
              (held-HasFilter opts.apply filters group calls i item.spec.from a fine n held)
              held.index r))
