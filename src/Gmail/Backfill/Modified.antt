-- ===== src/Gmail/Backfill/Modified.antt =====
-- internal/gmail/gmail.go: a backfill modifies the messages that the search finds, in batches.
use gmail_visibility_manager.Base.{
  suc, pos, ◌≤◌, length, List, [], ◌++◌, append-nil, ◌≡◌, refl, ap, is_empty, Option, none, some,
  arith, Bool-cases, if-both, inl, inr,
}
use gmail_visibility_manager.Text.{Text, trim_space}
use gmail_visibility_manager.Result.{Result, ok, err}
use gmail_visibility_manager.Exec.{pure, wrap_result, continue}
use gmail_visibility_manager.Std.{Std}
use gmail_visibility_manager.Gmail.{HistoricalBackfill}
use gmail_visibility_manager.Gmail.Api.{Api, Calls}
use gmail_visibility_manager.Gmail.Api.Log.{Extends, Extends-refl, Extends-trans}
use gmail_visibility_manager.Gmail.Matching.{compact_strings}
use gmail_visibility_manager.Gmail.Backfill.{
  Backfilling, flush, flush_rest, flushed, run_backfill, sender_query, backfill_labels_for_sender,
  new_backfill, finish_backfill,
}
use gmail_visibility_manager.Gmail.Backfill.Batches.{
  IsBackfillCall, sent, Finds, Gains, Gains-trans, Advance, Runs, length-empty, flush-Runs,
}
use gmail_visibility_manager.Gmail.Backfill.Search.{Searches, list_pages-Searches}

all_sent :
    (x a y b ids : List Text) → a ≡ [] → b ≡ [] → x ++ a ≡ (y ++ b) ++ (ids ++ []) → x ≡ y ++ ids
all_sent x a y b ids e f h = simp (e, f, append-nil) at h

module _ ⦃api : Api⦄ (from : Text) (label_ids : List Text) where
  -- a flush without an error leaves the batch empty
  IsFlushed : Result (Unit {0}) × Backfilling → Type 0
  IsFlushed (err _, t) = Unit
  IsFlushed (ok _, t) = t.batch ≡ []

  flush-IsFlushed : (s : Backfilling) → IsFlushed (flush from label_ids s)
  unfolding flush IsFlushed
  flush-IsFlushed s = elim (Bool-cases (is_empty s.batch)) [
    | inl nothing ↦ rw nothing (length-empty s.batch nothing)
    | inr some_ids ↦ rw some_ids (emptied _ (api.modify s.calls s.batch label_ids))
  ]
    where
      emptied :
          (prefix : Text) (r : Result (Unit {0}))
          → IsFlushed (flushed (wrap_result prefix r) s.batch label_ids s)
      emptied prefix (err _) = tt
      emptied prefix (ok _) = refl

  -- what a whole backfill leaves
  Completes : Calls → Result (Option Text) × Backfilling → Type 0
  Completes calls (err _, t) =
      Extends (IsBackfillCall label_ids) calls t.calls × (t.modified ≤ t.matched)
  Completes calls (ok (some _), t) =
      Extends (IsBackfillCall label_ids) calls t.calls × (t.modified ≤ t.matched)
  Completes calls (ok none, t) =
      Extends (IsBackfillCall label_ids) calls t.calls
      × ((ids : List Text) × Finds (sender_query from) calls [] none ids
          × (t.matched ≡ length ids)
          × (t.modified ≡ length ids)
          × (sent t.calls ≡ sent calls ++ ids))

  flushed-Completes :
      (s t : Backfilling) (ids : List Text) (outcome : Result (Unit {0}) × Backfilling)
      → (s.matched ≡ 0) × (s.batch ≡ [])
      → Advance label_ids s t
      → Gains ids s t
      → Finds (sender_query from) s.calls [] none ids
      → Runs label_ids [] t outcome
      → IsFlushed outcome
      → Completes s.calls (continue outcome.0 (λ _. pure none) outcome.1)
  unfolding Completes IsFlushed
  flushed-Completes s t ids (err _, u) (z, e) a g found b f =
      (Extends-trans s.calls t.calls u.calls a.calls b.calls, omega (arith, b.counted.total))
  flushed-Completes s t ids (ok _, u) (z, e) a g found (b, k) f =
      let all = Gains-trans ids [] s t u g k.gains in
      (
        Extends-trans s.calls t.calls u.calls a.calls b.calls,
        (
          ids,
          found,
          omega (arith, g.found, k.gains.found, z),
          omega (arith, g.found, k.gains.found, z, b.counted.total, ap length f),
          all_sent (sent u.calls) u.batch (sent s.calls) s.batch ids f e all.kept,
        ),
      )

  searched-Completes :
      (s : Backfilling) (outcome : Result (Option Text) × Backfilling)
      → (s.matched ≡ 0) × (s.batch ≡ [])
      → Searches from label_ids (sender_query from) [] s outcome
      → Completes s.calls
          (continue outcome.0 (λ failed. flush_rest from label_ids failed) outcome.1)
  unfolding Completes Searches flush_rest
  searched-Completes s (err _, t) start a = (a.calls, omega (arith, a.counted.total))
  searched-Completes s (ok (some _), t) start (a, _) = (a.calls, omega (arith, a.counted.total))
  searched-Completes s (ok none, t) start (a, (ids, found, k)) =
      flushed-Completes s t ids (flush from label_ids t) start a k.gains found
        (flush-Runs from label_ids t a.counted) (flush-IsFlushed t)

  run_backfill-Completes : (calls : Calls) → Completes calls (run_backfill from label_ids calls)
  unfolding run_backfill
  run_backfill-Completes calls =
      let s : Backfilling = record {
        matched = 0;
        modified = 0;
        batches = 0;
        batch = [];
        calls = calls;
      } in
      searched-Completes s _ (refl, refl)
        (list_pages-Searches from label_ids (sender_query from)
          (suc (api.pages_left (sender_query from) [])) [] s (omega arith)
          (record { total = omega arith; small = omega arith }) (omega arith))

module _ ⦃std : Std⦄ ⦃api : Api⦄ where
  abbrev pub CallsOnly : List Text → Calls → Calls → Type 0
  CallsOnly label_ids = Extends (IsBackfillCall (compact_strings label_ids))

  pub FindsAll : Text → Calls → HistoricalBackfill × Option Text × Calls → Type 0
  FindsAll from calls (result, failed, after) =
      (ids : List Text) × Finds (sender_query from) calls [] none ids
      × (result.messages_matched ≡ pos (length ids))
      × (result.messages_modified ≡ pos (length ids))
      × (sent after ≡ sent calls ++ ids)

  finished :
      (from : Text) (label_ids : List Text) (calls : Calls) (result : HistoricalBackfill)
      (outcome : Result (Option Text) × Backfilling)
      → Completes from label_ids calls outcome
      → Extends (IsBackfillCall label_ids) calls (finish_backfill from result outcome).2
        × ((finish_backfill from result outcome).1 ≡ none
            → FindsAll from calls (finish_backfill from result outcome))
  unfolding Completes FindsAll
  finished from label_ids calls result (err e, t) (x, _) = (x, λ h. cc)
  finished from label_ids calls result (ok (some e), t) (x, _) = (x, λ h. cc)
  finished from label_ids calls result (ok none, t) (x, (ids, found, m, n, k)) =
      (x, λ _. (ids, found, ap pos m, ap pos n, k))

  -- A backfill calls nothing but the search and batchModify, and each batch has one to 1000 messages,
  -- which get the label ids that are not blank and nothing else.
  pub backfill-CallsOnly :
      (from : Text) (labels label_ids : List Text) (calls : Calls)
      → CallsOnly label_ids calls (backfill_labels_for_sender from labels label_ids calls).2
  unfolding backfill_labels_for_sender
  backfill-CallsOnly from labels label_ids calls =
      let found =
        finished from (compact_strings label_ids) calls (new_backfill from labels) _
          (run_backfill-Completes from (compact_strings label_ids) calls) in
      let Made = λ (outcome : HistoricalBackfill × Option Text × Calls).
        CallsOnly label_ids calls outcome.2 in
      if-both Made (is_empty (trim_space from)) (Extends-refl calls)
        (if-both Made (is_empty (compact_strings label_ids)) (Extends-refl calls) found.0)
