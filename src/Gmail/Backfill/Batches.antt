-- ===== src/Gmail/Backfill/Batches.antt =====
-- internal/gmail/gmail.go: the batches of a backfill.
use gmail_visibility_manager.Base.{
  ◌+◌, ◌≤◌, ◌<◌, length, length-append, List, [], ◌∷◌, ◌++◌, append_assoc, append-nil, ◌≡◌, refl,
  sym, ap, ◌∙◌, true, false, eqb, is_empty, Option, none, some, arith, if◌then◌else◌, Bool-cases,
  inl, inr,
}
use gmail_visibility_manager.Text.{Text, trim_space}
use gmail_visibility_manager.Result.{Result, ok, err}
use gmail_visibility_manager.Exec.{Exec, continue}
use gmail_visibility_manager.Gmail.Api.{Api, Call, Calls, list_messages, batch_modify}
use gmail_visibility_manager.Gmail.Api.Log.{Extends, Extends-refl, Extends-one, Extends-trans}
use gmail_visibility_manager.Gmail.Backfill.{
  Backfilling, flush, flushed, add_message, add_messages, batch_modify_limit,
}

-- a call of a backfill: a search, or a batch of one to 1000 messages that get the labels
abbrev pub IsBackfillCall : List Text → Call → Type 0
IsBackfillCall label_ids (list_messages query token) = Unit
IsBackfillCall label_ids (batch_modify ids added) =
    (added ≡ label_ids) × (is_empty ids ≡ false) × (length ids ≤ batch_modify_limit)
IsBackfillCall label_ids _ = ⊥

-- the messages of all batches, in the order of their modification
abbrev pub sent : Calls → List Text
sent [] = []
sent (batch_modify ids added ∷ calls) = sent calls ++ ids
sent (_ ∷ calls) = sent calls

-- the ids of a page that are not blank
abbrev pub page_ids : List (Option Text) → List Text
page_ids [] = []
page_ids (none ∷ messages) = page_ids messages
page_ids (some id ∷ messages) =
    if is_empty (trim_space id) then page_ids messages else trim_space id ∷ page_ids messages

-- the ids on the pages of a search from a token on, up to the page that names no next one or to the
-- error of a request: the token of each page is the one that the page before it names
pub data Finds ⦃api : Api⦄ (query : Text) : Calls → Text → Option Text → List Text → Type 0 where
  cut :
      {calls : Calls} {token : Text} (message : Text)
      → api.messages calls query token ≡ err message
      → Finds query calls token (some message) []
  last :
      {calls : Calls} {token : Text} (messages : List (Option Text)) (next : Text)
      → api.messages calls query token ≡ ok (messages, next)
      → is_empty (trim_space next) ≡ true
      → Finds query calls token none (page_ids messages)
  more :
      {calls : Calls} {token : Text} (messages : List (Option Text)) (next : Text) (later : Calls)
      {failed : Option Text} {ids : List Text}
      → api.messages calls query token ≡ ok (messages, next)
      → is_empty (trim_space next) ≡ false
      → Finds query later (trim_space next) failed ids
      → Finds query calls token failed (page_ids messages ++ ids)

-- the counters: what was found is modified or waits in the batch
pub record IsCounted (s : Backfilling) : Type 0 where
  pub total : s.matched ≡ s.modified + length s.batch
  pub small : length s.batch ≤ batch_modify_limit

-- what holds between two states whether or not an error came
pub record Advance (label_ids : List Text) (s t : Backfilling) : Type 0 where
  pub calls : Extends (IsBackfillCall label_ids) s.calls t.calls
  pub counted : IsCounted t

-- the ids were found, and sent or put into the batch
pub record Gains (ids : List Text) (s t : Backfilling) : Type 0 where
  pub found : t.matched ≡ s.matched + length ids
  pub kept : sent t.calls ++ t.batch ≡ (sent s.calls ++ s.batch) ++ ids

pub Gains-trans :
    (ids later : List Text) (s t u : Backfilling)
    → Gains ids s t
    → Gains later t u
    → Gains (ids ++ later) s u
Gains-trans ids later s t u g h = record {
  found = omega (arith, g.found, h.found, length-append ids later);
  kept = h.kept ∙ ap (λ l. l ++ later) g.kept ∙ append_assoc _ ids later;
}

-- what holds besides without an error
pub record Keeps (ids : List Text) (s t : Backfilling) : Type 0 where
  pub room : length t.batch < batch_modify_limit
  pub gains : Gains ids s t

abbrev pub Runs :
    {A : Type 0} → List Text → List Text → Backfilling → Result A × Backfilling → Type 0
Runs label_ids ids s (err _, t) = Advance label_ids s t
Runs label_ids ids s (ok _, t) = Advance label_ids s t × Keeps ids s t

pub length-empty : (l : List Text) → is_empty l ≡ true → l ≡ []
length-empty [] h = refl
length-empty (x ∷ xs) h = cc

module _ (label_ids : List Text) where
  flushed-Runs :
      (r : Result (Unit {0})) (s : Backfilling)
      → IsCounted s
      → is_empty s.batch ≡ false
      → Runs label_ids [] s (flushed r s.batch label_ids s)
  flushed-Runs (err message) s c h = record {
    calls = Extends-one _ s.calls (refl, h, c.small);
    counted = record { total = c.total; small = c.small };
  }
  flushed-Runs (ok _) s c h = (
    record {
      calls = Extends-one _ s.calls (refl, h, c.small);
      counted = record { total = omega (arith, c.total); small = omega arith };
    },
    record { room = omega arith; gains = record { found = omega arith; kept = refl } },
  )

  -- two runs one after the other
  pub Runs-trans :
      {A : Type 0} (s t : Backfilling) (ids later : List Text) (after : Result A × Backfilling)
      → Advance label_ids s t
      → Gains ids s t
      → Runs label_ids later t after
      → Runs label_ids (ids ++ later) s after
  Runs-trans s t ids later (err _, u) a g b = record {
    calls = Extends-trans s.calls t.calls u.calls a.calls b.calls;
    counted = b.counted;
  }
  Runs-trans s t ids later (ok _, u) a g (b, l) = (
    record { calls = Extends-trans s.calls t.calls u.calls a.calls b.calls; counted = b.counted },
    record { room = l.room; gains = Gains-trans ids later s t u g l.gains },
  )

  pub Runs-continue :
      {A B : Type 0} (outcome : Result A × Backfilling) (next : A → Exec Backfilling B)
      (s : Backfilling) (ids later : List Text)
      → Runs label_ids ids s outcome
      → ((value : A) (t : Backfilling)
          → outcome ≡ (ok value, t)
          → IsCounted t
          → length t.batch < batch_modify_limit
          → Runs label_ids later t (next value t))
      → Runs label_ids (ids ++ later) s (continue outcome.0 next outcome.1)
  Runs-continue (err e, t) next s ids later r f = r
  Runs-continue (ok value, t) next s ids later (a, k) f =
      Runs-trans s t ids later (next value t) a k.gains (f value t refl a.counted k.room)

module _ ⦃api : Api⦄ (from : Text) (label_ids : List Text) where
  stay :
      (s : Backfilling)
      → IsCounted s
      → length s.batch < batch_modify_limit
      → Runs label_ids [] s (ok tt, s)
  stay s c room = (
    record { calls = Extends-refl s.calls; counted = c },
    record { room = room; gains = record { found = omega arith; kept = sym (append-nil _) } },
  )

  pub flush-Runs : (s : Backfilling) → IsCounted s → Runs label_ids [] s (flush from label_ids s)
  unfolding flush
  flush-Runs s c = elim (Bool-cases (is_empty s.batch)) [
    | inl nothing ↦ rw nothing (stay s c (omega (arith, ap length (length-empty s.batch nothing))))
    | inr some_ids ↦ rw some_ids (flushed-Runs label_ids _ s c some_ids)
  ]

  add_message-Runs :
      (id : Text) (s : Backfilling)
      → IsCounted s
      → length s.batch < batch_modify_limit
      → Runs label_ids (id ∷ []) s (add_message from label_ids id s)
  unfolding add_message
  add_message-Runs id s c room =
      let grown = record s { matched = s.matched + 1; batch = s.batch ++ id ∷ [] } in
      let c' : IsCounted grown = record {
        total = omega (arith, c.total, length-append s.batch (id ∷ []));
        small = omega (arith, length-append s.batch (id ∷ []));
      } in
      let a : Advance label_ids s grown = record { calls = Extends-refl s.calls; counted = c' } in
      let gains : Gains (id ∷ []) s grown = record {
        found = omega arith;
        kept = sym (append_assoc (sent s.calls) s.batch (id ∷ []));
      } in
      elim (Bool-cases (eqb (length (s.batch ++ id ∷ [])) batch_modify_limit)) [
        | inl full ↦ rw full (
            Runs-trans label_ids s grown (id ∷ []) [] (flush from label_ids grown) a gains
              (flush-Runs grown c'))
        | inr open_batch ↦
            rw open_batch
              (a, record { room = ground (arith, length-append s.batch (id ∷ [])); gains = gains })
      ]

  pub add_messages-Runs :
      (messages : List (Option Text)) (s : Backfilling)
      → IsCounted s
      → length s.batch < batch_modify_limit
      → Runs label_ids (page_ids messages) s (add_messages from label_ids messages s)
  unfolding add_messages
  add_messages-Runs [] s c room = stay s c room
  add_messages-Runs (none ∷ messages) s c room = add_messages-Runs messages s c room
  add_messages-Runs (some id ∷ messages) s c room = elim (Bool-cases (is_empty (trim_space id))) [
    | inl blank ↦ rw blank (add_messages-Runs messages s c room)
    | inr id_text ↦ rw id_text (
        Runs-continue label_ids (add_message from label_ids (trim_space id) s) _ s
          (trim_space id ∷ []) (page_ids messages) (add_message-Runs (trim_space id) s c room)
          (λ _ t _ c' room'. add_messages-Runs messages t c' room'))
  ]
