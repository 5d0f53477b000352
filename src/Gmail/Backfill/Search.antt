-- ===== src/Gmail/Backfill/Search.antt =====
-- internal/gmail/gmail.go: the pages of the search of a backfill.
use gmail_visibility_manager.Base.{
  ℕ, zero, suc, refl, ◌<◌, length, List, [], ◌∷◌, ◌++◌, append-nil, ◌≡◌, sym, false, is_empty,
  Option, none, arith, if◌then◌else◌, Bool-cases, inl, inr,
}
use gmail_visibility_manager.Text.{Text, trim_space}
use gmail_visibility_manager.Result.{Result, ok, err}
use gmail_visibility_manager.Exec.{Exec, pure, continue}
use gmail_visibility_manager.Gmail.Api.{Api, list_messages}
use gmail_visibility_manager.Gmail.Api.Log.{Extends-one, Extends-trans}
use gmail_visibility_manager.Gmail.Backfill.{
  Backfilling, add_messages, read_page, list_pages, batch_modify_limit,
}
use gmail_visibility_manager.Gmail.Backfill.Batches.{
  page_ids, Finds, cut, last, more, IsCounted, Gains-trans, Keeps, Advance, Runs, add_messages-Runs,
}

module _ ⦃api : Api⦄ (from : Text) (label_ids : List Text) where
  -- the search so far is one call more
  abbrev listed : Text → Text → Backfilling → Backfilling
  listed query token s = record s { calls = list_messages query token ∷ s.calls }

  -- what a run of the loop over the pages leaves: where no flush failed, the ids of the search
  unfoldable pub Searches : Text → Text → Backfilling → Result (Option Text) × Backfilling → Type 0
  Searches query token s (err _, t) = Advance label_ids s t
  Searches query token s (ok failed, t) =
      Advance label_ids s t
      × ((ids : List Text) × Finds query s.calls token failed ids × Keeps ids s t)

  -- the call of the search itself changes no counter
  Advance-listed :
      (query token : Text) (s t : Backfilling)
      → Advance label_ids (listed query token s) t
      → Advance label_ids s t
  Advance-listed query token s t a = record {
    calls = Extends-trans s.calls _ t.calls (Extends-one _ s.calls tt) a.calls;
    counted = a.counted;
  }

  Keeps-listed :
      (query token : Text) (ids : List Text) (s t : Backfilling)
      → Keeps ids (listed query token s) t
      → Keeps ids s t
  Keeps-listed query token ids s t k = record {
    room = k.room;
    gains = record { found = k.gains.found; kept = k.gains.kept };
  }

  -- the search goes on with the next page
  Searches-next :
      (query token : Text) (messages : List (Option Text)) (next : Text) (s t : Backfilling)
      (after : Result (Option Text) × Backfilling)
      → api.messages s.calls query token ≡ ok (messages, next)
      → is_empty (trim_space next) ≡ false
      → Advance label_ids s t
      → Keeps (page_ids messages) s t
      → Searches query (trim_space next) t after
      → Searches query token s after
  unfolding Searches
  Searches-next query token messages next s t (err _, u) e h a k b = record {
    calls = Extends-trans s.calls t.calls u.calls a.calls b.calls;
    counted = b.counted;
  }
  Searches-next query token messages next s t (ok failed, u) e h a k (b, (ids, found, l)) = (
    record { calls = Extends-trans s.calls t.calls u.calls a.calls b.calls; counted = b.counted },
    (
      page_ids messages ++ ids,
      more messages next t.calls e h found,
      record { room = l.room; gains = Gains-trans (page_ids messages) ids s t u k.gains l.gains },
    ),
  )

  -- the messages of a page and what follows it, the request for the page being made
  page-Searches :
      (query token : Text) (messages : List (Option Text)) (next : Text) (s : Backfilling)
      (outcome : Result (Unit {0}) × Backfilling)
      (next_page : Text → Exec Backfilling (Option Text))
      → api.messages s.calls query token ≡ ok (messages, next)
      → Runs label_ids (page_ids messages) (listed query token s) outcome
      → (is_empty (trim_space next) ≡ false
          → (t : Backfilling) → IsCounted t
          → length t.batch < batch_modify_limit
          → Searches query (trim_space next) t (next_page (trim_space next) t))
      → Searches query token s (
          continue outcome.0
            (λ _. if is_empty (trim_space next) then pure none else next_page (trim_space next))
            outcome.1)
  unfolding Searches
  page-Searches query token messages next s (err _, t) next_page e a f =
      Advance-listed query token s t a
  page-Searches query token messages next s (ok _, t) next_page e (a, k) f =
      let b = Advance-listed query token s t a in
      let l = Keeps-listed query token (page_ids messages) s t k in
      elim (Bool-cases (is_empty (trim_space next))) [
        | inl blank ↦ rw blank ((b, (page_ids messages, last messages next e blank, l)))
        | inr on ↦ rw on (
            Searches-next query token messages next s t (next_page (trim_space next) t) e on b l
              (f on t a.counted k.room))
      ]

  read_page-Searches :
      (query token : Text) (s : Backfilling) (next_page : Text → Exec Backfilling (Option Text))
      (answer : Result (List (Option Text) × Text))
      → api.messages s.calls query token ≡ answer
      → IsCounted s
      → length s.batch < batch_modify_limit
      → ((messages : List (Option Text)) (next : Text)
          → answer ≡ ok (messages, next)
          → is_empty (trim_space next) ≡ false
          → (t : Backfilling) → IsCounted t
          → length t.batch < batch_modify_limit
          → Searches query (trim_space next) t (next_page (trim_space next) t))
      → Searches query token s (read_page from label_ids next_page answer (listed query token s))
  unfolding read_page
  read_page-Searches query token s next_page (err message) e c room f =
      unfold Searches in
      (
        record {
          calls = Extends-one _ s.calls tt;
          counted = record { total = c.total; small = c.small };
        },
        (
          [],
          cut message e,
          record { room = room; gains = record { found = omega arith; kept = sym (append-nil _) } },
        ),
      )
  read_page-Searches query token s next_page (ok (messages, next)) e c room f =
      let s' = listed query token s in
      page-Searches query token messages next s (add_messages from label_ids messages s') next_page
        e
        (add_messages-Runs from label_ids messages s' (record { total = c.total; small = c.small })
          room)
        (f messages next refl)

  -- the loop reads every page, where it may read more pages than follow
  pub list_pages-Searches :
      (query : Text) (pages : ℕ) (token : Text) (s : Backfilling)
      → api.pages_left query token < pages
      → IsCounted s
      → length s.batch < batch_modify_limit
      → Searches query token s (list_pages from label_ids query pages token s)
  unfolding list_pages
  list_pages-Searches query zero token s enough c room = absurd (omega (arith, enough))
  list_pages-Searches query (suc pages) token s enough c room =
      read_page-Searches query token s (λ next. list_pages from label_ids query pages next)
        (api.messages s.calls query token) refl c room
        (λ messages next e on t c' room'.
          list_pages-Searches query pages (trim_space next) t
            (omega (arith, enough, api.advances s.calls query token messages next e on)) c' room')
