-- ===== src/State/Operations/Lists/Order.antt =====
-- internal/state/state.go: what the listings hold, and in which order.
use mathlib.Core.List.{Perm}
use mathlib.Core.List.Perm
use gmail_visibility_manager.Base.{
  ℕ, zero, suc, ℤ, take, drop, take-drop, List, [], ◌∷◌, ◌≡◌, refl, sym, ap, Bool, false, All, map,
  arith, inl, inr, Bool-cases, length, ◌++◌, ◌⊎◌, ◌∙◌,
}
use mathlib.Core.Path.{subst}
use gmail_visibility_manager.Text.{Text, text_lt}
use gmail_visibility_manager.Text.Order.{text_lt_asymm, text_lt_not_trans}
use gmail_visibility_manager.Result.{ok, >>=-eq-ok}
use gmail_visibility_manager.Sort.Less.{
  sort_less, IsOrdered, IsWeakOrder, sort_less-IsOrdered, sort_less-perm, sort_less-All,
}
use gmail_visibility_manager.Std.{Std}
use gmail_visibility_manager.State.Records.{
  Status, RequestRecord, RequestRow, scan_request, scan_requests, is_pending,
  unmarshal_string_slice,
}
use gmail_visibility_manager.State.Tables.{pending_rows}
use gmail_visibility_manager.State.Calls.{Host, Db, call}
use gmail_visibility_manager.State.Operations.Lists.{
  list_pending, list_recent, received_before, received_after, recent_limit,
}

-- an order by a text is a weak order, upwards and downwards
order_by {ℓ} : {A : Type ℓ} (key : A → Text) → IsWeakOrder (λ a b. text_lt (key a) (key b))
order_by key = record {
  asymm = λ x y h. text_lt_asymm (key x) (key y) h;
  not_trans = λ x y z h k. text_lt_not_trans (key x) (key y) (key z) h k;
}

order_down {ℓ} : {A : Type ℓ} (key : A → Text) → IsWeakOrder (λ a b. text_lt (key b) (key a))
order_down key = record {
  asymm = λ x y h. text_lt_asymm (key y) (key x) h;
  not_trans = λ x y z h k. text_lt_not_trans (key z) (key y) (key x) k h;
}

module _ {ℓ} {A : Type ℓ} (key : A → Text) (less : Text → Text → Bool) where
  below_map :
      (x : A) (l : List A)
      → All (λ y. less (key y) (key x) ≡ false) l
      → All (λ t. less t (key x) ≡ false) (map key l)
  below_map x [] _ = tt
  below_map x (y ∷ l) (b, bs) = (b, below_map x l bs)

  IsOrdered-map :
      (l : List A) → IsOrdered (λ a b. less (key a) (key b)) l → IsOrdered less (map key l)
  IsOrdered-map [] _ = tt
  IsOrdered-map (x ∷ l) (b, s) = (below_map x l b, IsOrdered-map l s)

-- taking stops at the limit or at the end
take-length {ℓ} : {A : Type ℓ} (n : ℕ) (l : List A) → (drop n l ≡ []) ⊎ (length (take n l) ≡ n)
take-length zero l = inr refl
take-length (suc n) [] = inl refl
take-length (suc n) (x ∷ l) = elim (take-length n l) [
  | inl e ↦ inl e
  | inr e ↦ inr (omega (arith, e))
]

length-map {ℓ} : {A B : Type ℓ} (f : A → B) (l : List A) → length (map f l) ≡ length l
length-map f [] = refl
length-map f (x ∷ l) = omega (arith, length-map f l)

map-append {ℓ} : {A B : Type ℓ} (f : A → B) (l m : List A) → map f (l ++ m) ≡ map f l ++ map f m
map-append f [] m = refl
map-append f (x ∷ l) m = ap (◌∷◌ (f x)) (map-append f l m)

pending_rows-All :
    (rows : List RequestRow) → All (λ r. r.status ≡ Status.pending) (pending_rows rows)
unfolding pending_rows
pending_rows-All [] = tt
pending_rows-All (row ∷ rows) = elim (Bool-cases (is_pending row.status)) [
  | inl held ↦ rw held (ground arith, pending_rows-All rows)
  | inr other ↦ rw other (pending_rows-All rows)
]

module _ ⦃std : Std⦄ where
  -- the columns that a scan keeps
  record IsScan (rows : List RequestRow) (rs : List RequestRecord) : Type 0 where
    ids : map (λ (r : RequestRecord). r.request_id) rs ≡ map (λ (r : RequestRow). r.request_id) rows
    times :
        map (λ (r : RequestRecord). r.received_at) rs ≡ map (λ (r : RequestRow). r.received_at) rows
    statuses : map (λ (r : RequestRecord). r.status) rs ≡ map (λ (r : RequestRow). r.status) rows

  scan_request-columns :
      (row : RequestRow) (r : RequestRecord)
      → scan_request row ≡ ok r
      → (r.request_id ≡ row.request_id)
        × (r.received_at ≡ row.received_at)
        × (r.status ≡ row.status)
  unfolding scan_request
  scan_request-columns row r h =
      let (labels, p, q) = >>=-eq-ok (unmarshal_string_slice row.classification_labels_json) _ h in
      let (reasons, p', q') = >>=-eq-ok (unmarshal_string_slice row.policy_reasons_json) _ q in
      ground (arith, q')

  scan_requests-IsScan :
      (rows : List RequestRow) (rs : List RequestRecord)
      → scan_requests rows ≡ ok rs
      → IsScan rows rs
  unfolding scan_requests
  scan_requests-IsScan [] rs h = ground arith
  scan_requests-IsScan (row ∷ rows) rs h =
      let (first, p, q) = >>=-eq-ok (scan_request row) _ h in
      let (rest, p', q') = >>=-eq-ok (scan_requests rows) _ q in
      let (i, t, s) = scan_request-columns row first p in
      let tail = scan_requests-IsScan rows rest p' in
      let whole : IsScan (row ∷ rows) (first ∷ rest) = record {
        ids = rw (i, tail.ids);
        times = rw (t, tail.times);
        statuses = rw (s, tail.statuses);
      } in
      subst (IsScan (row ∷ rows)) (ground (arith, q')) whole

  statuses-All :
      (rows : List RequestRow) (rs : List RequestRecord)
      → map (λ (r : RequestRecord). r.status) rs ≡ map (λ (r : RequestRow). r.status) rows
      → All (λ (r : RequestRow). r.status ≡ Status.pending) rows
      → All (λ (r : RequestRecord). r.status ≡ Status.pending) rs
  statuses-All [] [] h _ = tt
  statuses-All [] (r ∷ rs) h _ = absurd (ground arith)
  statuses-All (row ∷ rows) [] h _ = tt
  statuses-All (row ∷ rows) (r ∷ rs) h (p, ps) =
      (ground (arith, h), statuses-All rows rs (ground (arith, h)) ps)

module _ ⦃std : Std⦄ ⦃host : Host⦄ where
  -- Where ListPending gives a list, it holds the pending requests of the table and no other, each once
  -- per row, and oldest first.
  pub list_pending_lem :
      (db : Db) (rs : List RequestRecord)
      → (list_pending db).0 ≡ ok rs
      → All (λ r. r.status ≡ Status.pending) rs
        × IsOrdered text_lt (map (λ r. r.received_at) rs)
        × Perm (map (λ r. r.request_id) rs) (map (λ r. r.request_id) (pending_rows db.requests))
  unfolding list_pending call
  list_pending_lem db rs h =
      let rows = sort_less received_before (pending_rows db.requests) in
      let scan = scan_requests-IsScan rows rs (ground arith) in
      (
        statuses-All rows rs scan.statuses (
            sort_less-All received_before _ (pending_rows db.requests)
              (pending_rows-All db.requests)),
        rw scan.times (
            IsOrdered-map (λ r. r.received_at) text_lt rows
              (sort_less-IsOrdered received_before (order_by (λ r. r.received_at))
                (pending_rows db.requests))),
        rw scan.ids (
            Perm.map (λ r. r.request_id)
              (sort_less-perm received_before (pending_rows db.requests))),
      )

  -- Where ListRecent gives a list, it is the front of the whole table from the newest request to the
  -- oldest: a rest of the table, not newer than anything in the list, is left out, and only if the
  -- list has as many requests as the limit, which is 20 where the caller gives none.
  pub list_recent_lem :
      (limit : ℤ) (db : Db) (rs : List RequestRecord)
      → (list_recent limit db).0 ≡ ok rs
      → (rest : List RequestRow) × Perm
          (map (λ r. r.request_id) rs ++ map (λ r. r.request_id) rest)
          (map (λ r. r.request_id) db.requests)
        × IsOrdered
            (λ s t. text_lt t s)
            (map (λ r. r.received_at) rs ++ map (λ r. r.received_at) rest)
        × ((rest ≡ []) ⊎ (length rs ≡ recent_limit limit))
  unfolding list_recent call
  list_recent_lem limit db rs h =
      let n = recent_limit limit in
      let rows = sort_less received_after db.requests in
      let scan = scan_requests-IsScan (take n rows) rs (ground arith) in
      let size : length rs ≡ length (take n rows) = omega (
        arith,
        sym (length-map (λ (r : RequestRecord). r.request_id) rs),
        ap length scan.ids,
        length-map (λ (r : RequestRow). r.request_id) (take n rows),
      ) in
      (
        drop n rows,
        rw
            (
              scan.ids,
              ← map-append (λ (r : RequestRow). r.request_id) (take n rows) (drop n rows),
              take-drop n rows,
            )
            (Perm.map (λ r. r.request_id) (sort_less-perm received_after db.requests)),
        rw
            (
              scan.times,
              ← map-append (λ (r : RequestRow). r.received_at) (take n rows) (drop n rows),
              take-drop n rows,
            )
            (IsOrdered-map (λ r. r.received_at) (λ s t. text_lt t s) rows
              (sort_less-IsOrdered received_after (order_down (λ r. r.received_at)) db.requests)),
        elim (take-length n rows) [ inl e ↦ inl e | inr e ↦ inr (size ∙ e) ],
      )
