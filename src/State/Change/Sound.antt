-- ===== src/State/Change/Sound.antt =====
-- internal/state/state.go: the invariant of the store, from grants to the requests behind them.
use gmail_visibility_manager.Base.{List, ◌≡◌, ◌≢◌, ◌⊎◌, refl, sym, ◌∙◌, ap, some, arith, inl, inr}
use gmail_visibility_manager.Text.{Text, ==_refl}
use gmail_visibility_manager.Result.{ok, Result-cases}
use gmail_visibility_manager.Std.{Std, StdLaws}
use gmail_visibility_manager.State.Records.{
  Status, RequestRecord, RequestRow, GrantRow, scan_request, unmarshal_string_slice, status_active,
}
use gmail_visibility_manager.State.Records.RoundTrip.{unmarshal-marshal}
use gmail_visibility_manager.State.Tables.{
  find_request, find_grant, set_approved, set_denied, set_applied,
}
use gmail_visibility_manager.State.Tables.Laws.{
  find_request-update_request, find_request-id, Filtered, find_grant-set_filter_id,
}
use gmail_visibility_manager.State.Calls.{Host, Db, empty_db}
use gmail_visibility_manager.State.Operations.{granted_row}
use gmail_visibility_manager.State.Operations.Approve.{Approved}
use gmail_visibility_manager.State.Change.{
  Change, nothing, submitted, approved, denied, applied, filtered,
}
use gmail_visibility_manager.State.Change.Moves.{
  Moves, stay, approve, deny, apply, Later, set_applied-KeepsId, Change-Later,
}
use gmail_visibility_manager.State.Change.Consistent.{
  IsConsistent, IsFresh-IsConsistent, set_approved-IsConsistent, set_denied-IsConsistent,
  set_applied-IsConsistent, update-IsConsistent, append-IsConsistent,
}
use gmail_visibility_manager.State.Change.Upserts.{find_grant-upserted}

module _ ⦃std : Std⦄ where
  -- the approved request behind a grant
  pub record Justifies (rows : List RequestRow) (grant : GrantRow) : Type 0 where
    pub row : RequestRow
    pub found : find_request rows grant.created_from_request_id ≡ some row
    pub settled : row.status ≡ Status.approved ⊎ row.status ≡ Status.applied
    pub same_email : row.email ≡ grant.email
    pub same_labels :
        unmarshal_string_slice grant.classification_labels_json
        ≡ unmarshal_string_slice row.classification_labels_json
    pub same_approver : row.decided_by ≡ grant.approved_by
    pub active : grant.status ≡ status_active

  pub record IsSound (db : Db) : Type 0 where
    pub consistent :
        (k : Text) (row : RequestRow) → find_request db.requests k ≡ some row → IsConsistent row
    pub justified :
        (k : Text) (grant : GrantRow)
        → find_grant db.grants k ≡ some grant
        → Justifies db.requests grant

  pub empty-IsSound : IsSound empty_db
  unfolding find_request find_grant
  empty-IsSound = record { consistent = λ k row h. cc; justified = λ k g h. cc }

module _ ⦃std : Std⦄ where
  settled-Later :
      (a b : RequestRow)
      → Later a b
      → a.status ≡ Status.approved ⊎ a.status ≡ Status.applied
      → (b.status ≡ Status.approved ⊎ b.status ≡ Status.applied) × (a.status ≢ Status.pending)
  settled-Later a b l h = (moved a.status b.status l.moves h, λ e. ground arith)
    where
      moved :
          (s t : Status)
          → Moves s t
          → s ≡ Status.approved ⊎ s ≡ Status.applied
          → t ≡ Status.approved ⊎ t ≡ Status.applied
      moved s t stay h = h
      moved s t approve h = inl refl
      moved s t deny h = absurd (ground arith)
      moved s t apply h = inr refl

  Justifies-Later :
      (a b : List RequestRow) (grant : GrantRow)
      → ((k : Text) (row : RequestRow)
          → find_request a k ≡ some row
          → (row' : RequestRow) × (find_request b k ≡ some row') × Later row row')
      → Justifies a grant
      → Justifies b grant
  Justifies-Later a b grant keeps j =
      let (row', found, later) = keeps grant.created_from_request_id j.row j.found in
      let (settled, n) = settled-Later j.row row' later j.settled in
      record {
        row = row';
        found = found;
        settled = settled;
        same_email = later.frozen.email ∙ j.same_email;
        same_labels = j.same_labels ∙ ap unmarshal_string_slice (sym later.frozen.labels);
        same_approver = later.decided n ∙ j.same_approver;
        active = j.active;
      }

  Justifies-Filtered :
      (rows : List RequestRow) (a b : GrantRow) → Filtered a b → Justifies rows a → Justifies rows b
  Justifies-Filtered rows a b f j = record {
    row = j.row;
    found = rw f.source j.found;
    settled = j.settled;
    same_email = j.same_email ∙ sym f.email;
    same_labels = ap unmarshal_string_slice f.labels ∙ j.same_labels;
    same_approver = j.same_approver ∙ sym f.approved_by;
    active = f.status ∙ j.active;
  }

module _ ⦃std : Std⦄ where
  scan_request-parts :
      (row : RequestRow) (req : RequestRecord)
      → scan_request row ≡ ok req
      → (req.request_id ≡ row.request_id)
        × (req.email ≡ row.email)
        × (unmarshal_string_slice row.classification_labels_json ≡ ok req.classification_labels)
  unfolding scan_request
  scan_request-parts row req h =
      elim (Result-cases (unmarshal_string_slice row.classification_labels_json)) [
        | inl (ls, p) ↦ (ground arith, ground arith, ground arith)
        | inr (_, p) ↦ absurd (ground arith)
      ]

module _ ⦃std : Std⦄ ⦃host : Host⦄ (laws : StdLaws std) where
  -- what Approve granted is justified by the request that it marked approved
  granted-Justifies :
      (id approver label : Text) (a b : Db)
      → (d : Approved id approver label a b)
      → Justifies b.requests (granted_row d.req approver label d.effect.labels_json d.decided_at)
  unfolding set_approved
  granted-Justifies id approver label a b d =
      let e = d.effect in
      let parts = scan_request-parts e.row d.req e.scanned in
      let row_id = find_request-id a.requests id e.row e.found in
      record {
        row = set_approved approver d.decided_at e.row;
        found = ground (
          arith,
          e.requests,
          parts.0,
          row_id,
          ==_refl id,
          e.found,
          find_request-update_request (set_approved approver d.decided_at) a.requests id id
              (λ r. refl),
        );
        settled = inl refl;
        same_email = sym parts.1;
        same_labels =
            unmarshal-marshal laws d.req.classification_labels e.labels_json e.marshalled
            ∙ sym parts.2;
        same_approver = refl;
        active = refl;
      }

  pub Change-IsSound : (a b : Db) → Change a b → IsSound a → IsSound b
  Change-IsSound a b c s = record { consistent = consistent c; justified = justified c }
    where
      later :
          (k : Text) (row : RequestRow)
          → find_request a.requests k ≡ some row
          → (row' : RequestRow) × (find_request b.requests k ≡ some row') × Later row row'
      later k row h = Change-Later a b k row c h

      kept : (g : GrantRow) → Justifies a.requests g → Justifies b.requests g
      kept g j = Justifies-Later a.requests b.requests g later j

      consistent :
          Change a b
          → (k : Text) (row : RequestRow) → find_request b.requests k ≡ some row
          → IsConsistent row
      consistent (nothing t) k row h = s.consistent k row (rw t.requests at h)
      consistent (submitted new fresh n rs gs) k row h =
          append-IsConsistent a.requests new (IsFresh-IsConsistent new fresh) s.consistent k row
            (rw rs at h)
      consistent (approved id approver label d) k row h =
          let e = d.effect in
          update-IsConsistent (set_approved approver d.decided_at) a.requests id e.row
            (unfold set_approved in λ r. refl) e.found
            (set_approved-IsConsistent approver d.decided_at e.row e.pending d.named
              (s.consistent id e.row e.found))
            s.consistent k row (rw e.requests at h)
      consistent (denied id actor reason at found f p n rs gs) k row h =
          update-IsConsistent (set_denied actor reason at) a.requests id found
            (unfold set_denied in λ r. refl) f
            (set_denied-IsConsistent actor reason at found p n (s.consistent id found f))
            s.consistent k row (rw rs at h)
      consistent (applied id at found f p rs gs) k row h =
          update-IsConsistent (set_applied at) a.requests id found (set_applied-KeepsId at) f
            (set_applied-IsConsistent at found p (s.consistent id found f)) s.consistent k row
            (rw rs at h)
      consistent (filtered f at email rs gs) k row h = s.consistent k row (rw rs at h)

      justified :
          Change a b
          → (k : Text) (g : GrantRow) → find_grant b.grants k ≡ some g
          → Justifies b.requests g
      justified (nothing t) k g h = kept g (s.justified k g (rw t.grants at h))
      justified (submitted new fresh n rs gs) k g h = kept g (s.justified k g (rw gs at h))
      justified (approved id approver label d) k g h =
          let new = granted_row d.req approver label d.effect.labels_json d.decided_at in
          elim (find_grant-upserted new a.grants k g refl (rw d.effect.grants at h)) [
            | inl f ↦
                Justifies-Filtered b.requests new g f (granted-Justifies id approver label a b d)
            | inr old ↦ kept g (s.justified k g old)
          ]
      justified (denied id actor reason at found f p n rs gs) k g h =
          kept g (s.justified k g (rw gs at h))
      justified (applied id at found f p rs gs) k g h = kept g (s.justified k g (rw gs at h))
      justified (filtered f at email rs gs) k g h =
          let (before, found, same) =
            find_grant-set_filter_id f at email a.grants k g (rw gs at h) in
          Justifies-Filtered b.requests before g same (kept before (s.justified k before found))
