-- ===== src/State/Change/Upserts.antt =====
-- internal/state/state.go: the grants behind an upsert.
use mathlib.Core.Path.{subst}
use gmail_visibility_manager.Base.{
  List, ◌≡◌, ◌⊎◌, refl, sym, ◌∙◌, some, arith, Bool-cases, Option-cases, inl, inr,
}
use gmail_visibility_manager.Text.{Text, ◌==◌, ==_iff}
use gmail_visibility_manager.State.Records.{GrantRow, status_active}
use gmail_visibility_manager.State.Tables.{find_grant, upsert_grant, overwrite_grant}
use gmail_visibility_manager.State.Tables.Laws.{find_grant-upsert_grant, find_grant-email, Filtered}

pub overwrite_grant-Filtered :
    (new old : GrantRow)
    → old.email ≡ new.email
    → new.status ≡ status_active
    → Filtered new (overwrite_grant new old)
unfolding overwrite_grant
overwrite_grant-Filtered new old e s = record {
  email = e;
  visibility_label = refl;
  labels = refl;
  status = sym s;
  source = refl;
  approved_by = refl;
}

-- the grant that an upsert leaves under a key: the new one but for what an older one keeps, or an old one
pub find_grant-upserted :
    (new : GrantRow) (rows : List GrantRow) (k : Text) (g : GrantRow)
    → new.status ≡ status_active
    → find_grant (upsert_grant new rows) k ≡ some g
    → Filtered new g ⊎ (find_grant rows k ≡ some g)
find_grant-upserted new rows k g s h = elim (Bool-cases (new.email == k)) [
  | inr other ↦ inr (ground (arith, find_grant-upsert_grant new rows k))
  | inl same ↦ elim (Option-cases (find_grant rows k)) [
    | inl p ↦
        let e : new ≡ g = ground (arith, find_grant-upsert_grant new rows k) in
        inl (subst (Filtered new) e (ground arith))
    | inr (old, p) ↦
        let e : overwrite_grant new old ≡ g = ground (arith, find_grant-upsert_grant new rows k) in
        let key : old.email ≡ new.email =
          find_grant-email rows k old p ∙ sym ((==_iff new.email k).0 same) in
        inl (subst (Filtered new) e (overwrite_grant-Filtered new old key s))
  ]
]
