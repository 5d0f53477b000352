-- ===== src/Gmail/Reconcile/Complete.antt =====
-- internal/gmail/gmail.go: what ReconcileGrants without an error has done.
use gmail_visibility_manager.Base.{◌≡◌, false, is_empty}
use gmail_visibility_manager.Text.{Text}
use gmail_visibility_manager.Result.{Result, ok}
use gmail_visibility_manager.Dict.{Dict}
use gmail_visibility_manager.Std.{Std}
use gmail_visibility_manager.Request.{normalize_email}
use gmail_visibility_manager.State.Records.{GrantRecord}
use gmail_visibility_manager.Gmail.Api.{Api}
use gmail_visibility_manager.Gmail.Grouping.{CompiledGrant}

module _ ⦃std : Std⦄ where
  IsNormal : CompiledGrant → Type 0
  IsNormal item = normalize_email item.spec.from ≡ ok item.spec.from

  -- the address is in normal form, and there is a visibility label
  abbrev pub IsRegular : GrantRecord → Type 0
  IsRegular g = (normalize_email g.email ≡ ok g.email) × (is_empty g.visibility_label ≡ false)
