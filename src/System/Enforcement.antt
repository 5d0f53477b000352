-- ===== src/System/Enforcement.antt =====
-- internal/manager/manager.go and internal/gmail/gmail.go: an approval over the client itself.
use gmail_visibility_manager.Text.{Text}
use gmail_visibility_manager.Std.{Std}
use gmail_visibility_manager.Config.{Config}
use gmail_visibility_manager.State.Operations
use gmail_visibility_manager.Gmail.Api.{Api}
use gmail_visibility_manager.Manager.Approve
