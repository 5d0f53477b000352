-- ===== src/State/Operations/Lists.antt =====
-- internal/state/state.go: the methods of Store that list requests and grants.
pub mod Order
use gmail_visibility_manager.Base.{
  ℕ, zero, suc, ℤ, pos, negsuc, take, List, [], ◌∷◌, ◌≡◌, refl, ap, Bool, true, false, All, map,
  arith, inl, inr, Bool-cases,
}
use gmail_visibility_manager.Text.{Text, text, ◌==◌, ==_iff, text_lt}
use gmail_visibility_manager.Text.Order.{text_lt_asymm, text_lt_not_trans}
use gmail_visibility_manager.Result.{Result, ok, err, >>=-eq-ok}
use gmail_visibility_manager.Sort.Less.{
  sort_less, IsOrdered, IsWeakOrder, sort_less-IsOrdered, sort_less-perm, sort_less-All,
}
use gmail_visibility_manager.Exec.{Exec, ◌>>=◌, ◌>>◌}
use gmail_visibility_manager.Std.{Std}
use gmail_visibility_manager.State.Records.{
  Status, RequestRecord, GrantRecord, RequestRow, GrantRow, scan_request, scan_grant, scan_requests,
  scan_grants, status_active, is_pending,
}
use gmail_visibility_manager.State.Tables.{pending_rows, active_rows}
use gmail_visibility_manager.State.Calls.{Host, Db, call}

-- ORDER BY received_at ASC, ORDER BY received_at DESC, and ORDER BY email ASC
abbrev pub received_before : RequestRow → RequestRow → Bool
received_before a b = text_lt a.received_at b.received_at

abbrev pub received_after : RequestRow → RequestRow → Bool
received_after a b = text_lt b.received_at a.received_at

abbrev pub email_before : GrantRow → GrantRow → Bool
email_before a b = text_lt a.email b.email

-- the limit of ListRecent behind its first lines
unfoldable pub recent_limit : ℤ → ℕ
recent_limit (pos zero) = 20
recent_limit (pos (suc n)) = suc n
recent_limit (negsuc n) = 20

module _ ⦃std : Std⦄ ⦃host : Host⦄ where
  unfoldable pub list_pending : Exec Db (List RequestRecord)
  unfolding call pending_rows
  list_pending = do
    call
    λ db. (scan_requests (sort_less received_before (pending_rows db.requests)), db)

  unfoldable pub list_recent : ℤ → Exec Db (List RequestRecord)
  unfolding call recent_limit
  list_recent limit = do
    call
    λ db. (scan_requests (take (recent_limit limit) (sort_less received_after db.requests)), db)

  unfoldable pub list_grants : Exec Db (List GrantRecord)
  unfolding call active_rows
  list_grants = do call; λ db. (scan_grants (sort_less email_before (active_rows db.grants)), db)
