-- ===== src/Discord/Replies.antt =====
-- internal/discordbot/bot.go: the texts of the bot.
use gmail_visibility_manager.Base.{
  ℕ, zero, suc, ◌-◌, List, [], ◌∷◌, ◌++◌, Bool, true, false, ◌||◌, eqb, leb, ltb, is_empty, Option,
  none, some, map, if◌then◌else◌,
}
use gmail_visibility_manager.Text.{Text, text, trim_space, join, len, rune_len}
use gmail_visibility_manager.State.Records.{RequestRecord, GrantRecord, status_text}
use gmail_visibility_manager.Gmail.{ReconcileResult}
use gmail_visibility_manager.Manager.Approve.{Approval}

-- the replacement character, once for each byte of a rune that is cut
abbrev pub replacements : ℕ → Text
replacements zero = []
replacements (suc n) = 0xfffd ∷ replacements n

-- value[:n]; the bytes of a rune that is cut are no UTF-8, and go to Discord as replacement characters
unfoldable pub take_bytes : ℕ → Text → Text
take_bytes n [] = []
take_bytes n (r ∷ s) =
    let rest = take_bytes (n - rune_len r) s in
    if leb (rune_len r) n then r ∷ rest else replacements n

-- the two calls of strings.ReplaceAll
abbrev pub one_line : Text → Text
one_line = map (λ r. if eqb r 10 || eqb r 13 then 32 else r)

unfoldable pub escape_line : Text → Text
unfolding take_bytes
escape_line value =
    let line = trim_space (one_line value) in
    if is_empty line
    then text "(none)"
    else if ltb 500 (len line)
    then take_bytes 500 line ++ text "..."
    else line

abbrev pub commands_text : Text
commands_text =
    text "commands: pending, show <request-id>, approve <request-id>, deny <request-id> [reason]"

abbrev pub usage_show : Text → Text
usage_show prefix = text "usage: " ++ (prefix ++ text " show <request-id>")

abbrev pub usage_approve : Text → Text
usage_approve prefix = text "usage: " ++ (prefix ++ text " approve <request-id>")

abbrev pub usage_deny : Text → Text
usage_deny prefix = text "usage: " ++ (prefix ++ text " deny <request-id> [reason]")

unfoldable pub pending_line : RequestRecord → Text
pending_line r =
    text "`"
    ++ (r.request_id
        ++ (text "` `"
            ++ (r.email
                ++ (text "` labels=`" ++ (join r.classification_labels (text ",") ++ text "`")))))

-- the lines that `show` and the notification share
abbrev request_lines : RequestRecord → Text
request_lines r =
    text "\nSender: `"
    ++ (r.email
        ++ (text "`\nLabels: `"
            ++ (join r.classification_labels (text ", ")
                ++ (text "`\nRationale: " ++ escape_line r.rationale))))

unfoldable pub show_text : RequestRecord → Text
unfolding escape_line
show_text r =
    text "`"
    ++ (r.request_id
        ++ (text "` status=`" ++ (status_text r.status ++ (text "`" ++ request_lines r))))

unfoldable pub pending_text : Text → RequestRecord → Text
unfolding escape_line
pending_text prefix r =
    text "Pending Gmail visibility request `"
    ++ (r.request_id
        ++ (text "`"
            ++ (request_lines r
                ++ (text "\nUse `"
                    ++ (prefix
                        ++ (text " approve "
                            ++ (r.request_id
                                ++ (text "` or `"
                                    ++ (prefix
                                        ++ (text " deny "
                                            ++ (r.request_id ++ text " <reason>`.")))))))))))

-- the status of the reconciliation, with its message where the approval failed
unfoldable pub gmail_extra : Bool → Option ReconcileResult → Text
unfolding escape_line
gmail_extra with_message none = []
gmail_extra with_message (some result) =
    text "\nGmail: `"
    ++ (result.status
        ++ (text "`"
            ++ (if with_message
                then (if is_empty (trim_space result.message)
                    then []
                    else text " - " ++ escape_line result.message)
                else [])))

-- the zero value where Approve returns no grant
abbrev pub grant_email : Option GrantRecord → Text
grant_email none = []
grant_email (some grant) = grant.email

abbrev pub grant_labels : Option GrantRecord → List Text
grant_labels none = []
grant_labels (some grant) = grant.classification_labels

unfoldable pub approval_text : Text → Approval → Text
unfolding gmail_extra escape_line
approval_text request_id a = elim a.error [
  | some e ↦
      if is_empty (grant_email a.grant)
      then text "error: " ++ e
      else text "Approved `"
        ++ (request_id
            ++ (text "` for `"
                ++ (grant_email a.grant
                    ++ (text "`, but Gmail reconciliation failed: "
                        ++ (escape_line e ++ gmail_extra true a.reconciled)))))
  | none ↦
      text "Approved `"
      ++ (request_id
          ++ (text "` for `"
              ++ (grant_email a.grant
                  ++ (text "` with labels `"
                      ++ (join (grant_labels a.grant) (text ", ")
                          ++ (text "`." ++ gmail_extra false a.reconciled))))))
]
