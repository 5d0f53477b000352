-- ===== src/Gmail/Resolve.antt =====
-- internal/gmail/gmail.go: the ids of the labels of the grants.
use gmail_visibility_manager.Base.{List, [], ◌∷◌, ◌++◌, is_empty, if◌then◌else◌}
use gmail_visibility_manager.Text.{Text, text, trim_space}
use gmail_visibility_manager.Result.{Result, ok, err}
use gmail_visibility_manager.Exec.{Exec, lift, ◌>>=◌}
use gmail_visibility_manager.Dict.{Dict, lookup, insert, is_some}
use gmail_visibility_manager.Std.{Std}
use gmail_visibility_manager.Config.{normalize_label}
use gmail_visibility_manager.GmailFilter.{Spec}
use gmail_visibility_manager.Gmail.Api.{Api, Calls, label_name_to_id}
use gmail_visibility_manager.Gmail.Grouping.{text_at}

module _ ⦃std : Std⦄ where
  abbrev pub label_not_found : Text → Text
  label_not_found label =
      text "Gmail label "
      ++ (std.quote label ++ text " was not found; create it before reconciling")

  -- the loop of resolveLabelIDs; a missing key reads as ""
  unfoldable pub resolve_list : Dict Text → List Text → List Text → Result (List Text)
  unfolding text_at
  resolve_list names [] result = ok result
  resolve_list names (label ∷ labels) result =
      let id = text_at names (normalize_label label) in
      let rest = resolve_list names labels (result ++ id ∷ []) in
      if is_empty (trim_space id) then err (label_not_found label) else rest

  -- the loop of resolveLabelIDMap
  unfoldable pub resolve_map : Dict Text → List Text → Dict Text → Result (Dict Text)
  unfolding text_at
  resolve_map names [] result = ok result
  resolve_map names (label ∷ labels) result =
      let key = normalize_label label in
      let id = text_at names key in
      let known = is_some (lookup result key) in
      let rest =
        resolve_map names labels (if known then result else insert result key (trim_space id)) in
      if known then rest else if is_empty (trim_space id) then err (label_not_found label) else rest

  -- the ids of the labels of a filter, without those that are not known
  unfoldable pub label_ids_of : List Text → Dict Text → List Text
  unfolding text_at
  label_ids_of [] label_ids = []
  label_ids_of (label ∷ labels) label_ids =
      let rest = label_ids_of labels label_ids in
      let id = trim_space (text_at label_ids (normalize_label label)) in
      if is_empty id then rest else id ∷ rest

  unfoldable pub label_ids_for_spec : Spec → Dict Text → List Text
  unfolding label_ids_of
  label_ids_for_spec spec label_ids = label_ids_of spec.add_labels label_ids

  module _ ⦃api : Api⦄ where
    unfoldable pub resolve_label_ids : List Text → Exec Calls (List Text)
    unfolding resolve_list
    resolve_label_ids labels = do names ← label_name_to_id; lift (resolve_list names labels [])

    unfoldable pub resolve_label_id_map : List Text → Exec Calls (Dict Text)
    unfolding resolve_map
    resolve_label_id_map labels = do names ← label_name_to_id; lift (resolve_map names labels [])
