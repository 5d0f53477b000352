-- ===== src/Gmail/Api.antt =====
-- internal/gmail/gmail.go: the calls of the Gmail API that the client makes. Gmail itself is a
-- parameter: its answer to a call depends in any way on the calls before it.
pub mod Log
use gmail_visibility_manager.Base.{
  ℕ, ◌<◌, ◌≡◌, ℤ, pos, List, [], ◌∷◌, ◌++◌, Bool, true, false, ◌||◌, Option, none, some, is_empty,
  if◌then◌else◌,
}
use gmail_visibility_manager.Text.{Text, text, trim_space}
use gmail_visibility_manager.Result.{Result, ok, err}
use gmail_visibility_manager.Exec.{Exec, wrap, wrap_result, pure, lift, ◌>>=◌, continue}
use gmail_visibility_manager.Dict.{Dict, insert}
use gmail_visibility_manager.Std.{Std}
use gmail_visibility_manager.Config.{normalize_label}
use gmail_visibility_manager.Gmail.Senders.{format_exact_sender_group}

-- the types of the package gmail/v1, with the fields that the client reads or writes; a pointer
-- that may be nil is an option
pub record Criteria : Type 0 where
  pub from : Text
  pub query : Text
  pub negated_query : Text
  pub to : Text
  pub subject : Text
  pub has_attachment : Bool
  pub exclude_chats : Bool
  pub size : ℤ
  pub size_comparison : Text

pub record Action : Type 0 where
  pub add_label_ids : List Text
  pub remove_label_ids : List Text
  pub forward : Text

pub record Filter : Type 0 where
  pub id : Text
  pub criteria : Option Criteria
  pub action : Option Action

pub record Label : Type 0 where
  pub id : Text
  pub name : Text

-- a call with what it sends
pub data Call : Type 0 where
  list_label_names : Call
  list_all_filters : Call
  create_filter : Filter → Call
  remove_filter : (id : Text) → Call
  list_messages : (query page_token : Text) → Call
  batch_modify : (ids add_label_ids : List Text) → Call

-- the calls so far, the last one first
abbrev pub Calls : Type 0
Calls = List Call

-- What Gmail answers. The request for a page sends the query and the token of the page, the empty one
-- for the first page, and is answered by the ids on it and the token of the next page. A search has
-- finitely many pages: there is a bound on how many follow the page of a token, whatever is called
-- in between.
pub record Api : Type 0 where
  pub labels : Calls → Result (List (Option Label))
  pub filters : Calls → Result (List (Option Filter))
  -- the id of the new filter
  pub create : Calls → Filter → Result Text
  pub delete : Calls → Text → Result (Unit {0})
  pub messages : Calls → (query token : Text) → Result (List (Option Text) × Text)
  pub pages_left : (query token : Text) → ℕ
  pub advances :
      (calls : Calls) (query token : Text) (ids : List (Option Text)) (next : Text)
      → messages calls query token ≡ ok (ids, next)
      → is_empty (trim_space next) ≡ false
      → pages_left query (trim_space next) < pages_left query token
  pub modify : Calls → List Text → List Text → Result (Unit {0})

-- a call with its answer
abbrev pub request : {A : Type 0} → Call → (Calls → Result A) → Exec Calls A
request call answer calls = (answer calls, call ∷ calls)

-- the filter that the client creates: one criterion and one label
unfoldable pub sender_filter : Text → Text → Filter
sender_filter from label_id = record {
  id = [];
  criteria = some (record {
    from = from;
    query = [];
    negated_query = [];
    to = [];
    subject = [];
    has_attachment = false;
    exclude_chats = false;
    size = pos 0;
    size_comparison = [];
  });
  action = some (record { add_label_ids = label_id ∷ []; remove_label_ids = []; forward = [] });
}

-- `if strings.TrimSpace(created.Id) == ""`
abbrev pub checked_id : Text → Text → Result Text
checked_id prefix id =
    if is_empty (trim_space id)
    then err (prefix ++ text "Gmail returned empty filter id")
    else ok (trim_space id)

module _ ⦃api : Api⦄ where
  unfoldable pub list_filters : Exec Calls (List (Option Filter))
  list_filters = wrap (text "list gmail filters: ") (request list_all_filters api.filters)

  -- the request for a new filter, and the check of its id
  unfoldable pub create_checked : Text → Filter → Exec Calls Text
  create_checked prefix filter = do
    id ← wrap prefix (request (create_filter filter) (λ calls. api.create calls filter))
    lift (checked_id prefix id)

  unfoldable pub create_managed_label_filter : Text → Text → Exec Calls Text
  unfolding sender_filter create_checked
  create_managed_label_filter from label_id =
      create_checked (text "create gmail filter: ") (sender_filter from label_id)

  unfoldable pub delete_filter : Text → Exec Calls (Unit {0})
  delete_filter filter_id =
      let id = trim_space filter_id in
      if is_empty id
      then lift (err (text "delete gmail filter: filter id is required"))
      else wrap (text "delete gmail filter " ++ (id ++ text ": "))
          (request (remove_filter id) (λ calls. api.delete calls id))

module _ ⦃std : Std⦄ where
  -- the loop of LabelNameToID
  unfoldable pub name_labels : List (Option Label) → Dict Text → Dict Text
  name_labels [] result = result
  name_labels (none ∷ labels) result = name_labels labels result
  name_labels (some label ∷ labels) result = name_labels labels (
      if is_empty (trim_space label.id) || is_empty (trim_space label.name)
      then result
      else insert result (normalize_label label.name) (trim_space label.id))

  module _ ⦃api : Api⦄ where
    unfoldable pub label_name_to_id : Exec Calls (Dict Text)
    unfolding name_labels
    label_name_to_id = do
      labels ← wrap (text "list gmail labels: ") (request list_label_names api.labels)
      pure (name_labels labels [])

    unfoldable pub create_managed_visibility_group_filter : List Text → Text → Exec Calls Text
    unfolding sender_filter create_checked
    create_managed_visibility_group_filter senders label_id =
        let from = format_exact_sender_group senders in
        let prefix = text "create gmail visibility filter: " in
        if is_empty from
        then lift (err (prefix ++ text "at least one sender is required"))
        else create_checked prefix (sender_filter from label_id)
