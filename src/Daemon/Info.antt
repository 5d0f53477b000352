-- ===== src/Daemon/Info.antt =====
-- internal/daemon/server.go and internal/rpc/envelope.go: the answer to system.info.
use gmail_visibility_manager.Base.{ℤ, List, [], ◌∷◌, Bool, true, false, if◌then◌else◌}
use gmail_visibility_manager.Text.{Text, text}
use gmail_visibility_manager.Request.{
  VisibilityRequest, schema_version_1, action_create_visibility_grant, action_update_grant_labels,
}
use gmail_visibility_manager.Config.{Config, is_blank}
use gmail_visibility_manager.Rpc.Envelope.{version_1}

abbrev pub method_system_ping : Text
method_system_ping = text "system.ping"

abbrev pub method_system_info : Text
method_system_info = text "system.info"

abbrev pub method_grant_submit : Text
method_grant_submit = text "grant.submit"

abbrev pub method_grant_lookup : Text
method_grant_lookup = text "grant.lookup"

abbrev pub method_grant_list : Text
method_grant_list = text "grant.list"

pub record VisibilityRequestGuidance : Type 0 where
  pub schema_version : Text
  pub actions : List Text
  pub required_fields : List Text
  pub optional_fields : List Text
  pub example : VisibilityRequest

pub record CommandGuidance : Type 0 where
  pub command : Text
  pub purpose : Text
  pub when_to_use : Text
  pub machine_safe : Bool

pub record ClientGuidance : Type 0 where
  pub purpose : Text
  pub socket_env : Text
  pub visibility_label : Text
  pub allowed_classification_labels : List Text
  pub request : VisibilityRequestGuidance
  pub commands : List CommandGuidance
  pub notes : List Text

pub record SystemInfo : Type 0 where
  pub service : Text
  pub instance_name : Text
  pub protocol_version : ℤ
  pub methods : List Text
  pub client : ClientGuidance

unfoldable pub first_allowed_label : List Text → Text
first_allowed_label [] = text "Kids/Activities"
first_allowed_label (label ∷ labels) = if is_blank label then first_allowed_label labels else label

unfoldable pub commands : List CommandGuidance
commands =
    record {
      command = text "gmail-visibility-manager client info";
      purpose = text "Print daemon capabilities, allowed labels, and request schema guidance.";
      when_to_use = [];
      machine_safe = true;
    }
    ∷ record {
      command = text "gmail-visibility-manager client lookup EMAIL";
      purpose = text "Check whether one exact sender already has an active Donna visibility grant.";
      when_to_use = [];
      machine_safe = true;
    }
    ∷ record {
      command = text "gmail-visibility-manager client grants list";
      purpose = text "List active Donna-visible sender grants.";
      when_to_use = [];
      machine_safe = true;
    }
    ∷ record {
      command =
          text
            "gmail-visibility-manager client sample-request --email EMAIL --label LABEL --rationale TEXT > request.json";
      purpose = text "Generate a strict request JSON file to inspect or submit.";
      when_to_use = [];
      machine_safe = true;
    }
    ∷ record {
      command = text "gmail-visibility-manager client submit request.json";
      purpose = text "Submit a visibility request for trusted human approval.";
      when_to_use =
          text
            "Only after checking lookup/grants and writing a narrow request for one exact sender.";
      machine_safe = false;
    }
    ∷ []

unfoldable pub notes : List Text
notes =
    text "Do not use this tool for reading Gmail. Use safe-gmail for visible mail after approval."
    ∷ text "Do not request Gmail query language, domains, wildcards, or multiple senders."
    ∷ text
        "Do not include the visibility label in classification_labels; the trusted manager adds it."
    ∷ text "Approval is human-gated. Submitting a request does not immediately change Gmail."
    ∷ text "Unknown JSON fields are rejected."
    ∷ []

unfoldable pub request_guidance : Config → VisibilityRequestGuidance
unfolding first_allowed_label
request_guidance cfg = record {
  schema_version = schema_version_1;
  actions = action_create_visibility_grant ∷ action_update_grant_labels ∷ [];
  required_fields = text "schema_version" ∷ text "requested_by" ∷ text "action" ∷ text "email" ∷ [];
  optional_fields =
      text "request_id" ∷ text "created_at" ∷ text "classification_labels" ∷ text "rationale" ∷ [];
  example = record {
    schema_version = schema_version_1;
    request_id = text "sender-visibility-grant-2026";
    created_at = [];
    requested_by = text "donna";
    action = action_create_visibility_grant;
    email = text "sender@example.com";
    classification_labels = first_allowed_label cfg.allowed_classification_labels ∷ [];
    rationale =
        text
          "Future messages from this exact sender should be visible to Donna for the named workflow.";
  };
}

unfoldable pub system_info : Config → SystemInfo
unfolding commands notes request_guidance
system_info cfg = record {
  service = text "gmail-visibility-manager";
  instance_name = cfg.instance_name;
  protocol_version = version_1;
  methods =
      method_system_ping ∷ method_system_info ∷ method_grant_submit ∷ method_grant_lookup
      ∷ method_grant_list ∷ [];
  client = record {
    purpose =
        text
          "Request trusted approval for future Gmail messages from one exact sender to become Donna-visible through safe-gmail.";
    socket_env = text "GMAIL_VISIBILITY_MANAGER_SOCKET";
    visibility_label = cfg.visibility_label;
    allowed_classification_labels = cfg.allowed_classification_labels;
    request = request_guidance cfg;
    commands = commands;
    notes = notes;
  };
}
