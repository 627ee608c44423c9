-- ===== src/Examples/Data.antt =====
-- Small snapshots, and a codec whose bytes are texts.
use gpt_owu_bridge.Base.{String, List, [], ◌∷◌, none, some, true}
use gpt_owu_bridge.Base.Int.{pos}
use gpt_owu_bridge.Domain.{
  Message, SourceSnapshot, TargetMessage, TargetSnapshot, parser_version, source_chatgpt_share,
  evidence_unknown,
}
use gpt_owu_bridge.Domain.Hash.{Codec}

-- The digest is the text itself, and the bytes of a snapshot are its title.
abbrev pub plain_codec : Codec String
plain_codec = record {
  marshal_source = λ s. some s.title;
  unmarshal_source = λ b. none;
  marshal_target = λ t. some t.title;
  unmarshal_target = λ b. none;
  marshal_plan = λ p. some p.id;
  unmarshal_plan = λ b. none;
  marshal_identity = λ i. some i.candidate_id;
  unmarshal_identity = λ b. none;
  text = λ s. s;
  sha256_hex = λ b. b;
}

abbrev pub question : Message
question = record {
  id = "q";
  node_id = "n1";
  role = "user";
  channel = "";
  parts = "why?" ∷ [];
  parent_node_id = "";
  child_node_ids = "n2" ∷ [];
  order = pos 0;
  source_created_at = none;
}

abbrev pub answer : Message
answer = record {
  id = "a";
  node_id = "n2";
  role = "assistant";
  channel = "final";
  parts = "because" ∷ [];
  parent_node_id = "n1";
  child_node_ids = [];
  order = pos 1;
  source_created_at = none;
}

abbrev pub share : List Message → SourceSnapshot
share messages = record {
  source_type = source_chatgpt_share;
  identity = record { candidate_id = "c"; evidence = evidence_unknown; basis = "" };
  share_id = "s";
  title = "talk";
  messages = messages;
  current_node_id = "n2";
  source_created_at = none;
  fetched_at = 1;
  parser_version = parser_version;
  coverage = record {
    status = "supported_path_complete";
    selected_messages = 2;
    excluded_internal_nodes = 0;
    excluded_non_message_nodes = 0;
    unsupported = [];
    diagnostics = [];
    limitations = [];
  };
  business_hash = "";
}

abbrev pub target_question : TargetMessage
target_question = record {
  id = "tq";
  source_id = "q";
  role = "user";
  channel = "";
  parts = "why?" ∷ [];
  managed = true;
  order = pos 0;
}

abbrev pub chat : List TargetMessage → TargetSnapshot
chat messages = record {
  offline_simulation = true;
  title = "talk";
  messages = messages;
  current_message_id = "tq";
  business_hash = "";
}
