-- ===== src/Source/Scan.antt =====
-- internal/source/chatgpt/parser.go: the loop of `buildSnapshot` over the nodes of the conversation.
use gpt_owu_bridge.Base.{
  ℕ, suc, ◌+◌, String, List, [], ◌∷◌, ◌++◌, Map, length, Option, none, some, Bool, not, ◌&&◌, ◌||◌,
  ◌==◌, text_eq, if◌then◌else◌, ltb, contains, Result, ok, ◌>>=◌, ◌>>◌, refuse_if,
}
use gpt_owu_bridge.Base.Int.{pos}
use gpt_owu_bridge.Domain.{Message, Coverage, ContentDiagnostic}
use gpt_owu_bridge.Source.Values.{
  Value, Library, Limits, as_text, as_array, as_object, at, text_at, object_at, is_null, texts,
  parse_time, hidden, internal_recipient, auxiliary_content_type,
}
use gpt_owu_bridge.Source.Graph.{or_refuse}
use gpt_owu_bridge.Source.Citations.{degrade_citations}

-- What the loop carries.
pub record Scan : Type 0 where
  pub messages : List Message
  pub ids : List String
  pub coverage : Coverage
  pub parts : ℕ
  pub text_bytes : ℕ

-- What is reported of a message: its id or that of its node, the node, its role and its type.
pub record Subject : Type 0 where
  pub source_id : String
  pub node_id : String
  pub role : String
  pub content_type : String

abbrev pub or_unknown_text : String → String
or_unknown_text s = if s == "" then "unknown" else s

abbrev pub diagnosed : ContentDiagnostic → Scan → Scan
diagnosed d scan = record scan {
  coverage = record (scan.coverage) { diagnostics = scan.coverage.diagnostics ++ d ∷ [] };
}

-- A node without a message.
abbrev pub without_message : String → Scan → Scan
without_message node_id scan =
    diagnosed
      (record {
        source_id = node_id;
        node_id = node_id;
        role = "none";
        content_type = "non_message";
        disposition = "ignored";
        detail = "conversation structure node has no message payload";
      })
      (record scan {
        coverage = record (scan.coverage) {
          excluded_non_message_nodes = suc scan.coverage.excluded_non_message_nodes;
        };
      })

-- A message that is left out.
abbrev pub ignored : Subject → String → Scan → Scan
ignored subject detail scan =
    diagnosed
      (record {
        source_id = subject.source_id;
        node_id = subject.node_id;
        role = or_unknown_text subject.role;
        content_type = or_unknown_text subject.content_type;
        disposition = "ignored";
        detail = detail;
      })
      (record scan {
        coverage = record (scan.coverage) {
          excluded_internal_nodes = suc scan.coverage.excluded_internal_nodes;
        };
      })

-- `blockVisible`.
unfoldable pub block_visible : Subject → String → String → Scan → Scan
block_visible subject kind detail scan =
    diagnosed
      (record {
        source_id = subject.source_id;
        node_id = subject.node_id;
        role = or_unknown_text subject.role;
        content_type = or_unknown_text subject.content_type;
        disposition = "blocked";
        detail = detail;
      })
      (record scan {
        coverage = record (scan.coverage) {
          unsupported =
              scan.coverage.unsupported
              ++ record { node_id = subject.node_id; kind = kind; detail = detail } ∷ [];
        };
      })

abbrev pub last_node : List Message → String
last_node [] = ""
last_node (m ∷ []) = m.node_id
last_node (m ∷ n ∷ ns) = last_node (n ∷ ns)

-- A message at the end, which the message before names as its child.
unfoldable pub append_message : List Message → Message → List Message
append_message [] new = new ∷ []
append_message (m ∷ []) new = record m { child_node_ids = new.node_id ∷ [] } ∷ new ∷ []
append_message (m ∷ n ∷ ns) new = m ∷ append_message (n ∷ ns) new

abbrev pub total_length : Library → List String → ℕ
total_length l [] = 0
total_length l (s ∷ ss) = l.text_length s + total_length l ss

abbrev pub degraded_if : Bool → Subject → Scan → Scan
degraded_if degraded subject scan =
    if degraded
    then diagnosed
        (record {
          source_id = subject.source_id;
          node_id = subject.node_id;
          role = subject.role;
          content_type = "citation";
          disposition = "degraded";
          detail = "native citation markers were converted to Markdown links or source labels";
        })
        scan
    else scan

-- `if !ok { blockVisible(…); continue }`.
abbrev pub or_report {ℓ} :
    {A : Type ℓ} → Option A → Scan → (A → Result String Scan) → Result String Scan
or_report none blocked next = ok blocked
or_report (some a) blocked next = next a

module _ (l : Library) (limits : Limits) where
  -- A visible message with its texts.
  unfoldable pub add_message :
      Subject → Map Value → String → List String → Scan → Result String Scan
  add_message subject message channel given scan = do
    let (parts, degraded) = degrade_citations l given (object_at message "metadata")
    let text_bytes = scan.text_bytes + total_length l parts
    let id = text_at message "id"
    refuse_if (ltb limits.max_parts scan.parts || ltb limits.max_text_bytes text_bytes)
        "message content exceeds resource limits"
    refuse_if (id == "") "visible message has no independent id"
    refuse_if (contains scan.ids id) "duplicate visible message id"
    ok (record (degraded_if degraded subject scan) {
      ids = scan.ids ++ id ∷ [];
      text_bytes = text_bytes;
      messages = append_message scan.messages (record {
        id = id;
        node_id = subject.node_id;
        role = subject.role;
        channel = channel;
        parts = parts;
        parent_node_id = last_node scan.messages;
        child_node_ids = [];
        order = pos (length scan.messages);
        source_created_at = parse_time l (at message "create_time");
      });
    })

  -- A visible message with an array of parts.
  unfoldable pub take_parts : Subject → Map Value → String → List Value → Scan → Result String Scan
  take_parts subject message channel raw scan = do
    let counted = record scan { parts = scan.parts + length raw }
    refuse_if (ltb limits.max_parts counted.parts) "message content exceeds resource limits"
    or_report (texts raw)
        (block_visible subject "parts" "user-visible text message contains a non-string part"
          counted)
        λ parts. add_message subject message channel parts counted

  abbrev pub channel_of : Value → Option String
  channel_of raw = if is_null raw then some "" else as_text raw

  -- A visible message on a channel that is a text.
  unfoldable pub take_content : Subject → Map Value → String → Scan → Result String Scan
  take_content subject message channel scan =
      if not (channel == "") && not (channel == "final") && not (channel == "commentary")
      then ok (block_visible subject "channel" "visible role uses an unsupported channel" scan)
      else or_report (as_object (at message "content"))
          (block_visible subject "content_type" "user-visible message is not supported text content"
            scan)
          λ content.
            if not (subject.content_type == "text")
            then ok (
                block_visible subject "content_type"
                  "user-visible message is not supported text content" scan)
            else or_report (as_array (at content "parts"))
                (block_visible subject "parts" "user-visible text parts are missing or not an array"
                  scan)
                (λ raw. take_parts subject message channel raw scan)

  abbrev pub subject_of : String → Map Value → Subject
  subject_of node_id message = record {
    source_id = if text_at message "id" == "" then node_id else text_at message "id";
    node_id = node_id;
    role = text_at (object_at message "author") "role";
    content_type = text_at (object_at message "content") "content_type";
  }

  -- A message of a node.
  unfoldable pub scan_message : String → Map Value → Scan → Result String Scan
  scan_message node_id message scan =
      let subject = subject_of node_id message in
      if not (subject.role == "user") && not (subject.role == "assistant")
      then ok (ignored subject "non-user/assistant auxiliary node" scan)
      else if hidden message
      then ok (ignored subject "message is marked visually hidden" scan)
      else if internal_recipient message
      then ok (ignored subject "message is addressed to an internal tool recipient" scan)
      else if auxiliary_content_type subject.content_type
      then ok (ignored subject "auxiliary context, reasoning, browsing, or quotation node" scan)
      else or_report (channel_of (at message "channel"))
          (block_visible subject "channel" "visible role uses a non-string channel" scan)
          (λ channel. take_content subject message channel scan)

  unfoldable pub scan_node : String × Map Value → Scan → Result String Scan
  scan_node (node_id, node) scan =
      if is_null (at node "message")
      then ok (without_message node_id scan)
      else (or_refuse (as_object (at node "message")) "message is not an object" >>= λ message.
          scan_message node_id message scan)

  -- The loop.
  unfoldable pub scan_nodes : List (String × Map Value) → Scan → Result String Scan
  scan_nodes [] scan = ok scan
  scan_nodes (node ∷ rest) scan = do next ← scan_node node scan; scan_nodes rest next
