-- ===== src/Owu.antt =====
-- internal/owu: the chats of Open WebUI as the synchronisation sees them. What edits and reads the
-- JSON of a chat document is an interface, `Documents`.
use gpt_owu_bridge.Base.{
  String, Option, none, some, Bool, true, false, not, ◌&&◌, ◌||◌, ◌==◌, text_eq, bool_eq,
  if◌then◌else◌,
}
use gpt_owu_bridge.Base.Int.{ℤ}
use gpt_owu_bridge.Domain.{SourceSnapshot, TargetSnapshot}

pub record Snapshot (Bytes : Type 0) : Type 0 where
  pub chat_id : String
  pub owner_id : String
  pub archived : Bool
  pub pinned : Bool
  pub folder_id : String
  pub chat_updated_at : ℤ
  pub normalized : TargetSnapshot
  pub raw_chat : Bytes
  pub raw_envelope : Bytes
  pub conflict_hash : String

pub record Identity : Type 0 where
  pub site_id : String
  pub deployment_id : String
  pub account_id : String
  pub version : String
  pub email : String
  pub name : String
  pub role : String

pub record OwuCreateRequest (Bytes : Type 0) : Type 0 where
  pub operation_id : String
  pub snapshot : Snapshot Bytes

pub record CreateReceipt (Bytes : Type 0) : Type 0 where
  pub target_id : String
  pub snapshot : Snapshot Bytes

pub record UpdateRequest (Bytes : Type 0) : Type 0 where
  pub operation_id : String
  pub snapshot : Snapshot Bytes

pub record UpdateReceipt (Bytes : Type 0) : Type 0 where
  pub snapshot : Snapshot Bytes

-- The errors of a write, by what `IsOutcomeUnknown` says of them.
pub data WriteError : Type 0 where
  outcome_unknown definite : WriteError

-- `BuildSnapshot`, `hasOperationMarker`, `comparableChats` and `comparableEnvelope`, with none for
-- their errors, and what they share with Go's library: `len` and `bytes.Equal`.
pub record Documents (Bytes : Type 0) : Type 0 where
  pub build_snapshot : SourceSnapshot → Option (Snapshot Bytes) → Option (Snapshot Bytes)
  pub marked : Bytes → String → Bool → Bool
  pub comparable_chats : Bytes → Bytes → Option (Bytes × Bytes)
  pub comparable_envelope : Bytes → Option Bytes
  pub is_empty : Bytes → Bool
  pub equal : Bytes → Bytes → Bool

module _ {Bytes : Type 0} (d : Documents Bytes) where
  abbrev equal_chats : Option (Bytes × Bytes) → Bool
  equal_chats none = false
  equal_chats (some (actual, expected)) = d.equal actual expected

  abbrev equal_envelopes : Option Bytes → Option Bytes → Bool
  equal_envelopes (some actual) (some expected) = d.equal actual expected
  equal_envelopes none _ = false
  equal_envelopes (some actual) none = false

  -- `MatchSnapshot`.
  unfoldable pub match_snapshot : Snapshot Bytes → Snapshot Bytes → Bool
  match_snapshot actual expected =
      if not (expected.chat_id == "") && not (actual.chat_id == expected.chat_id)
        || not (expected.owner_id == "") && not (actual.owner_id == expected.owner_id)
        || not (actual.archived == expected.archived)
        || not (actual.pinned == expected.pinned)
        || not (actual.folder_id == expected.folder_id)
      then false
      else if not (equal_chats (d.comparable_chats actual.raw_chat expected.raw_chat))
      then false
      else if d.is_empty expected.raw_envelope
      then true
      else equal_envelopes (d.comparable_envelope actual.raw_envelope)
          (d.comparable_envelope expected.raw_envelope)

  -- `HasOperationMarker`.
  unfoldable pub has_operation_marker : Snapshot Bytes → String → Bool → Bool
  has_operation_marker s id create = d.marked s.raw_chat id create
