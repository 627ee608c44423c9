-- ===== src/Domain/Hash.antt =====
-- The business hashes of internal/domain/types.go over an external codec: encoding/json and
-- crypto/sha256 are packages of Go's library, and enter as the record `Codec`.
use gpt_owu_bridge.Base.{String, Option, none, some, []}
use gpt_owu_bridge.Domain.{SourceSnapshot, TargetSnapshot, SourceIdentity, SyncPlan}

-- `marshal_x` is `json.Marshal` at a type, with none for its error; `unmarshal_x` is
-- `json.Unmarshal`; `valid` is `json.Valid`; `sha256_hex` is the lower-case hexadecimal digest.
pub record Codec (Bytes : Type 0) : Type 0 where
  pub marshal_source : SourceSnapshot → Option Bytes
  pub unmarshal_source : Bytes → Option SourceSnapshot
  pub marshal_target : TargetSnapshot → Option Bytes
  pub unmarshal_target : Bytes → Option TargetSnapshot
  pub marshal_plan : SyncPlan → Option Bytes
  pub unmarshal_plan : Bytes → Option SyncPlan
  pub marshal_identity : SourceIdentity → Option Bytes
  pub unmarshal_identity : Bytes → Option SourceIdentity
  pub text : String → Bytes
  pub sha256_hex : Bytes → String

-- The copy that the hash of a source snapshot is taken of.
unfoldable pub hashed_source : SourceSnapshot → SourceSnapshot
hashed_source s = record s {
  fetched_at = 0;
  business_hash = "";
  coverage = record (s.coverage) {
    diagnostics = [];
    excluded_internal_nodes = 0;
    excluded_non_message_nodes = 0;
  };
}

unfoldable pub hashed_target : TargetSnapshot → TargetSnapshot
hashed_target t = record t { business_hash = "" }

module _ {Bytes : Type 0} (c : Codec Bytes) where
  abbrev sum : Option Bytes → Option String
  sum none = none
  sum (some b) = some (c.sha256_hex b)

  -- `SourceSnapshot.ComputeHash`; none is the error of the encoder.
  unfoldable pub source_hash : SourceSnapshot → Option String
  source_hash s = sum (c.marshal_source (hashed_source s))

  -- `TargetSnapshot.ComputeHash`.
  unfoldable pub target_hash : TargetSnapshot → Option String
  target_hash t = sum (c.marshal_target (hashed_target t))
