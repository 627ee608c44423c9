-- ===== src/Diff/Validate.antt =====
-- internal/diff/preview.go: `validateSource` and `validateTarget`.
use gpt_owu_bridge.Base.{
  ℕ, String, List, [], ◌∷◌, not, ◌&&◌, ◌==◌, text_eq, if◌then◌else◌, contains, Result, ok, err,
  ◌>>=◌, nat_eq, suc,
}
use gpt_owu_bridge.Base.Int.{ℤ, negsuc, is_negative, leb_ℤ}
use gpt_owu_bridge.Domain.{Message, SourceSnapshot, TargetMessage, TargetSnapshot}

pub data SourceError : Type 0 where
  empty_source_id : SourceError
  duplicate_source_id : String → SourceError

-- The loop over the messages, with the ids seen so far.
unfoldable pub validate_messages : List String → List Message → Result SourceError (Unit {0})
validate_messages seen [] = ok tt
validate_messages seen (message ∷ rest) =
    let next = validate_messages (message.id ∷ seen) rest in
    if message.id == ""
    then err empty_source_id
    else if contains seen message.id
    then err (duplicate_source_id message.id)
    else next

unfoldable pub validate_source : SourceSnapshot → Result SourceError (Unit {0})
validate_source snapshot = validate_messages [] snapshot.messages

pub data TargetError : Type 0 where
  empty_target_id order_not_increasing managed_without_source : TargetError
  duplicate_target_id negative_order duplicate_managed_source current_missing : String → TargetError

-- What the loop over the target's messages carries.
pub record Seen : Type 0 where
  pub ids : List String
  pub sources : List String
  pub last_order : ℤ
  pub index : ℕ

abbrev pub nothing_seen : Seen
nothing_seen = record { ids = []; sources = []; last_order = negsuc 0; index = 0 }

-- The last test of one round, on a managed message.
unfoldable pub validate_managed : Seen → TargetMessage → Result TargetError Seen
validate_managed seen message =
    if not message.managed
    then ok seen
    else if message.source_id == ""
    then err managed_without_source
    else if contains seen.sources message.source_id
    then err (duplicate_managed_source message.source_id)
    else ok (record seen { sources = message.source_id ∷ seen.sources })

-- One round of the loop.
unfoldable pub validate_one : Seen → TargetMessage → Result TargetError Seen
unfolding validate_managed
validate_one seen message =
    if message.id == ""
    then err empty_target_id
    else if contains seen.ids message.id
    then err (duplicate_target_id message.id)
    else if is_negative message.order
    then err (negative_order message.id)
    else if not (seen.index == 0) && leb_ℤ message.order seen.last_order
    then err order_not_increasing
    else validate_managed
        (record seen {
          ids = message.id ∷ seen.ids;
          last_order = message.order;
          index = suc seen.index;
        })
        message

unfoldable pub validate_all : Seen → List TargetMessage → Result TargetError Seen
validate_all seen [] = ok seen
validate_all seen (message ∷ rest) = validate_one seen message >>= λ s. validate_all s rest

unfoldable pub validate_target : TargetSnapshot → Result TargetError (Unit {0})
validate_target snapshot = validate_all nothing_seen snapshot.messages >>= λ seen.
    if not (snapshot.current_message_id == "")
      && not (contains seen.ids snapshot.current_message_id)
    then err (current_missing snapshot.current_message_id)
    else ok tt
