-- ===== src/Examples/World.antt =====
-- A target that keeps one chat, and a service on it.
use gpt_owu_bridge.Base.{String, List, [], ◌∷◌, map, some, true, false, ok, joined}
use gpt_owu_bridge.Base.Int.{pos}
use gpt_owu_bridge.Domain.{Message, SourceSnapshot, TargetMessage}
use gpt_owu_bridge.Owu.{Snapshot, Documents}
use gpt_owu_bridge.Syncer.Types.{none_met, Environment, Service}
use gpt_owu_bridge.Syncer.Service.{Request, preview_request, apply_request, recover_request}
use gpt_owu_bridge.Examples.Data.{question, answer, share}
use gpt_owu_bridge.Examples.Store.{Payload, of_text, platform, home}

-- The chat, what the next id ends with, and how the next calls of the store go.
pub record Remote : Type 0 where
  pub seed : String
  pub chat : Snapshot Payload

abbrev target_message : Message → TargetMessage
target_message m = record {
  id = joined ("t" ∷ m.id ∷ []);
  source_id = m.id;
  role = m.role;
  channel = m.channel;
  parts = m.parts;
  managed = true;
  order = m.order;
}

abbrev built : SourceSnapshot → Snapshot Payload
built s = record {
  chat_id = "";
  owner_id = "";
  archived = false;
  pinned = false;
  folder_id = "";
  chat_updated_at = pos 0;
  normalized = record {
    offline_simulation = false;
    title = s.title;
    messages = map target_message s.messages;
    current_message_id = "tq";
    business_hash = "";
  };
  raw_chat = of_text "{}";
  raw_envelope = of_text "{}";
  conflict_hash = s.title;
}

abbrev hosted : Snapshot Payload → Snapshot Payload
hosted s = record s { chat_id = "t"; owner_id = "acc" }

abbrev documents : Documents Payload
documents = record {
  build_snapshot = λ s previous. some (built s);
  marked = λ bytes id new. true;
  comparable_chats = λ a b. some (a, b);
  comparable_envelope = λ a. some a;
  is_empty = λ a. false;
  equal = λ a b. true;
}

abbrev environment : Environment Payload Remote
environment = record {
  now = λ r. (5, r);
  new_id =
      λ prefix r. (joined (prefix ∷ r.seed ∷ []), record r { seed = joined ("'" ∷ r.seed ∷ []) });
  fault = λ r. (none_met, r);
  verify_identity = λ r. (
    some (record {
      site_id = "site";
      deployment_id = "";
      account_id = "acc";
      version = "";
      email = "";
      name = "";
      role = "";
    }),
    r,
  );
  create = λ request r. (
    ok (record { target_id = "t"; snapshot = hosted request.snapshot }),
    record r { chat = hosted request.snapshot },
  );
  read = λ id r. (some r.chat, r);
  update = λ id request r. (
    ok (record { snapshot = hosted request.snapshot }),
    record r { chat = hosted request.snapshot },
  );
}

abbrev pub service : Service Payload Remote
service = record {
  platform = platform;
  documents = documents;
  marshal_payload = λ p. some (of_text p.source_snapshot_hash);
  decimal = λ n. "1";
  environment = environment;
  has_store = true;
  has_target = true;
  installation = home;
  plan_ttl = 100;
  stable_ids = true;
}

abbrev pub short_share : SourceSnapshot
short_share = share (question ∷ [])

abbrev pub long_share : SourceSnapshot
long_share = record (share (question ∷ answer ∷ [])) { title = "longer talk" }

abbrev pub start : Remote
start = record { seed = ""; chat = built short_share }

abbrev pub creating : List Request
creating = preview_request "me" short_share "" ∷ apply_request "me" "plan" true ∷ []

abbrev pub requests : List Request
requests =
    preview_request "me" short_share ""
    ∷ apply_request "me" "plan" true
    ∷ preview_request "me" long_share "binding''"
    ∷ apply_request "me" "plan'''" true
    ∷ recover_request "me" "op''''"
    ∷ []
