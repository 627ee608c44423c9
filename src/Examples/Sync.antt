-- ===== src/Examples/Sync.antt =====
-- The theorems on the service, at a history that creates a chat, updates it and asks for a recovery.
use mathlib.Core.List.{Nodup}
use gpt_owu_bridge.Base.{◌≡◌, refl, map, All, [], true, differ, arith, find_first, Text-discrete}
use gpt_owu_bridge.Storage.Tables.{find_operation}
use gpt_owu_bridge.Syncer.Types.{World, operation_of}
use gpt_owu_bridge.Syncer.Service.{
  preview_request, apply_request, serve, history, new_world, recover_operation,
}
use gpt_owu_bridge.Syncer.Sound.{Permitted, Recorded}
use gpt_owu_bridge.Syncer.Writes.{history-Nodup, history-Permitted, history-Recorded}
use gpt_owu_bridge.Syncer.Quiet.{serve-refused, serve-looks, recover_operation-sent}
use gpt_owu_bridge.Examples.Store.{Payload, verifying_store}
use gpt_owu_bridge.Examples.World.{Remote, service, requests, short_share, start}

history-Nodup_example : Nodup (map operation_of (history service requests (new_world start)).sent)
history-Nodup_example = history-Nodup service requests start

history-Permitted_example :
    All
      (Permitted (history service requests (new_world start)).db)
      (history service requests (new_world start)).sent
history-Permitted_example = history-Permitted service requests start

history-Recorded_example :
    All
      (Recorded (history service requests (new_world start)).db)
      (history service requests (new_world start)).sent
history-Recorded_example = history-Recorded service requests start

-- A world in which an update is under verification.
abbrev verifying_world : World Payload Remote
verifying_world = record { db = verifying_store; remote = start; sent = [] }

recover_operation-sent_example :
    (recover_operation service "me" "o2" verifying_world).1.sent ≡ verifying_world.sent
unfolding find_operation find_first Text-discrete
recover_operation-sent_example =
    recover_operation-sent service "me" "o2" verifying_world _ refl (λ e. ground arith)

serve-refused_example :
    serve service (apply_request "guest" "plan" true) verifying_world ≡ verifying_world
serve-refused_example =
    serve-refused service (apply_request "guest" "plan" true) verifying_world "guest" refl
      (differ "guest" "me" refl)

serve-looks_example :
    (serve service (preview_request "me" short_share "") (new_world start)).sent
    ≡ (new_world {Bytes = Payload} start).sent
serve-looks_example =
    serve-looks service (preview_request "me" short_share "") (new_world start) refl
