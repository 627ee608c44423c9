-- ===== src/Syncer/Writes.antt =====
-- internal/syncer/service.go: what any history of requests has sent to the target.
use gpt_owu_bridge.Base.{List, [], ◌∷◌, map, All}
use mathlib.Core.List.{Nodup, Nodup-nil}
use gpt_owu_bridge.Syncer.Types.{Service, World, operation_of}
use gpt_owu_bridge.Syncer.Service.{
  Request, preview_request, apply_request, status_request, recover_request, restart_request, serve,
  history, new_world,
}
use gpt_owu_bridge.Syncer.Kept.{Safe-resume}
use gpt_owu_bridge.Syncer.Blocks.{Safe-preview_sync}
use gpt_owu_bridge.Syncer.Silent.{Safe-operation_status}
use gpt_owu_bridge.Syncer.Sound.{Sound, Sound-Stable, Permitted, Recorded}
use gpt_owu_bridge.Syncer.Once.{Safe-apply_sync, Safe-recover_operation}

module _ {Bytes R : Type 0} (s : Service Bytes R) where
  serve-Sound :
      (request : Request) (w : World Bytes R)
      → Sound s.installation [] w
      → Sound s.installation [] (serve s request w)
  unfolding serve
  serve-Sound (preview_request principal snapshot id) w h =
      (Safe-preview_sync s (Sound-Stable s.installation []) principal snapshot id).at w h
  serve-Sound (apply_request principal id confirmed) w h =
      (Safe-apply_sync s principal id confirmed).at w h
  serve-Sound (status_request principal id) w h =
      (Safe-operation_status s (Sound-Stable s.installation []) principal id).at w h
  serve-Sound (recover_request principal id) w h = (Safe-recover_operation s principal id).at w h
  serve-Sound restart_request w h = (Safe-resume s (Sound-Stable s.installation []) _).at w h

  history-Sound_from :
      (requests : List Request) (w : World Bytes R)
      → Sound s.installation [] w
      → Sound s.installation [] (history s requests w)
  unfolding history
  history-Sound_from [] w h = h
  history-Sound_from (r ∷ rs) w h = history-Sound_from rs (serve s r w) (serve-Sound r w h)

  history-Sound :
      (requests : List Request) (start : R)
      → Sound s.installation [] (history s requests (new_world start))
  history-Sound requests start =
      history-Sound_from requests (new_world start)
        (record { trusted = tt; known = tt; recorded = tt; permitted = tt; once = Nodup-nil })

-- On a new database, whatever requests are served, and whatever the clock, the random ids, the
-- faults of the store and the answers of the target are: no operation has sent two writes.
pub history-Nodup :
    {Bytes R : Type 0} (s : Service Bytes R) (requests : List Request) (start : R)
    → Nodup (map operation_of (history s requests (new_world start)).sent)
history-Nodup s requests start = (history-Sound s requests start).once

-- Under the same conditions, each update that was sent went to a chat that a creation of this
-- installation has made: that creation has succeeded on this chat with a receipt, and the
-- allowlist names it for the chat.
pub history-Permitted :
    {Bytes R : Type 0} (s : Service Bytes R) (requests : List Request) (start : R)
    → All
        (Permitted (history s requests (new_world start)).db)
        (history s requests (new_world start)).sent
history-Permitted s requests start = (history-Sound s requests start).permitted

-- Under the same conditions, the operation of each write that was sent is stored, and is past its
-- preparation.
pub history-Recorded :
    {Bytes R : Type 0} (s : Service Bytes R) (requests : List Request) (start : R)
    → All
        (Recorded (history s requests (new_world start)).db)
        (history s requests (new_world start)).sent
history-Recorded s requests start = (history-Sound s requests start).recorded
