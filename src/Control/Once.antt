-- ===== src/Control/Once.antt =====
-- At most once: a command that is sent again, with other requests in between, gets its first reply
-- and has no effect. Over the whole of cli/control_server.go.
use http_capture.Prelude.{Bytes, Option, some, ◌≡◌}
use http_capture.Effects.{ok}
use http_capture.World.{Device, Env}
use http_capture.Control.{
  Service, Handler, Controller, CommandResult, StartRequest, CaptureRequest, find_command,
  handle_start, handle_confirm, handle_stop, handle_abandon,
}
use http_capture.Control.Replay.{
  KeepsReply-bind, KeepsReply-if, KeepsReply-return, handle_start-KeepsReply,
  handle_confirm-KeepsReply, handle_stop-KeepsReply, handle_abandon-KeepsReply,
}

-- `n` repeats what `m` replied to the command `id`, as long as the reply is kept.
record Replays (id : Bytes) (m n : Handler CommandResult) : Type 0 where
  at :
      (s t : Service) (r : CommandResult)
      → (m s).0 ≡ ok r
      → (find_command id (m s).1.commands ≡ some r → find_command id t.commands ≡ some r)
      → n t ≡ (ok r, t)

-- The four requests that change something.
pub data Command : Type 0 where
  start_capture : StartRequest → Device → Command
  confirm_capture abandon_capture : CaptureRequest → Bytes → Command
  stop_capture : CaptureRequest → Bytes → Device → Command

abbrev pub id_of : Command → Bytes
id_of (start_capture r d) = r.command_id
id_of (confirm_capture p capture) = p.command_id
id_of (abandon_capture p capture) = p.command_id
id_of (stop_capture p capture d) = p.command_id

-- A command as it arrives from an address.
unfoldable pub perform : Controller → Env → Option Bytes → Command → Handler CommandResult
perform ctl env remote (start_capture r d) = handle_start ctl env r d remote
perform ctl env remote (confirm_capture p capture) = handle_confirm ctl env p capture
perform ctl env remote (abandon_capture p capture) = handle_abandon ctl env p capture
perform ctl env remote (stop_capture p capture d) = handle_stop ctl env p capture d

ruleset keeps_rules = (
  KeepsReply-bind, KeepsReply-if, KeepsReply-return, handle_start-KeepsReply,
  handle_confirm-KeepsReply, handle_stop-KeepsReply, handle_abandon-KeepsReply,
)
