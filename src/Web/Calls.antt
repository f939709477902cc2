-- ===== src/Web/Calls.antt =====
-- A system call of the web server changes nothing that is modelled, cli/web_index.go.
use http_capture.Prelude.{Option, none, some}
use http_capture.Errors.{Op, Error}
use http_capture.Effects.Frames.{Frame, Frame-return, Frame-fail}
use http_capture.Web.{Local, Site, call_result, call}

module _ {V : Type 0} {view : Local → V} where
  call_result-Frame : (answer : Option Error) → Frame view (call_result answer)
  unfolding call_result
  call_result-Frame none = Frame-return _
  call_result-Frame (some e) = Frame-fail e

  pub call-Frame : (site : Site) (op : Op) → Frame view (call site op)
  unfolding call
  call-Frame site op = call_result-Frame _
