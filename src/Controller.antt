-- ===== src/Controller.antt =====
-- src/RpcController.cc: whether a call failed, and why. The cancelling that it declares does nothing.
use proto_rpc_multi_reactor.Prelude.{Bool, true, false, []}
use proto_rpc_multi_reactor.Prelude.Text.{Bytes}

pub record Controller : Type 0 where
  pub is_failed : Bool
  pub err_text : Bytes

abbrev pub new_controller : Controller
new_controller = record { is_failed = false; err_text = [] }

-- `Reset`, `Failed`, `ErrorText`, `SetFailed` and `IsCanceled`.
abbrev pub reset : Controller → Controller
reset c = record c { is_failed = false; err_text = [] }

abbrev pub failed : Controller → Bool
failed c = c.is_failed

abbrev pub error_text : Controller → Bytes
error_text c = c.err_text

abbrev pub fail : Bytes → Controller → Controller
fail reason c = record c { is_failed = true; err_text = reason }

abbrev pub is_canceled : Controller → Bool
is_canceled c = false
