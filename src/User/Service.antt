-- ===== src/User/Service.antt =====
-- The generated class `UserServiceRpc` of example/user.pb.cc: which method an index calls, and the
-- messages that it is called with.
use proto_rpc_multi_reactor.Prelude.{ℕ, ◌≡◌, Option, none, some, arith, ◌==◌, if◌then◌else◌}

-- The message classes; a `DownCast` names the class that it takes the object for.
pub data MessageClass : Type 0 where
  result_code login_request login_response register_request register_response : MessageClass

-- A method, with the classes to which request and response are cast.
pub data Invoked : Type 0 where
  login register : MessageClass → MessageClass → Invoked

-- `CallMethod`, by `method->index()`; `none` is `GOOGLE_LOG(FATAL)`.
pub invoke : ℕ → Option Invoked
invoke index =
    if index == 0
    then some (Invoked.login MessageClass.login_request MessageClass.login_response)
    else if index == 1
    then some (Invoked.register MessageClass.register_request MessageClass.register_response)
    else none

-- `GetRequestPrototype` and `GetResponsePrototype`.
pub request_prototype : ℕ → Option MessageClass
request_prototype index =
    if index == 0
    then some MessageClass.login_request
    else if index == 1
    then some MessageClass.register_request
    else none

pub response_prototype : ℕ → Option MessageClass
response_prototype index =
    if index == 0
    then some MessageClass.login_response
    else if index == 1
    then some MessageClass.register_response
    else none

abbrev pub casts : Option Invoked → Option MessageClass × Option MessageClass
casts none = (none, none)
casts (some (Invoked.login request response)) = (some request, some response)
casts (some (Invoked.register request response)) = (some request, some response)

-- For every index, `CallMethod` casts request and response to the classes of the objects that
-- `GetRequestPrototype` and `GetResponsePrototype` make for the index; where there is no method,
-- there is no prototype.
pub casts_match :
    (index : ℕ) → casts (invoke index) ≡ (request_prototype index, response_prototype index)
unfolding invoke request_prototype response_prototype
casts_match index = ground arith
