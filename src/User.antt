-- ===== src/User.antt =====
-- example/user.pb.cc: the messages of the example's user service, over the protobuf runtime.
pub mod LoginRequest
pub mod ResultCode
pub mod LoginResponse
pub mod Service
mod Runs
