-- ===== src/Lib.antt =====
-- ProtoRpc-MultiReactor: an asynchronous RPC framework over muduo, protobuf and ZooKeeper.
--
-- The program's parts. A `RPCChannel` (src/RPCChannel.cc) stands at each end of a connection: the
-- client's `CallMethod` registers a call under a fresh id and sends a frame; `onMessage` cuts the
-- incoming bytes into frames and hands each header to `onRPCMessage`, which delivers a reply to its
-- call or calls a service; `doneCallback` sends the reply. The frames carry the generated message
-- `RpcHeader` (src/rpc.pb.cc). A server registers its services, publishes its address
-- below each method in ZooKeeper and gives each connection a channel; a client finds an address in the
-- cache that follows the events of ZooKeeper. The example server borrows database connections from a
-- pool.
--
-- Which file models which part.
--   Prelude      shared names: Boolean tests, lists over the native numbers, byte strings, dictionaries
--   Wire         the protobuf runtime that the generated code calls, as a parameter with its laws, and
--                the loop of a generated parser; Wire/Sample is a small runtime for the runs
--   Header       src/rpc.pb.cc, src/include/rpc.pb.h: `_InternalSerialize` is `serialize`,
--                `_InternalParse` is `parse`, `ByteSizeLong` is `byte_size`, `MergeImpl` is `merge_from`
--   Channel      src/RPCChannel.cc, src/include/RPCChannel.h: each method under its name in snake case,
--                `CallMethod` as `call_method`; Channel/Monad has the state and the effects,
--                Channel/Threads the threads that call, in steps as short as the locks
--   Controller   src/RpcController.cc: the failure of a call
--   Application  src/Application.cc: `ParseArgs`, `LoadConfigFile`, `Trim`, `GetConfig`,
--                `Instance`
--   Zookeeper    src/Zookeeperutil.cc, over the ZooKeeper C client as a parameter
--   Discovery    src/ServiceDiscovery.cc: `split`, `init`, `handleEvent`, `pickHost`, the event queue;
--                Discovery/Worker has a pass of the worker over the queue, Discovery/Threads
--                the worker beside the other threads, in steps as short as the locks and the
--                calls of ZooKeeper, Discovery/Alone the worker by itself, Discovery/Tree what is
--                documented of the nodes of ZooKeeper, Discovery/Sample a small ZooKeeper for the runs
--   Server       src/RPCServer.cc: `NotifyService`, `Run`, `OnConnection`, `Cleanup`;
--                Server/Lifecycle has the event loop with `StopServer` and the signal handlers
--   Pool         example/MySQLServer/ConnectionPool.h, with the threads that use it as a step relation
--   Login        example/MySQLServer/LoginRegisterServer.cc: `Login`; Login/Borrowing has it on the pool
--   Stress       example/UnitTest/UnitTest_MySQLConnPoolStressTest.cc: threads that query with the
--                connections of one pool
--   User         example/user.pb.cc: the messages `LoginRequest`, `LoginResponse` and `ResultCode`, and
--                the dispatch of `UserServiceRpc`
--   Client       example/LoginRegisterService: the address and the callbacks of RpcClient.cc (`basic`),
--                RpcClientWithReconn.cc (`reconnecting`) and RpcClientConcc.cc (`concurrent`);
--                Client/Loop has the loop of a client's thread, Client/Program the threads of `main`
--   System       the server, ZooKeeper and a client together; System/Main is `main` of the example
--                servers, example/LoginRegisterService/MyRpcServerImp.cc among them, System/Clients
--                `main` of the example clients, System/LoginCall a login from the stub to `onLoginDone`
--
-- State and effects. A method of the channel is a function of the `Channel` record that returns the
-- new record and the list of its effects (frames sent, closures run, objects filled or deleted);
-- undefined behaviour (a null or an uninitialised pointer is dereferenced) is `none`. What the program
-- takes from elsewhere (protobuf, muduo, libc, the closures and services of the user) is a field of
-- `Runtime` or `Env`; the laws that a theorem needs of these are its hypotheses, and the modules named
-- Sample give values that keep them.
--
-- Bounds and fuel. Bytes are natural numbers; an id is the bit pattern of 64 bits, the enum `type` of
-- 32 bits, and the length prefix is taken modulo 2 ^ 32. The loop of the parser has the length of its
-- input as fuel and the loop of `onMessage` one more than the length of the buffer; each round takes a
-- byte at least.
--
-- Threads and events. Threads share the calls of a channel, the pool, the event queue, the cache and
-- the count of successes; a run is an explicit sequence of steps, each as long as a lock is held or
-- one call of a library. The event loop of the server is a queue of functors, that of a client a
-- relation in which the network may end a connection at any time.
--
-- Not modelled. Threads in the handling of one message, signals in the middle of a handler, time, the
-- user messages of the registration, which no program sends, logging, memory management beyond the
-- objects that the channel deletes, reflection and descriptors, and
-- example/UnitTest/UnitTest_ServiceDiscovery.cc, which includes a header that the repository does not
-- have.
pub mod Prelude
pub mod Wire
pub mod Header
pub mod Channel
pub mod Controller
pub mod Application
pub mod Zookeeper
pub mod Discovery
pub mod Server
pub mod Pool
pub mod Login
pub mod User
pub mod Client
pub mod System
pub mod Stress
