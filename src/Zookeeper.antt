-- ===== src/Zookeeper.antt =====
-- src/Zookeeperutil.cc: the client of ZooKeeper, over the C client library as a parameter.
--
-- Paths and data are byte strings. A method returns its result and the new state of the library
-- and the server, `W`; what only reads returns its result alone. The end of the process (`exit`)
-- is `none`.
use proto_rpc_multi_reactor.Prelude.{
  ℕ, Bool, true, List, [], ◌∷◌, ◌++◌, Option, none, some, ◌==◌, if◌then◌else◌, ◌&&◌,
}
use proto_rpc_multi_reactor.Prelude.Text.{Bytes, codes}

-- The results of the library that the code tells apart.
pub data Code : Type 0 where
  zok znonode failure : Code

-- `ZOO_EPHEMERAL`, and no flag.
pub data Mode : Type 0 where
  persistent ephemeral : Mode

pub record Api (W : Type 0) : Type 0 where
  -- `zookeeper_init` with the connection string, and the wait of the caller until the session is
  -- up; `zookeeper_close`.
  pub init : Bytes → W → Option ℕ × W
  pub close : ℕ → W → W
  -- `zoo_exists`, `zoo_create`, `zoo_delete`, for a handle that may be null.
  pub exists : Option ℕ → Bytes → W → Code
  pub create : Option ℕ → Bytes → Bytes → Mode → W → Code × W
  pub delete : Option ℕ → Bytes → W → Code × W
  -- `zoo_get` with a buffer of 64 bytes: the result, and the buffer after the call.
  pub get : Option ℕ → Bytes → W → Code × Bytes
  pub get_children : Option ℕ → Bytes → W → Code × List Bytes
  -- `zoo_wget_children`: the vector after the call, which a call that fails does not fill.
  pub wget_children : Option ℕ → Bytes → W → Option (List Bytes) × W
  -- `zoo_wget` with a buffer of 128 bytes: the buffer and the length after the call; a node without
  -- data makes the length -1, which is `none`.
  pub wget : Option ℕ → Bytes → W → Bytes × Option ℕ × W

-- The string at a `char *`: the bytes before the first 0. There may be none in the buffer.
pub c_string : Bytes → Option Bytes
c_string [] = none
c_string (b ∷ bs) =
    let rest = c_string bs in
    if b == 0 then some [] else elim rest [ none ↦ none | some s ↦ some (b ∷ s) ]

-- `global_watcher`: whether the event tells of a session that is connected.
pub global_watcher : Bool → Bool → Bool → Bool
global_watcher session_event connected_state is_connected =
    if session_event && connected_state then true else is_connected

-- A client is its handle, null at first.
abbrev pub ZkClient : Type 0
ZkClient = Option ℕ

abbrev pub new_client : ZkClient
new_client = none

module _ {W : Type 0} (api : Api W) where
  unfoldable pub start : Bytes → Bytes → W → Option (ZkClient × W)
  start host port w =
      let (made, w') = api.init (host ++ codes ":" ++ port) w in
      elim made [ none ↦ none | some h ↦ some (some h, w') ]

  -- What `Create` does when the node is not there.
  unfoldable pub create_node : ZkClient → Bytes → Bytes → Mode → W → Option W
  create_node z path content mode w =
      let (code, w') = api.create z path content mode w in
      elim code [ Code.zok ↦ some w' | _ ↦ none ]

  unfoldable pub create : ZkClient → Bytes → Bytes → Mode → W → Option W
  unfolding create_node
  create z path content mode w = elim (api.exists z path w) [
    | Code.znonode ↦ create_node z path content mode w
    | _ ↦ some w
  ]

  -- `GetData`; undefined behaviour, when the buffer holds no 0, is `none`.
  pub get_data : ZkClient → Bytes → W → Option Bytes
  unfolding c_string
  get_data z path w =
      let (code, buf) = api.get z path w in elim code [ Code.zok ↦ c_string buf | _ ↦ some [] ]

  unfoldable pub get_children : ZkClient → Bytes → W → List Bytes
  get_children z path w =
      let (code, children) = api.get_children z path w in elim code [ Code.zok ↦ children | _ ↦ [] ]

  pub delete : ZkClient → Bytes → W → W
  delete z path w = let (code, w') = api.delete z path w in w'

  -- `Close`, and the destructor.
  unfoldable pub close : ZkClient → W → ZkClient × W
  close none w = (none, w)
  close (some h) w = (none, api.close h w)
