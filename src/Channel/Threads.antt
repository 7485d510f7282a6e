-- ===== src/Channel/Threads.antt =====
-- `CallMethod` of src/RPCChannel.cc in several threads, beside the replies: each step is as long as
-- the code holds `mutex_`, or one atomic operation.
pub mod Races
mod Runs
use proto_rpc_multi_reactor.Prelude.{
  ℕ, suc, ◌≤◌, ◌<◌, ◌^◌, ◌≡◌, ◌≢◌, refl, sym, ap, subst, ◌∙◌, ◌⊎◌, inl, inr, Bool, true, false,
  List, [], ◌∷◌, Option, none, some, arith, if◌then◌else◌, Option-cases, Bool-cases, Elem, ◌==◌,
  ==_iff,
}
use proto_rpc_multi_reactor.Prelude.Text.{ℕ_eq}
use proto_rpc_multi_reactor.Prelude.Dict.{
  Dict, lookup, insert, erase, lookup-insert_self, lookup-insert_ne, lookup-erase_self,
  lookup-erase_ne, lookup-erase-none,
}
use proto_rpc_multi_reactor.Prelude.Distinct.{Distinct, insert-Distinct}
use proto_rpc_multi_reactor.Channel.Monad.{OutstandingCall}

-- How far a call of `CallMethod` has got: it has its id, it is registered, it is sent, or its header
-- could not be serialized.
pub data Stage : Type 0 where
  numbered registered sent abandoned : Stage

-- `id_`, `outstandings_`, the calls by their ids, and the ids of the replies that found their calls.
pub record Shared : Type 0 where
  pub id : ℕ
  pub outstandings : Dict ℕ OutstandingCall
  pub calls : Dict ℕ Stage
  pub delivered : List ℕ

abbrev pub new_shared : Shared
new_shared = record { id = 0; outstandings = []; calls = []; delivered = [] }

-- The call `k` has got to a stage.
abbrev pub move : ℕ → Stage → Shared → Shared
move k stage s = record s { calls = insert k stage s.calls }

pub data Step : Shared → Shared → Type 0 where
  -- `id_.incrementAndGet()`, which has not wrapped around yet.
  take_id :
      {s : Shared}
      → suc s.id < 2 ^ 64
      → Step s (record s { id = suc s.id; calls = (suc s.id, numbered) ∷ s.calls })
  give_up : {s : Shared} (k : ℕ) → lookup k s.calls ≡ some numbered → Step s (move k abandoned s)
  -- `outstandings_[id] = …`.
  register :
      {s : Shared} (k : ℕ) (out : OutstandingCall)
      → lookup k s.calls ≡ some numbered
      → Step s (move k registered (record s { outstandings = insert k out s.outstandings }))
  send : {s : Shared} (k : ℕ) → lookup k s.calls ≡ some registered → Step s (move k sent s)
  -- A reply with any id: `find` and `erase`. One whose call is not found changes nothing.
  reply :
      {s : Shared} (k : ℕ) (out : OutstandingCall)
      → lookup k s.outstandings ≡ some out
      → Step s (record s { outstandings = erase k s.outstandings; delivered = k ∷ s.delivered })

pub data Reach : Shared → Type 0 where
  here : Reach new_shared
  next : {s t : Shared} → Reach s → Step s t → Reach t

-- A call that was registered.
abbrev pub IsRegistered : Option Stage → Type 0
IsRegistered none = ⊥
IsRegistered (some numbered) = ⊥
IsRegistered (some registered) = Unit
IsRegistered (some sent) = Unit
IsRegistered (some abandoned) = ⊥

abbrev pub NoneTwice : List ℕ → Type 0
NoneTwice [] = Unit
NoneTwice (k ∷ ks) = (Elem k ks → ⊥) × NoneTwice ks

-- What holds of the calls: no id is given twice; what is outstanding was registered; what was
-- registered is outstanding until its reply is delivered; a reply is delivered to a registered call,
-- and once.
pub record Sound (s : Shared) : Type 0 where
  pub fresh : (k : ℕ) → s.id < k → lookup k s.calls ≡ none
  pub distinct : Distinct s.calls
  pub known :
      (k : ℕ) (out : OutstandingCall)
      → lookup k s.outstandings ≡ some out
      → IsRegistered (lookup k s.calls)
  pub awaits :
      (k : ℕ)
      → IsRegistered (lookup k s.calls)
      → ((out : OutstandingCall) × (lookup k s.outstandings ≡ some out)) ⊎ Elem k s.delivered
  pub found :
      (k : ℕ)
      → Elem k s.delivered
      → IsRegistered (lookup k s.calls) × (lookup k s.outstandings ≡ none)
  pub once : NoneTwice s.delivered
