-- ===== src/Server/Registry.antt =====
-- `NotifyService` and `OnConnection` of src/RPCServer.cc: which services a connection's channel
-- finds.
use proto_rpc_multi_reactor.Prelude.{
  ℕ, ◌+◌, ◌%◌, ◌^◌, ◌≡◌, refl, ◌∙◌, inl, inr, List, [], ◌∷◌, Option, none, some, true,
  if◌then◌else◌, Option-cases, Bool-cases,
}
use proto_rpc_multi_reactor.Prelude.Text.{Bytes, bytes_eq, ℕ_eq, Bytes_eq}
use proto_rpc_multi_reactor.Prelude.Dict.{
  Dict, lookup, insert, emplace, lookup-emplace, lookup-emplace_self, lookup-insert_self,
}
use proto_rpc_multi_reactor.Channel.Monad.{Channel, ServiceInfo}
use proto_rpc_multi_reactor.Channel.{new_channel, set_services}
use proto_rpc_multi_reactor.Server.{Server, Descriptor, add_methods, notify_service, on_connection}

-- The first method of a name.
abbrev pub first_named : Bytes → List (Bytes × ℕ) → Option ℕ
first_named name [] = none
first_named name ((n, md) ∷ rest) = if bytes_eq n name then some md else first_named name rest

abbrev pub first_of : {A : Type 0} → Option A → Option A → Option A
first_of none o = o
first_of (some a) o = some a

lookup-add_methods :
    (name : Bytes) (methods : List (Bytes × ℕ)) (m : Dict Bytes ℕ)
    → lookup name (add_methods methods m) ≡ first_of (lookup name m) (first_named name methods)
unfolding add_methods
lookup-add_methods name [] m = elim (Option-cases (lookup name m)) [
  | inl e ↦ rw e refl
  | inr (md, e) ↦ rw e refl
]
lookup-add_methods name ((n, md) ∷ rest) m =
    lookup-add_methods name rest (emplace n md m)
    ∙ rw lookup-emplace (elim (Option-cases (lookup name m)) [
      | inl e ↦ rw e (elim (Bool-cases (bytes_eq n name)) [ inl b ↦ rw b refl | inr b ↦ rw b refl ])
      | inr (old, e) ↦ rw e refl
    ])

lookup-new_methods :
    (name : Bytes) (methods : List (Bytes × ℕ))
    → lookup name (add_methods methods []) ≡ first_named name methods
unfolding lookup
lookup-new_methods name methods = lookup-add_methods name methods []

emplace-first_of :
    (name : Bytes) (info : ServiceInfo) (m : Dict Bytes ServiceInfo)
    → lookup name (emplace name info m) ≡ first_of (lookup name m) (some info)
emplace-first_of name info m =
    lookup-emplace_self name info m
    ∙ elim (Option-cases (lookup name m)) [ inl e ↦ rw e refl | inr (old, e) ↦ rw e refl ]

-- A new connection, made after a service was registered, gets a channel that finds services by
-- name: one that was registered before under the name, and otherwise the new one, in which each
-- method name finds the first method of that name.
pub registered_found :
    (service conn : ℕ) (psd : Descriptor) (s : Server)
    → (s' : Server) × (c : Channel) × (services : Dict Bytes ServiceInfo) × (info : ServiceInfo)
      × (on_connection conn true (notify_service service psd s) ≡ some s')
      × (lookup conn s'.contexts ≡ some c)
      × (c.services ≡ some services)
      × (lookup psd.name services ≡ first_of (lookup psd.name s.service_map) (some info))
      × (info.service ≡ service)
      × ((name : Bytes) → lookup name info.method_map ≡ first_named name psd.methods)
unfolding on_connection set_services notify_service
registered_found service conn psd s =
    let info : ServiceInfo = record {
      service = service;
      method_map = add_methods psd.methods [];
    } in
    let services = emplace psd.name info s.service_map in
    let c : Channel = record (new_channel (some conn)) { services = some services } in
    (
      record s {
        service_map = services;
        contexts = insert conn c s.contexts;
        pending_requests = (s.pending_requests + 1) % 2 ^ 32;
      },
      c,
      services,
      info,
      refl,
      lookup-insert_self conn c s.contexts,
      refl,
      emplace-first_of psd.name info s.service_map,
      refl,
      λ name. lookup-new_methods name psd.methods,
    )
