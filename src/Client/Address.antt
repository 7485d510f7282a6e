-- ===== src/Client/Address.antt =====
-- The addresses of `getAddr` in the clients of example/LoginRegisterService, and the ones that
-- src/RPCServer.cc publishes.
use proto_rpc_multi_reactor.Prelude.{
  ℕ, ◌≡◌, refl, ◌∙◌, ◌≢◌, false, append_assoc, ◌%◌, ◌^◌, [], ◌∷◌, ◌++◌, Option, some, arith, ◌==◌,
  ==_iff, All, ap,
}
use proto_rpc_multi_reactor.Prelude.Text.{Bytes}
use proto_rpc_multi_reactor.Application.{cut}
use proto_rpc_multi_reactor.Server.{instance_name}
use proto_rpc_multi_reactor.Client.{to_address, get_addr, get_addr_concc}

-- The first colon ends the host.
cut-append :
    (d : ℕ) (front back : Bytes)
    → All (λ b. b ≢ d) front
    → cut d (front ++ (d ∷ back)) ≡ some (front, back)
unfolding cut
cut-append d [] back plain = rw ((==_iff d d).1 refl) refl
cut-append d (b ∷ front) back (other, plain) =
    let differs : (b == d) ≡ false = ground arith in
    rw (cut-append d front back plain, differs) refl

cut-instance_name :
    (to_string : ℕ → Bytes) (ip : Bytes) (port : ℕ)
    → All (λ b. b ≢ 58) ip
    → cut 58 (instance_name to_string ip port) ≡ some (ip, to_string port)
unfolding instance_name
cut-instance_name to_string ip port plain =
    ap (cut 58) (append_assoc ip (58 ∷ []) (to_string port))
    ∙ cut-append 58 ip (to_string port) plain

-- A client reads the host and the port back from the address that a server publishes, where the host
-- has no colon and `stoi` reads what `to_string` writes; the port is taken modulo 2 ^ 16. All three
-- clients read the same.
pub published_address :
    (stoi : Bytes → Option ℕ) (to_string : ℕ → Bytes) (ip : Bytes) (port : ℕ)
    → All (λ b. b ≢ 58) ip
    → stoi (to_string port) ≡ some port
    → (get_addr stoi (some (instance_name to_string ip port)) ≡ some (ip, port % 2 ^ 16))
      × (get_addr_concc stoi (some (instance_name to_string ip port)) ≡ some (ip, port % 2 ^ 16))
unfolding get_addr get_addr_concc to_address
published_address stoi to_string ip port plain back =
    let found = cut-instance_name to_string ip port plain in
    (
      rw (found, get_addr) (rw (back, to_address) refl),
      rw (found, get_addr_concc) (rw (back, to_address) refl),
    )
