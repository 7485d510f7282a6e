-- ===== src/Header/Merge.antt =====
-- Merging, copying and swapping headers.
use proto_rpc_multi_reactor.Prelude.{
  ℕ, ◌≡◌, refl, [], ◌∷◌, append_assoc, arith, ◌==◌, if◌then◌else◌, is_empty,
}
use proto_rpc_multi_reactor.Prelude.Text.{Bytes}
use proto_rpc_multi_reactor.Header.{
  RpcHeader, new_header, clear, merge_from, copy_from, copy_of, swap,
}

-- Two headers with the same fields are one.
header_path :
    (a b : RpcHeader)
    → a.service_name ≡ b.service_name
    → a.method_name ≡ b.method_name
    → a.payload ≡ b.payload
    → a.id ≡ b.id
    → a.type ≡ b.type
    → a.unknown ≡ b.unknown
    → a ≡ b
header_path a b s m p i t u = ground arith

or_else_nil : (b : Bytes) → (if is_empty b then [] else b) ≡ b
or_else_nil [] = refl
or_else_nil (x ∷ b) = refl

or_else_assoc :
    (a b c : Bytes)
    → (if is_empty c then (if is_empty b then a else b) else c)
      ≡ (let bc = if is_empty c then b else c in if is_empty bc then a else bc)
or_else_assoc a b [] = refl
or_else_assoc a b (x ∷ c) = refl

or_else_zero : (n : ℕ) → (if n == 0 then 0 else n) ≡ n
or_else_zero n = ground arith

-- Merging into a new header copies.
pub merge-new_header : (h : RpcHeader) → merge_from new_header h ≡ h
unfolding merge_from
merge-new_header h =
    header_path _ h (or_else_nil h.service_name) (or_else_nil h.method_name) (or_else_nil h.payload)
      (or_else_zero h.id) (or_else_zero h.type) refl

-- Merging is associative: three headers merge to the same one in either grouping.
pub merge_assoc :
    (a b c : RpcHeader) → merge_from (merge_from a b) c ≡ merge_from a (merge_from b c)
unfolding merge_from
merge_assoc a b c =
    header_path _ _ (or_else_assoc a.service_name b.service_name c.service_name)
      (or_else_assoc a.method_name b.method_name c.method_name)
      (or_else_assoc a.payload b.payload c.payload) (ground arith) (ground arith)
      (append_assoc a.unknown b.unknown c.unknown)

-- `CopyFrom` and the copy constructor both give an equal header, whatever the target held, and
-- swapping twice gives both headers back.
pub copies_agree :
    (to from : RpcHeader)
    → (copy_from to from ≡ from) × (copy_of from ≡ from) × (swap (swap (to, from)) ≡ (to, from))
unfolding copy_from clear copy_of swap
copies_agree to from = (
  merge-new_header from,
  header_path _ from (or_else_nil from.service_name) (or_else_nil from.method_name)
      (or_else_nil from.payload) refl refl refl,
  refl,
)
