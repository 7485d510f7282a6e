-- ===== src/Channel/Monad.antt =====
-- The state of a channel (src/include/RPCChannel.h), the effects of its methods on the rest of
-- the program, and the monad of the two.
use mathlib.Core.Path.{fun_ext}
use proto_rpc_multi_reactor.Prelude.{
  ◌∙◌, arith, ℕ, ◌≡◌, refl, List, [], ◌∷◌, ◌++◌, append_assoc, Option, none, some, ap, sym,
}
use proto_rpc_multi_reactor.Prelude.Text.{Bytes}
use proto_rpc_multi_reactor.Prelude.Dict.{Dict}

-- A registered service; its `method_map` maps names to descriptors.
pub record ServiceInfo : Type 0 where
  pub service : ℕ
  pub method_map : Dict Bytes ℕ

-- The pointers that `CallMethod` was given, which may be null.
pub record OutstandingCall : Type 0 where
  pub response : Option ℕ
  pub done : Option ℕ

-- `id` is the bit pattern of `id_`; `services` is `none` until `setServices` is called.
pub record Channel : Type 0 where
  pub conn : Option ℕ
  pub id : ℕ
  pub outstandings : Dict ℕ OutstandingCall
  pub services : Option (Dict Bytes ServiceInfo)

pub data Effect : Type 0 where
  -- `conn->send(bytes)` and `conn->shutdown()`.
  sent : ℕ → Bytes → Effect
  shut_down : ℕ → Effect
  -- `controller->SetFailed(reason)`.
  failed_call : ℕ → Bytes → Effect
  -- A response object takes the fields of a payload; a closure is run.
  filled : ℕ → Bytes → Effect
  ran : ℕ → Effect
  -- A service's method is called with the request of a payload and the id of the call.
  invoked : ℕ → ℕ → Bytes → ℕ → Effect
  -- The server's response object: made for a method of a service, and deleted.
  created_reply : ℕ → ℕ → Effect
  deleted_reply : Effect
  -- The destructor's `delete`.
  deleted_response deleted_closure : Option ℕ → Effect
  -- `LOG(ERROR)` about a call.
  log_error : ℕ → Effect

abbrev pub Out : Type 0 → Type 0
Out A = A × Channel × List Effect

abbrev pub M : Type 0 → Type 0
M A = Channel → Option (Out A)

-- What comes after the effects `es`.
abbrev pub after : {A : Type 0} → List Effect → Option (Out A) → Option (Out A)
after es none = none
after es (some (a, c, fs)) = some (a, c, es ++ fs)

-- Goes on after an outcome.
abbrev pub go_on : {A B : Type 0} → Option (Out A) → (A → M B) → Option (Out B)
go_on none f = none
go_on (some (a, c, es)) f = after es (f a c)

infixl 5 ◌>>=◌ ◌>>◌
abbrev pub ◌>>=◌ : {A B : Type 0} → M A → (A → M B) → M B
◌>>=◌ m f c = go_on (m c) f

abbrev pub ◌>>◌ : {B : Type 0} → M (Unit {0}) → M B → M B
m >> k = m >>= λ _. k

abbrev pub return : {A : Type 0} → A → M A
return a c = some (a, c, [])

abbrev pub emit : Effect → M (Unit {0})
emit e c = some (tt, c, e ∷ [])

abbrev pub get : M Channel
get c = some (c, c, [])

abbrev pub put : Channel → M (Unit {0})
put c' c = some (tt, c', [])

-- Undefined behaviour.
abbrev pub fault : M (Unit {0})
fault c = none

pub after-nil : {A : Type 0} (o : Option (Out A)) → after [] o ≡ o
after-nil none = refl
after-nil (some (a, c, es)) = refl

pub after-append :
    {A : Type 0} (es fs : List Effect) (o : Option (Out A))
    → after es (after fs o) ≡ after (es ++ fs) o
after-append es fs none = refl
after-append es fs (some (a, c, gs)) =
    ap (λ (x : List Effect). some (a, c, x)) (sym (append_assoc es fs gs))

-- What stands behind the effects `es`, and what their own effects are.
pub after-eq_some :
    {A : Type 0} (es : List Effect) (o : Option (Out A)) (a : A) (c : Channel) (fs : List Effect)
    → after es o ≡ some (a, c, fs)
    → (gs : List Effect) × (o ≡ some (a, c, gs)) × (fs ≡ es ++ gs)
after-eq_some es none a c fs e = cc
after-eq_some es (some (b, d, gs)) a c fs e = (gs, ground arith, ground arith)

-- A run of `m >> k` in its two parts.
pub >>_some :
    {A : Type 0} (m : M (Unit {0})) (k : M A) (c d : Channel) (es : List Effect)
    → m c ≡ some (tt, d, es)
    → (m >> k) c ≡ after es (k d)
>>_some m k c d es p = ap (λ (o : Option (Out (Unit {0}))). go_on o (λ _. k)) p

pub >>-eq_some :
    {A : Type 0} (m : M (Unit {0})) (k : M A) (c c' : Channel) (a : A) (es : List Effect)
    → (m >> k) c ≡ some (a, c', es)
    → (d : Channel) × (fs : List Effect) × (gs : List Effect) × (m c ≡ some (tt, d, fs))
      × (k d ≡ some (a, c', gs))
      × (es ≡ fs ++ gs)
>>-eq_some m k c c' a es e = parts (m c) refl e
  where
    parts :
        (o : Option (Out (Unit {0})))
        → m c ≡ o
        → go_on o (λ _. k) ≡ some (a, c', es)
        → (d : Channel) × (fs : List Effect) × (gs : List Effect) × (m c ≡ some (tt, d, fs))
          × (k d ≡ some (a, c', gs))
          × (es ≡ fs ++ gs)
    parts none p q = cc
    parts (some (_, d, fs)) p q =
        let (gs, run, split) = after-eq_some fs (k d) a c' es q in (d, fs, gs, p, run, split)

pub after-go_on :
    {A : Type 0} (es : List Effect) (o : Option (Out (Unit {0}))) (k : M A)
    → go_on (after es o) (λ _. k) ≡ after es (go_on o (λ _. k))
after-go_on es none k = refl
after-go_on es (some (_, d, fs)) k = sym (after-append es fs (k d))

-- A step of `m`, and what it leaves to be run before `k`.
pub >>_after :
    {A : Type 0} (m : M (Unit {0})) (k : M A) (c : Channel) (es : List Effect) (n : M (Unit {0}))
    (d : Channel)
    → m c ≡ after es (n d)
    → (m >> k) c ≡ after es ((n >> k) d)
>>_after m k c es n d p =
    ap (λ (o : Option (Out (Unit {0}))). go_on o (λ _. k)) p ∙ after-go_on es (n d) k

pub >>_assoc : {A : Type 0} (m n : M (Unit {0})) (k : M A) → (m >> (n >> k)) ≡ (m >> n >> k)
>>_assoc m n k = fun_ext λ c. regroup (m c)
  where
    regroup :
        (o : Option (Out (Unit {0}))) → go_on o (λ _. n >> k) ≡ go_on (go_on o (λ _. n)) (λ _. k)
    regroup none = refl
    regroup (some (_, d, es)) = sym (after-go_on es (n d) k)
