-- ===== src/Channel/Threads/Races.antt =====
-- The threads of src/RPCChannel.cc do not disturb each other's calls.
use proto_rpc_multi_reactor.Prelude.{
  ℕ, suc, ◌<◌, ◌≡◌, ◌≢◌, refl, sym, subst, ◌∙◌, ◌⊎◌, inl, inr, false, ◌∷◌, none, some, arith,
  if◌then◌else◌, Bool-cases, ◌==◌, ==_iff,
}
use proto_rpc_multi_reactor.Prelude.Text.{ℕ_eq}
use proto_rpc_multi_reactor.Prelude.Dict.{
  lookup, insert, erase, lookup-insert_self, lookup-insert_ne, lookup-erase_self, lookup-erase_ne,
  lookup-erase-none,
}
use proto_rpc_multi_reactor.Prelude.Distinct.{insert-Distinct}
use proto_rpc_multi_reactor.Channel.Monad.{OutstandingCall}
use proto_rpc_multi_reactor.Channel.Threads.{
  Stage, numbered, registered, sent, abandoned, Shared, move, take_id, give_up, register, send,
  reply, Reach, here, next, IsRegistered, Sound,
}

same_or_other : (k j : ℕ) → (k ≡ j) ⊎ (k ≢ j)
same_or_other k j = elim (Bool-cases (k == j)) [
  | inl same ↦ inl ((==_iff k j).0 same)
  | inr other ↦ inr (λ e. let yes = (==_iff k j).1 e in cc)
]

module _ (s : Shared) (i : Sound s) where
  take_id-Sound : Sound (record s { id = suc s.id; calls = (suc s.id, numbered) ∷ s.calls })
  unfolding lookup
  take_id-Sound = record {
    fresh = λ k h. rw (no_match k h) (i.fresh k (omega (arith, h)));
    distinct = (i.fresh (suc s.id) (omega arith), i.distinct);
    known = λ k out e. old k (i.known k out e);
    awaits = λ k r. i.awaits k (back k r);
    found = λ k m. let (r, e) = i.found k m in (old k r, e);
    once = i.once;
  }
    where
      no_match : (k : ℕ) → suc s.id < k → (suc s.id == k) ≡ false
      no_match k h = ground arith

      old :
          (k : ℕ)
          → IsRegistered (lookup k s.calls)
          → IsRegistered (if suc s.id == k then some numbered else lookup k s.calls)
      old k r = elim (Bool-cases (suc s.id == k)) [
        | inl same ↦ absurd (subst IsRegistered (i.fresh k (ground (arith, ==_iff (suc s.id) k))) r)
        | inr other ↦ rw (other, IsRegistered) r
      ]

      back :
          (k : ℕ)
          → IsRegistered (if suc s.id == k then some numbered else lookup k s.calls)
          → IsRegistered (lookup k s.calls)
      back k r = elim (Bool-cases (suc s.id == k)) [
        | inl same ↦ absurd (rw (same, IsRegistered) at r)
        | inr other ↦ rw (other, IsRegistered) at r
      ]

  module _ (k : ℕ) (stage before : Stage) (there : lookup k s.calls ≡ some before) where
    -- A call that moves on is registered after it exactly when it was before it.
    kept :
        (IsRegistered (some before) → IsRegistered (some stage))
        → (j : ℕ) → IsRegistered (lookup j s.calls)
        → IsRegistered (lookup j (insert k stage s.calls))
    kept on j r = elim (same_or_other k j) [
      | inl e ↦
          let at_k : IsRegistered (lookup k s.calls) =
            subst (λ j. IsRegistered (lookup j s.calls)) (sym e) r in
          subst (λ j. IsRegistered (lookup j (insert k stage s.calls))) e
            (subst IsRegistered (sym (lookup-insert_self k stage s.calls))
              (on (subst IsRegistered there at_k)))
      | inr other ↦ subst IsRegistered (sym (lookup-insert_ne k j stage s.calls other)) r
    ]

    kept_back :
        (IsRegistered (some stage) → IsRegistered (some before))
        → (j : ℕ) → IsRegistered (lookup j (insert k stage s.calls))
        → IsRegistered (lookup j s.calls)
    kept_back off j r = elim (same_or_other k j) [
      | inl e ↦
          let at_k = subst (λ j. IsRegistered (lookup j (insert k stage s.calls))) (sym e) r in
          subst (λ j. IsRegistered (lookup j s.calls)) e
            (subst IsRegistered (sym there)
              (off (subst IsRegistered (lookup-insert_self k stage s.calls) at_k)))
      | inr other ↦ subst IsRegistered (lookup-insert_ne k j stage s.calls other) r
    ]

    moved_fresh : (j : ℕ) → s.id < j → lookup j (insert k stage s.calls) ≡ none
    moved_fresh j h = elim (same_or_other k j) [
      | inl e ↦ let unborn = i.fresh k (omega (arith, e, h)) in cc
      | inr other ↦ lookup-insert_ne k j stage s.calls other ∙ i.fresh j h
    ]

    move-Sound :
        (IsRegistered (some before) → IsRegistered (some stage))
        → (IsRegistered (some stage) → IsRegistered (some before))
        → Sound (move k stage s)
    move-Sound on off = record {
      fresh = moved_fresh;
      distinct = insert-Distinct k stage s.calls i.distinct;
      known = λ j out e. kept on j (i.known j out e);
      awaits = λ j r. i.awaits j (kept_back off j r);
      found = λ j m. let (r, e) = i.found j m in (kept on j r, e);
      once = i.once;
    }

  register-Sound :
      (k : ℕ) (out : OutstandingCall)
      → lookup k s.calls ≡ some numbered
      → Sound (move k registered (record s { outstandings = insert k out s.outstandings }))
  register-Sound k out there = record {
    fresh = moved_fresh k registered numbered there;
    distinct = insert-Distinct k registered s.calls i.distinct;
    known = λ j o e. elim (same_or_other k j) [
      | inl same ↦
          subst (λ j. IsRegistered (lookup j (insert k registered s.calls))) same
            (subst IsRegistered (sym (lookup-insert_self k registered s.calls)) tt)
      | inr other ↦
          kept k registered numbered there absurd j
            (i.known j o (sym (lookup-insert_ne k j out s.outstandings other) ∙ e))
    ];
    awaits = λ j r. elim (same_or_other k j) [
      | inl same ↦ inl (
        out,
        subst (λ j. lookup j (insert k out s.outstandings) ≡ some out) same
            (lookup-insert_self k out s.outstandings),
      )
      | inr other ↦
          elim (i.awaits j (subst IsRegistered (lookup-insert_ne k j registered s.calls other) r)) [
            | inl (o, e) ↦ inl (o, lookup-insert_ne k j out s.outstandings other ∙ e)
            | inr m ↦ inr m
          ]
    ];
    found = λ j m.
        let (r, e) = i.found j m in
        let other : k ≢ j = λ same.
          subst IsRegistered there (subst (λ j. IsRegistered (lookup j s.calls)) (sym same) r) in
        (
          kept k registered numbered there absurd j r,
          lookup-insert_ne k j out s.outstandings other ∙ e,
        );
    once = i.once;
  }

  reply-Sound :
      (k : ℕ) (out : OutstandingCall)
      → lookup k s.outstandings ≡ some out
      → Sound (record s { outstandings = erase k s.outstandings; delivered = k ∷ s.delivered })
  reply-Sound k out there = record {
    fresh = i.fresh;
    distinct = i.distinct;
    known = λ j o e. elim (same_or_other k j) [
      | inl same ↦
          let gone =
            subst (λ j. lookup j (erase k s.outstandings) ≡ none) same
              (lookup-erase_self k s.outstandings) in
          cc
      | inr other ↦ i.known j o (sym (lookup-erase_ne k j s.outstandings other) ∙ e)
    ];
    awaits = λ j r. elim (same_or_other k j) [
      | inl same ↦ inr (inl (sym same))
      | inr other ↦ elim (i.awaits j r) [
        | inl (o, e) ↦ inl (o, lookup-erase_ne k j s.outstandings other ∙ e)
        | inr m ↦ inr (inr m)
      ]
    ];
    found = λ j m. elim m [
      | inl e ↦ (
        subst (λ j. IsRegistered (lookup j s.calls)) (sym e) (i.known k out there),
        subst (λ j. lookup j (erase k s.outstandings) ≡ none) (sym e)
            (lookup-erase_self k s.outstandings),
      )
      | inr m' ↦ let (r, e) = i.found j m' in (r, lookup-erase-none k j s.outstandings e)
    ];
    once = (λ m. let (r, e) = i.found k m in cc, i.once);
  }

-- Several threads call `CallMethod` on a channel, fewer than 2 ^ 64 times, while replies arrive, in any
-- order of their steps. No two calls have the same id; what is outstanding was registered; a registered
-- call is outstanding until its reply is delivered, so the reply to a sent call finds it; and no
-- reply is delivered twice.
pub threads-Sound : (s : Shared) → Reach s → Sound s
unfolding lookup
threads-Sound s here = record {
  fresh = λ k h. refl;
  distinct = tt;
  known = λ k out e. cc;
  awaits = λ k r. absurd r;
  found = λ k m. absurd m;
  once = tt;
}
threads-Sound s (next {s = b} before (take_id few)) = take_id-Sound b (threads-Sound b before)
threads-Sound s (next {s = b} before (give_up k there)) =
    move-Sound b (threads-Sound b before) k abandoned numbered there absurd absurd
threads-Sound s (next {s = b} before (register k out there)) =
    register-Sound b (threads-Sound b before) k out there
threads-Sound s (next {s = b} before (send k there)) =
    move-Sound b (threads-Sound b before) k sent registered there (λ u. u) (λ u. u)
threads-Sound s (next {s = b} before (reply k out there)) =
    reply-Sound b (threads-Sound b before) k out there
