-- ===== src/Discovery/Worker.antt =====
-- `processEvents` of src/ServiceDiscovery.cc: a pass of the worker over the queue.
use proto_rpc_multi_reactor.Prelude.{
  suc, ◌≡◌, refl, ap, subst, ◌∙◌, ◌⊎◌, inl, inr, Bool, List, [], ◌∷◌, Option, none, some,
  if◌then◌else◌, length, Option-cases,
}
use proto_rpc_multi_reactor.Prelude.Text.{Bytes}
use proto_rpc_multi_reactor.Zookeeper.{Api}
use proto_rpc_multi_reactor.Discovery.{
  Discovery, ZkEvent, returned, waits, undefined, handle_event, handle_parts, handle_front, split,
  slash, process_events, store,
}

module _ {W : Type 0} (api : Api W) where
  -- A handler changes the cache, and neither the queue nor the flag.
  Kept : Discovery → Option (Discovery × W) → Type 0
  Kept d none = Unit {0}
  Kept d (some (d', w)) = (d'.events ≡ d.events) × (d'.stop ≡ d.stop)

  store-Kept :
      (key : Bytes) (d : Discovery) (o : Option (List Bytes × W)) → Kept d (store api key d o)
  unfolding Kept store
  store-Kept key d none = tt
  store-Kept key d (some (hosts, w)) = (refl, refl)

  handle_parts-Kept :
      (path : Bytes) (parts : List Bytes) (d : Discovery) (w : W)
      → Kept d (handle_parts api path parts d w)
  unfolding Kept handle_parts
  handle_parts-Kept path [] d w = tt
  handle_parts-Kept path (p ∷ []) d w = tt
  handle_parts-Kept path (service ∷ method ∷ ps) d w = store-Kept _ d _

  handle_event-Kept : (path : Bytes) (d : Discovery) (w : W) → Kept d (handle_event api path d w)
  unfolding handle_event
  handle_event-Kept path d w = handle_parts-Kept path (split path slash) d w

  handle_event-keeps :
      (path : Bytes) (d d' : Discovery) (w w' : W)
      → handle_event api path d w ≡ some (d', w')
      → (d'.events ≡ d.events) × (d'.stop ≡ d.stop)
  unfolding Kept
  handle_event-keeps path d d' w w' e = subst (Kept d) e (handle_event-Kept path d w)

  drains :
      (evs : List ZkEvent) (stop : Bool) (d : Discovery) (w : W)
      → d.events ≡ evs
      → d.stop ≡ stop
      → let end = process_events api (suc (length evs)) d w in
        (end ≡ undefined)
        ⊎ ((d' : Discovery) × (w' : W) × (end ≡ (if stop then returned d' w' else waits d' w'))
            × (d'.events ≡ []))
  unfolding process_events
  drains [] stop d w e st =
      rw (e, process_events) (inr (d, w, ap (λ b. if b then returned d w else waits d w) st, e))
  drains (ev ∷ rest) stop d w e st =
      let next = record d { events = rest } in
      elim (Option-cases (handle_event api ev.path next w)) [
        | inl p ↦ rw (e, process_events) (rw (p, handle_front) (inl refl))
        | inr ((d', w'), p) ↦
            let (queue, kept) = handle_event-keeps ev.path next d' w w' p in
            rw (e, process_events) (rw (p, handle_front) (drains rest stop d' w' queue (kept ∙ st)))
      ]

  -- With one round more than there are events in the queue, `processEvents` does not stop for want of
  -- rounds: unless a handler is undefined, the queue is empty in the end, and the worker returns if it
  -- was asked to stop, and waits if it was not.
  pub process_events_drains :
      (d : Discovery) (w : W)
      → let end = process_events api (suc (length d.events)) d w in
        (end ≡ undefined)
        ⊎ ((d' : Discovery) × (w' : W) × (end ≡ (if d.stop then returned d' w' else waits d' w'))
            × (d'.events ≡ []))
  process_events_drains d w = drains d.events d.stop d w refl refl
