-- ===== src/Iq/Window.antt =====
-- What a run of `enqueue` calls leaves in the queue of the IQ data plane, and what it counts.
use mathlib.Core.Path.{subst}
use diploma_munka.Prelude.{
  append-nil, append_assoc, take-append_full, take-append_short, length-take, ℕ, zero, suc, ◌+◌,
  ◌-◌, ◌<◌, ◌≡◌, refl, sym, ap, Bool, true, false, List, [], ◌∷◌, ◌++◌, arith, str_eq, length,
  last_n, drop, length-append, last_n-append_full, last_n-append_short, length-last_n, take, dec_lt,
  All,
}
use diploma_munka.Channel.{put_nowait, get_nowait, task_done}
use diploma_munka.Iq.Packet.{IqPacket, default_max_samples}
use diploma_munka.Iq.Valid.{IsWellFormed, validate_iff}
use diploma_munka.Iq.Plane.{IqDataPlane, receive, count_drop, init, maxsize_of, IqDataPlaneConfig}
use diploma_munka.Iq.Enqueue.{returned, offer, offer_again, mark_evicted, evict, on_full, enqueue}

module _ {F S : Type 0} (isfinite : F → Bool) where
  -- The calls of one producer, in order.
  unfoldable pub enqueue_all : List (IqPacket F) → IqDataPlane F S → IqDataPlane F S
  enqueue_all [] s = s
  enqueue_all (p ∷ ps) s = enqueue_all ps (enqueue isfinite p s).0

-- Which packets of a history the queue keeps: the first ones under `drop_newest`, else the last ones.
abbrev pub kept : {F : Type 0} → Bool → ℕ → List (IqPacket F) → List (IqPacket F)
kept true n h = take n h
kept false n h = last_n n h

kept-nil : {F : Type 0} (newest : Bool) (n : ℕ) → kept {F = F} newest n [] ≡ []
unfolding last_n
kept-nil true zero = refl
kept-nil true (suc n) = refl
kept-nil false n = let e : 0 - n ≡ 0 = omega arith in ap (λ k. drop k []) e

-- A plane whose queue holds `kept` of the packets offered so far.
pub record Holds {F S : Type 0} (s : IqDataPlane F S) (cap offered : ℕ) (kept : List (IqPacket F))
    : Type 0 where
  pub items : s.queue.items ≡ kept
  pub capacity : s.queue.maxsize ≡ cap
  pub unfinished : s.queue.unfinished ≡ length kept
  pub received : s.stats.packets_received ≡ offered
  pub dropped : s.stats.packets_dropped + length kept ≡ offered

module _ {F S : Type 0} where
  offer_short :
      (p : IqPacket F) (s : IqDataPlane F S) {cap n : ℕ} {kept : List (IqPacket F)}
      → Holds s cap n kept
      → length kept < cap
      → Holds (offer p (receive p s)).0 cap (suc n) (kept ++ p ∷ [])
        × ((offer p (receive p s)).1 ≡ returned true)
  unfolding offer receive put_nowait
  offer_short p s {kept = kept} h short = (
    record {
      items = ground (arith, h.items);
      capacity = ground (arith, h.items);
      unfinished = ground (arith, h.items, length-append kept (p ∷ []));
      received = ground (arith, h.items);
      dropped = ground (arith, h.items, length-append kept (p ∷ []));
    },
    ground (arith, h.items),
  )

  offer_long_oldest :
      (p : IqPacket F) (s : IqDataPlane F S) {cap n : ℕ} (kept : List (IqPacket F))
      → Holds s cap n kept
      → 0 < cap
      → length kept ≡ cap
      → str_eq s.config.drop_policy "drop_newest" ≡ false
      → Holds (offer p (receive p s)).0 cap (suc n) (drop 1 kept ++ p ∷ [])
        × ((offer p (receive p s)).1 ≡ returned true)
  unfolding offer receive put_nowait on_full count_drop evict get_nowait mark_evicted task_done
      offer_again
  offer_long_oldest p s [] h pos full old = absurd (omega arith)
  offer_long_oldest p s (x ∷ xs) h pos full old = (
    record {
      items = ground (arith, h.items);
      capacity = ground (arith, h.items);
      unfinished = ground (arith, h.items, length-append xs (p ∷ []));
      received = ground (arith, h.items);
      dropped = ground (arith, h.items, length-append xs (p ∷ []));
    },
    ground (arith, h.items),
  )

  offer_long_newest :
      (p : IqPacket F) (s : IqDataPlane F S) {cap n : ℕ} (kept : List (IqPacket F))
      → Holds s cap n kept
      → 0 < cap
      → length kept ≡ cap
      → str_eq s.config.drop_policy "drop_newest" ≡ true
      → Holds (offer p (receive p s)).0 cap (suc n) kept
        × ((offer p (receive p s)).1 ≡ returned false)
  unfolding offer receive put_nowait on_full count_drop
  offer_long_newest p s kept h pos full new = (
    record {
      items = ground (arith, h.items);
      capacity = ground (arith, h.items);
      unfinished = ground (arith, h.items);
      received = ground (arith, h.items);
      dropped = ground (arith, h.items);
    },
    ground (arith, h.items),
  )

module _ {F S : Type 0} (isfinite : F → Bool) where
  -- A well-formed packet is offered to the queue.
  pub enqueue_lem :
      (p : IqPacket F) (s : IqDataPlane F S)
      → IsWellFormed isfinite p default_max_samples
      → enqueue isfinite p s ≡ offer p (receive p s)
  unfolding enqueue
  enqueue_lem p s w = rw ((validate_iff isfinite p default_max_samples).1 w, enqueue)

  policy-enqueue :
      (p : IqPacket F) (s : IqDataPlane F S) → (enqueue isfinite p s).0.config ≡ s.config
  unfolding enqueue offer receive on_full count_drop evict mark_evicted offer_again
  policy-enqueue p s = ground arith

  enqueue_oldest :
      (p : IqPacket F) (s : IqDataPlane F S) (h : List (IqPacket F)) {cap : ℕ}
      → IsWellFormed isfinite p default_max_samples
      → Holds s cap (length h) (last_n cap h)
      → 0 < cap
      → str_eq s.config.drop_policy "drop_newest" ≡ false
      → Holds (enqueue isfinite p s).0 cap (length (h ++ p ∷ [])) (last_n cap (h ++ p ∷ []))
        × ((enqueue isfinite p s).1 ≡ returned true)
  enqueue_oldest p s h {cap} w holds pos old =
      let e : length (h ++ p ∷ []) ≡ suc (length h) = omega (arith, length-append h (p ∷ [])) in
      elim (dec_lt (length h) cap) [
        | yes short ↦
            rw (enqueue_lem p s w, e, last_n-append_short cap h p short)
              (offer_short p s holds (omega (arith, length-last_n cap h)))
        | no long ↦
            rw (enqueue_lem p s w, e, last_n-append_full cap h p pos (omega arith))
              (offer_long_oldest p s (last_n cap h) holds pos (omega (arith, length-last_n cap h))
                old)
      ]

  enqueue_newest :
      (p : IqPacket F) (s : IqDataPlane F S) (h : List (IqPacket F)) {cap : ℕ}
      → IsWellFormed isfinite p default_max_samples
      → Holds s cap (length h) (take cap h)
      → 0 < cap
      → str_eq s.config.drop_policy "drop_newest" ≡ true
      → Holds (enqueue isfinite p s).0 cap (length (h ++ p ∷ [])) (take cap (h ++ p ∷ []))
  enqueue_newest p s h {cap} w holds pos new =
      let e : length (h ++ p ∷ []) ≡ suc (length h) = omega (arith, length-append h (p ∷ [])) in
      elim (dec_lt (length h) cap) [
        | yes short ↦
            rw (enqueue_lem p s w, e, take-append_short cap h p short)
              (offer_short p s holds (omega (arith, length-take cap h))).0
        | no long ↦
            rw (enqueue_lem p s w, e, take-append_full cap h (p ∷ []) (omega arith))
              (offer_long_newest p s (take cap h) holds pos (omega (arith, length-take cap h))
                new).0
      ]

  enqueue-Holds :
      (p : IqPacket F) (s : IqDataPlane F S) (h : List (IqPacket F)) {cap : ℕ} (newest : Bool)
      → IsWellFormed isfinite p default_max_samples
      → Holds s cap (length h) (kept newest cap h)
      → 0 < cap
      → str_eq s.config.drop_policy "drop_newest" ≡ newest
      → Holds (enqueue isfinite p s).0 cap (length (h ++ p ∷ [])) (kept newest cap (h ++ p ∷ []))
  enqueue-Holds p s h true w holds pos e = enqueue_newest p s h w holds pos e
  enqueue-Holds p s h false w holds pos e = (enqueue_oldest p s h w holds pos e).0

  enqueue_all-Holds :
      (ps h : List (IqPacket F)) (s : IqDataPlane F S) {cap : ℕ} (newest : Bool)
      → All (λ p. IsWellFormed isfinite p default_max_samples) ps
      → Holds s cap (length h) (kept newest cap h)
      → 0 < cap
      → str_eq s.config.drop_policy "drop_newest" ≡ newest
      → Holds (enqueue_all isfinite ps s) cap (length (h ++ ps)) (kept newest cap (h ++ ps))
  unfolding enqueue_all
  enqueue_all-Holds [] h s newest w holds pos e = rw append-nil holds
  enqueue_all-Holds (p ∷ ps) h s {cap} newest w holds pos e =
      subst (λ l. Holds (enqueue_all isfinite (p ∷ ps) s) cap (length l) (kept newest cap l))
        (append_assoc h (p ∷ []) ps)
        (enqueue_all-Holds ps (h ++ p ∷ []) (enqueue isfinite p s).0 newest w.1
          (enqueue-Holds p s h newest w.0 holds pos e) pos (rw policy-enqueue e))

  -- After any number of well-formed packets, with no worker taking any out, a plane of positive
  -- capacity holds the first `cap` of them under the policy `drop_newest` and the last `cap` under
  -- any other, in the order of their arrival. It has counted each as received, and those that it
  -- does not hold as dropped; `unfinished` is the number that it holds.
  pub enqueue_all_lem :
      (ps : List (IqPacket F)) (config : IqDataPlaneConfig) (sink : S)
      → All (λ p. IsWellFormed isfinite p default_max_samples) ps
      → 0 < maxsize_of config.queue_size
      → let cap = maxsize_of config.queue_size in
        Holds
          (enqueue_all isfinite ps (init config sink))
          cap
          (length ps)
          (kept (str_eq config.drop_policy "drop_newest") cap ps)
  unfolding init
  enqueue_all_lem ps config sink w pos =
      enqueue_all-Holds ps [] (init config sink) (str_eq config.drop_policy "drop_newest") w
        (record {
          items = sym (kept-nil newest cap);
          capacity = refl;
          unfinished = rw kept-nil;
          received = refl;
          dropped = rw kept-nil;
        })
        pos refl
    where
      newest : Bool
      newest = str_eq config.drop_policy "drop_newest"

      cap : ℕ
      cap = maxsize_of config.queue_size
