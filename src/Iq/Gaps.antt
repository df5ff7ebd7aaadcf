-- ===== src/Iq/Gaps.antt =====
-- The sequence gaps that the IQ data plane counts over a run of `enqueue` calls.
use diploma_munka.Prelude.{
  ◌≡◌, ◌∙◌, Bool, List, [], ◌∷◌, Option, some, arith, length, length-map, map, All, Bool-cases, inl,
  inr,
}
use diploma_munka.Prelude.Int.{ℤ, pos, ◌+ℤ◌, ◌<ℤ◌, ltb_ℤ, int_laws, parts_of_eq, not_ltb_ℤ}
use diploma_munka.Iq.Packet.{IqPacket, default_max_samples}
use diploma_munka.Iq.Valid.{IsWellFormed}
use diploma_munka.Iq.Plane.{IqDataPlane, IqDataPlaneConfig, receive, init, gap_after, count_drop}
use diploma_munka.Iq.Enqueue.{enqueue, offer, on_full, evict, mark_evicted, offer_again}
use diploma_munka.Iq.Window.{enqueue_all, enqueue_lem}

-- What the counter grows by over a run of sequence numbers, the last number seen before given.
total_gap : Option ℤ → List ℤ → ℤ
total_gap last [] = pos 0
total_gap last (n ∷ ns) = gap_after last n +ℤ total_gap (some n) ns

-- Each number is greater than the one before.
abbrev pub Ascending : ℤ → List ℤ → Type 0
Ascending a [] = Unit
Ascending a (n ∷ ns) = (a <ℤ n) × Ascending n ns

abbrev pub last_of : ℤ → List ℤ → ℤ
last_of a [] = a
last_of a (n ∷ ns) = last_of n ns

gap_after_lem : (a n : ℤ) → a <ℤ n → gap_after (some a) n +ℤ a +ℤ pos 1 ≡ n
unfolding gap_after
gap_after_lem a n h = elim (Bool-cases (ltb_ℤ (a +ℤ pos 1) n)) [
  | inl wide ↦ rw wide (omega int_laws)
  | inr next ↦ rw next (omega (int_laws, not_ltb_ℤ (a +ℤ pos 1) n next))
]

-- Over ascending numbers the gaps and the numbers seen make up the span.
total_gap_lem :
    (a : ℤ) (ns : List ℤ)
    → Ascending a ns
    → total_gap (some a) ns +ℤ a +ℤ pos (length ns) ≡ last_of a ns
unfolding total_gap
total_gap_lem a [] h = omega int_laws
total_gap_lem a (n ∷ ns) h =
    omega (int_laws, parts_of_eq (gap_after_lem a n h.0), parts_of_eq (total_gap_lem n ns h.1))

module _ {F S : Type 0} where
  -- After `receive`, `enqueue` leaves the gap counter and the last number alone.
  offer_keeps :
      (p : IqPacket F) (s : IqDataPlane F S)
      → ((offer p s).0.stats.sequence_gaps ≡ s.stats.sequence_gaps)
        × ((offer p s).0.stats.last_sequence ≡ s.stats.last_sequence)
  unfolding offer on_full count_drop evict mark_evicted offer_again
  offer_keeps p s = ground arith

  enqueue_gaps :
      (isfinite : F → Bool) (p : IqPacket F) (s : IqDataPlane F S)
      → IsWellFormed isfinite p default_max_samples
      → ((enqueue isfinite p s).0.stats.sequence_gaps
          ≡ s.stats.sequence_gaps +ℤ gap_after s.stats.last_sequence p.sequence)
        × ((enqueue isfinite p s).0.stats.last_sequence ≡ some p.sequence)
  unfolding receive
  enqueue_gaps isfinite p s w = rw (enqueue_lem isfinite p s w) (offer_keeps p (receive p s))

  enqueue_all_gaps :
      (isfinite : F → Bool) (ps : List (IqPacket F)) (s : IqDataPlane F S)
      → All (λ p. IsWellFormed isfinite p default_max_samples) ps
      → (enqueue_all isfinite ps s).stats.sequence_gaps
        ≡ s.stats.sequence_gaps +ℤ total_gap s.stats.last_sequence (map (λ p. p.sequence) ps)
  unfolding enqueue_all total_gap
  enqueue_all_gaps isfinite [] s w = omega int_laws
  enqueue_all_gaps isfinite (p ∷ ps) s w =
      let (grown, seen) = enqueue_gaps isfinite p s w.0 in
      enqueue_all_gaps isfinite ps (enqueue isfinite p s).0 w.1 ∙ rw (grown, seen) (omega int_laws)

  -- On a fresh plane, after well-formed packets with ascending sequence numbers, the gap counter, the
  -- packets seen and the first number make up the last number plus one: it counts exactly the numbers
  -- that were skipped.
  pub sequence_gaps_lem :
      (isfinite : F → Bool) (p : IqPacket F) (ps : List (IqPacket F)) (config : IqDataPlaneConfig)
      (start : S)
      → IsWellFormed isfinite p default_max_samples
      → All (λ p. IsWellFormed isfinite p default_max_samples) ps
      → Ascending p.sequence (map (λ p. p.sequence) ps)
      → (enqueue_all isfinite (p ∷ ps) (init config start)).stats.sequence_gaps
          +ℤ p.sequence
          +ℤ pos (length ps)
        ≡ last_of p.sequence (map (λ p. p.sequence) ps)
  unfolding total_gap gap_after init
  sequence_gaps_lem isfinite p ps config start w ws h =
      let numbers = map (λ (q : IqPacket F). q.sequence) ps in
      omega (
        int_laws,
        parts_of_eq (enqueue_all_gaps isfinite (p ∷ ps) (init config start) (w, ws)),
        parts_of_eq (total_gap_lem p.sequence numbers h),
        length-map (λ (q : IqPacket F). q.sequence) ps,
      )
