-- ===== src/Ingest/Packets.antt =====
-- What one UDP datagram does to the audio side of spectrum-ingest/app.py.
use diploma_munka.Prelude.{
  ℕ, ◌+◌, ◌-◌, ◌*◌, ◌/◌, ◌%◌, ◌≤◌, ◌<◌, ◌≡◌, ◌⊎◌, refl, inl, inr, true, false, List, some, none,
  String, arith, length, take, length-take, take-length, sym, ltb, not_ltb, ltb→lt, ap, ◌==◌,
  Bool-cases, All,
}
use diploma_munka.Ingest.Fanout.{fan_out}
use diploma_munka.Ingest.State.{IngestState}
use diploma_munka.Ingest.Audio.{whole_samples, play, count_invalid_packet, datagram_received}
use diploma_munka.Ingest.Clients.{WellKept, FannedOut, fan_out_lem}

halves : (n : ℕ) → (n % 2 == 0) ≡ true → n ≡ 2 * (n / 2)
halves n even = ground arith

odd_halves : (n : ℕ) → (n % 2 == 0) ≡ false → n - 1 ≡ 2 * (n / 2)
odd_halves n odd = ground arith

length-whole_samples : (bytes : List ℕ) → length (whole_samples bytes) ≡ 2 * (length bytes / 2)
unfolding whole_samples
length-whole_samples bytes = elim (Bool-cases (length bytes % 2 == 0)) [
  | inl even ↦ rw even (halves (length bytes) even)
  | inr odd ↦ rw (odd, length-take) (omega (arith, odd_halves (length bytes) odd))
]

whole_samples_prefix : (bytes : List ℕ) → whole_samples bytes ≡ take (2 * (length bytes / 2)) bytes
unfolding whole_samples
whole_samples_prefix bytes = elim (Bool-cases (length bytes % 2 == 0)) [
  | inl even ↦ rw (even, sym (halves (length bytes) even)) (sym (take-length bytes))
  | inr odd ↦ rw (odd, odd_halves (length bytes) odd) refl
]

module _ {F : Type 0} where
  -- The samples reached every listener.
  pub record Played (max_packet : ℕ) (now : String) (bytes : List ℕ) (s t : IngestState F)
      : Type 0 where
    pub size : (2 ≤ length bytes) × (length bytes ≤ max_packet)
    pub packets : t.metrics.audio_packets ≡ s.metrics.audio_packets + 1
    pub volume : t.metrics.audio_bytes ≡ s.metrics.audio_bytes + 2 * (length bytes / 2)
    pub invalid : t.metrics.audio_invalid_packets ≡ s.metrics.audio_invalid_packets
    pub last : t.audio_last_packet_at ≡ some now
    pub error : t.audio_last_error ≡ none
    pub handed_on :
        FannedOut
          (take (2 * (length bytes / 2)) bytes)
          s.audio_clients
          (t.audio_clients, t.metrics.audio_dropped_packets - s.metrics.audio_dropped_packets)

  -- It was counted as invalid, and that is all.
  pub record Ignored (max_packet : ℕ) (bytes : List ℕ) (s t : IngestState F) : Type 0 where
    pub size : (length bytes < 2) ⊎ (max_packet < length bytes)
    pub invalid : t.metrics.audio_invalid_packets ≡ s.metrics.audio_invalid_packets + 1
    pub packets : t.metrics.audio_packets ≡ s.metrics.audio_packets
    pub volume : t.metrics.audio_bytes ≡ s.metrics.audio_bytes
    pub lost : t.metrics.audio_dropped_packets ≡ s.metrics.audio_dropped_packets
    pub clients : t.audio_clients ≡ s.audio_clients

  -- What may come of a datagram.
  pub data Heard (max_packet : ℕ) (now : String) (bytes : List ℕ) (s t : IngestState F)
      : Type 0 where
    played : Played max_packet now bytes s t → Heard max_packet now bytes s t
    ignored : Ignored max_packet bytes s t → Heard max_packet now bytes s t

  Played_lem :
      (max_packet : ℕ) (now : String) (bytes : List ℕ) (s : IngestState F)
      → (2 ≤ length bytes) × (length bytes ≤ max_packet)
      → All WellKept s.audio_clients
      → Played max_packet now bytes s (play now (whole_samples bytes) s)
  unfolding play
  Played_lem n now bytes s size kept = record {
    size = size;
    packets = refl;
    volume = ap (λ k. s.metrics.audio_bytes + k) (length-whole_samples bytes);
    invalid = refl;
    last = refl;
    error = refl;
    handed_on = rw (sym (whole_samples_prefix bytes)) (handed_on_lem _ s kept);
  }
    where
      handed_on_lem :
          (heard : List ℕ) (s : IngestState F)
          → All WellKept s.audio_clients
          → FannedOut heard s.audio_clients (
            (fan_out heard s.audio_clients).0,
            s.metrics.audio_dropped_packets
                + (fan_out heard s.audio_clients).1
                - s.metrics.audio_dropped_packets,
          )
      handed_on_lem heard s kept =
          let m = s.metrics.audio_dropped_packets in
          let n = (fan_out heard s.audio_clients).1 in
          let e : m + n - m ≡ n = omega arith in rw e (fan_out_lem heard s.audio_clients kept)

  -- A datagram of two bytes to the largest size is played: every listener's queue ends with its
  -- whole 16-bit samples, an odd last byte being cut off, and stays within its size, and the
  -- counters of packets and bytes grow by it. Any other datagram is counted once as invalid and
  -- reaches nobody. The listeners' queues are within their sizes before.
  pub datagram_received_lem :
      (max_packet : ℕ) (now : String) (bytes : List ℕ) (s : IngestState F)
      → All WellKept s.audio_clients
      → Heard max_packet now bytes s (datagram_received max_packet now bytes s)
  unfolding datagram_received count_invalid_packet
  datagram_received_lem n now bytes s kept = elim (Bool-cases (ltb (length bytes) 2)) [
    | inl e ↦ rw e (ignored (ignored_lem (inl (ltb→lt _ _ e))))
    | inr small ↦ elim (Bool-cases (ltb n (length bytes))) [
      | inl e ↦ rw (small, e) (ignored (ignored_lem (inr (ltb→lt _ _ e))))
      | inr large ↦
          let two : 2 ≤ length bytes = not_ltb (length bytes) 2 small in
          let some_left : (length (whole_samples bytes) == 0) ≡ false =
            rw (length-whole_samples bytes) (ground arith) in
          rw (small, large, some_left)
            (played (Played_lem n now bytes s (two, not_ltb _ _ large) kept))
    ]
  ]
    where
      ignored_lem :
          (length bytes < 2) ⊎ (n < length bytes) → Ignored n bytes s (count_invalid_packet s)
      ignored_lem reason = record {
        size = reason;
        invalid = refl;
        packets = refl;
        volume = refl;
        lost = refl;
        clients = refl;
      }
