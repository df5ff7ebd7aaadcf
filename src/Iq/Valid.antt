-- ===== src/Iq/Valid.antt =====
-- What `IqPacket.validate` of python-processor/app/services/sdrangel/iq_pipeline.py lets through.
use diploma_munka.Prelude.{
  ℕ, ◌≤◌, ◌≡◌, ◌⊎◌, ◌↔◌, refl, Bool, true, false, not, List, [], ◌∷◌, String, arith, length, any,
  All, eq_iff,
}
use diploma_munka.Prelude.Int.{pos, ◌≤ℤ◌, ◌<ℤ◌, eqb_ℤ→eq}
use diploma_munka.Prelude.Results.{ok, raise_first_sound, raise_first_complete}
use diploma_munka.Iq.Packet.{
  IqPacket, checks, validate, non_finite, protocol_version, supported_sample_format,
}

module _ {F : Type 0} (isfinite : F → Bool) where
  -- Every component of every sample is finite.
  abbrev pub AllFinite : List (F × F) → Type 0
  AllFinite = All (λ s. (isfinite s.0 ≡ true) × (isfinite s.1 ≡ true))

  pub record IsWellFormed (p : IqPacket F) (max_samples : ℕ) : Type 0 where
    pub version : p.protocol_version ≡ protocol_version
    pub format : (p.sample_format ≡ "cf32_le") ⊎ (p.sample_format ≡ "ci16_le")
    pub rate : pos 0 <ℤ p.sample_rate_hz
    pub center : pos 0 <ℤ p.center_frequency_hz
    pub stamped : pos 0 <ℤ p.timestamp_ns
    pub numbered : pos 0 ≤ℤ p.sequence
    pub some_samples : 1 ≤ length p.samples
    pub few_samples : length p.samples ≤ max_samples
    pub loss : pos 0 ≤ℤ p.packet_loss
    pub overflows : pos 0 ≤ℤ p.overflow
    pub finite : AllFinite p.samples

  any-non_finite : (l : List (F × F)) → any (non_finite isfinite) l ≡ false → AllFinite l
  any-non_finite [] h = tt
  any-non_finite (s ∷ l) h = ((ground arith, ground arith), any-non_finite l (ground arith))

  AllFinite-any : (l : List (F × F)) → AllFinite l → any (non_finite isfinite) l ≡ false
  AllFinite-any [] h = refl
  AllFinite-any (s ∷ l) h = ground (arith, AllFinite-any l h.1)

  supported : (s : String) → supported_sample_format s ≡ true → (s ≡ "cf32_le") ⊎ (s ≡ "ci16_le")
  supported s h = ground (arith, eq_iff s "cf32_le", eq_iff s "ci16_le")

  supported_of : (s : String) → (s ≡ "cf32_le") ⊎ (s ≡ "ci16_le") → supported_sample_format s ≡ true
  supported_of s h = ground (arith, eq_iff s "cf32_le", eq_iff s "ci16_le")

  not-false : (b : Bool) → not b ≡ false → b ≡ true
  not-false b h = ground arith

  validate_sound : (p : IqPacket F) (n : ℕ) → validate isfinite p n ≡ ok tt → IsWellFormed p n
  unfolding validate
  validate_sound p n h =
      let (a, (b, (c, (d, (e, (f, (g, _))))))) = raise_first_sound (checks isfinite p n) h in
      record {
        version = eqb_ℤ→eq _ _ (not-false _ a);
        format = supported p.sample_format (not-false _ b);
        rate = ground arith;
        center = ground arith;
        stamped = ground arith;
        numbered = ground arith;
        some_samples = ground arith;
        few_samples = ground arith;
        loss = ground arith;
        overflows = ground arith;
        finite = any-non_finite p.samples g;
      }

  validate_complete : (p : IqPacket F) (n : ℕ) → IsWellFormed p n → validate isfinite p n ≡ ok tt
  unfolding validate
  validate_complete p n w = raise_first_complete (checks isfinite p n) (
    rw w.version,
    (
      rw (supported_of p.sample_format w.format),
      (
        ground arith,
        (ground arith, (ground arith, (ground arith, (AllFinite-any p.samples w.finite, tt)))),
      ),
    ),
  )

  -- `validate` returns exactly on the well-formed packets: version 1, a known sample format,
  -- positive rate, centre frequency and time stamp, a sequence number and quality counters that are
  -- not negative, between 1 and `max_samples` samples, and all of these finite.
  pub validate_iff : (p : IqPacket F) (n : ℕ) → (validate isfinite p n ≡ ok tt) ↔ IsWellFormed p n
  validate_iff p n = (validate_sound p n, validate_complete p n)
