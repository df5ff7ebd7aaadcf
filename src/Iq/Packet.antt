-- ===== src/Iq/Packet.antt =====
-- The packet of python-processor/app/services/sdrangel/iq_pipeline.py and its `validate`.
-- A sample's two components are of an abstract float type `F`; the code only asks `math.isfinite`.
use diploma_munka.Prelude.{ℕ, Bool, not, ◌||◌, List, [], ◌∷◌, String, ltb, str_eq, length, any}
use diploma_munka.Prelude.Int.{ℤ, pos, ltb_ℤ, leb_ℤ, eqb_ℤ}
use diploma_munka.Prelude.Results.{Result, raise_first}

pub data IqError : Type 0 where
  unsupported_iq_protocol_version unsupported_iq_sample_format : IqError
  invalid_iq_frequency_metadata invalid_iq_sequence_metadata : IqError
  invalid_iq_sample_count negative_iq_quality_counter non_finite_iq_sample : IqError

pub record IqPacket (F : Type 0) : Type 0 where
  pub protocol_version : ℤ
  pub sample_format : String
  pub sample_rate_hz : ℤ
  pub center_frequency_hz : ℤ
  pub timestamp_ns : ℤ
  pub sequence : ℤ
  pub samples : List (F × F)
  pub packet_loss : ℤ
  pub overflow : ℤ

abbrev pub protocol_version : ℤ
protocol_version = pos 1

abbrev pub supported_sample_format : String → Bool
supported_sample_format s = str_eq s "cf32_le" || str_eq s "ci16_le"

abbrev pub default_max_samples : ℕ
default_max_samples = 1_048_576

module _ {F : Type 0} (isfinite : F → Bool) where
  abbrev pub non_finite : F × F → Bool
  non_finite s = not (isfinite s.0) || not (isfinite s.1)

  -- The tests of `validate`, in order, with what each raises.
  abbrev pub checks : IqPacket F → ℕ → List (Bool × IqError)
  checks p max_samples =
      (not (eqb_ℤ p.protocol_version protocol_version), unsupported_iq_protocol_version)
      ∷ (not (supported_sample_format p.sample_format), unsupported_iq_sample_format)
      ∷ (
        leb_ℤ p.sample_rate_hz (pos 0) || leb_ℤ p.center_frequency_hz (pos 0),
        invalid_iq_frequency_metadata,
      )
      ∷ (leb_ℤ p.timestamp_ns (pos 0) || ltb_ℤ p.sequence (pos 0), invalid_iq_sequence_metadata)
      ∷ (ltb (length p.samples) 1 || ltb max_samples (length p.samples), invalid_iq_sample_count)
      ∷ (ltb_ℤ p.packet_loss (pos 0) || ltb_ℤ p.overflow (pos 0), negative_iq_quality_counter)
      ∷ (any non_finite p.samples, non_finite_iq_sample)
      ∷ []

  unfoldable pub validate : IqPacket F → ℕ → Result IqError (Unit {0})
  validate p max_samples = raise_first (checks p max_samples)
