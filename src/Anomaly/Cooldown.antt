-- ===== src/Anomaly/Cooldown.antt =====
-- The cooldowns of `SpectrumAnomalyDetector` in services/anomaly/spectrum.py: a finding that was
-- reported is not reported again for `cooldown_frames` frames.
use diploma_munka.Prelude.{
  ℕ, ◌+◌, ◌-◌, ◌<◌, ◌≡◌, refl, ◌∙◌, Bool, true, false, List, [], ◌∷◌, String, str_eq, eq_iff,
  if◌then◌else◌, ltb, ◌==◌, arith, Bool-cases, inl, inr, not_ltb, ap,
}

-- `_cooldowns`: the frames that remain for a key, 0 for a key that is not there. The loop of
-- `process` deletes a key whose count falls to 0.
abbrev pub Cooldowns : Type 0
Cooldowns = String → ℕ

-- The loop at the start of `process`.
unfoldable pub next_frame : Cooldowns → Cooldowns
next_frame c key = c key - 1

unfoldable pub set_cooldown : String → ℕ → Cooldowns → Cooldowns
set_cooldown key n c k = if str_eq k key then n else c k

-- `_emit_once`, with `cooldown_frames`.
unfoldable pub emit_once : ℕ → String → Cooldowns → Bool × Cooldowns
emit_once cooldown_frames key c =
    if ltb 0 (c key) then (false, c) else (true, set_cooldown key cooldown_frames c)

-- What `process` does to the cooldowns: a new frame, or a finding under a key.
pub data Use : Type 0 where
  frame : Use
  asks : String → Use

unfoldable pub use_one : ℕ → Use → Cooldowns → Cooldowns
use_one n frame c = next_frame c
use_one n (asks key) c = (emit_once n key c).1

unfoldable pub use_all : ℕ → List Use → Cooldowns → Cooldowns
use_all n [] c = c
use_all n (u ∷ us) c = use_all n us (use_one n u c)

abbrev pub frames : List Use → ℕ
frames [] = 0
frames (frame ∷ us) = 1 + frames us
frames (asks key ∷ us) = frames us

asks_keeps :
    (n : ℕ) (key other : String) (c : Cooldowns) → 0 < c key → (emit_once n other c).1 key ≡ c key
unfolding emit_once set_cooldown
asks_keeps n key other c h = elim (Bool-cases (ltb 0 (c other))) [
  | inl e ↦ rw e refl
  | inr e ↦ elim (Bool-cases (str_eq key other)) [
    | inl same ↦
        let equal : c key ≡ c other = ap c ((eq_iff key other).0 same) in
        absurd (omega (arith, h, equal, not_ltb 0 (c other) e))
    | inr apart ↦ rw (e, apart) refl
  ]
]

-- A key is reported exactly when no frame of its cooldown remains.
emit_once-free : (n : ℕ) (key : String) (c : Cooldowns) → (emit_once n key c).0 ≡ (c key == 0)
unfolding emit_once
emit_once-free n key c = ground arith

emit_once-starts :
    (n : ℕ) (key : String) (c : Cooldowns)
    → (emit_once n key c).0 ≡ true
    → (emit_once n key c).1 key ≡ n
unfolding emit_once set_cooldown
emit_once-starts n key c h = elim (Bool-cases (ltb 0 (c key))) [
  | inl e ↦ absurd (cc (rw e at h))
  | inr e ↦ rw (e, (eq_iff key key).1 refl) refl
]

use_all-remaining :
    (n : ℕ) (key : String) (us : List Use) (c : Cooldowns)
    → frames us < c key
    → use_all n us c key ≡ c key - frames us
unfolding use_all use_one next_frame
use_all-remaining n key [] c h = omega arith
use_all-remaining n key (frame ∷ us) c h =
    use_all-remaining n key us (next_frame c) (omega arith) ∙ omega arith
use_all-remaining n key (asks other ∷ us) c h =
    let kept = asks_keeps n key other c (omega (arith, h)) in
    use_all-remaining n key us (emit_once n other c).1 (omega (arith, h, kept))
    ∙ omega (arith, kept)

-- After a key was reported, and whatever other findings come up in the meantime, it is not reported
-- again while fewer than `cooldown_frames` frames have passed, and it is again as soon as that many
-- have.
pub emit_once_lem :
    (n : ℕ) (key : String) (c : Cooldowns) (us : List Use)
    → (emit_once n key c).0 ≡ true
    → frames us < n
    → let later = use_all n us (emit_once n key c).1 in
      ((emit_once n key later).0 ≡ false)
      × ((emit_once n key (next_frame later)).0 ≡ (frames us + 1 == n))
unfolding next_frame
emit_once_lem n key c us h k =
    let start = emit_once-starts n key c h in
    let remaining = use_all-remaining n key us (emit_once n key c).1 (omega (arith, k, start)) in
    (
      emit_once-free n key (use_all n us (emit_once n key c).1)
          ∙ ground (arith, remaining, start, k),
      emit_once-free n key (next_frame (use_all n us (emit_once n key c).1))
          ∙ ground (arith, remaining, start, k),
    )
