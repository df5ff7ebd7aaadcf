-- ===== src/Ingest/Accepted.antt =====
-- What a frame that `validate_frame` of spectrum-ingest/app.py accepts is like.
use diploma_munka.Prelude.{
  ◌≡◌, refl, ◌⊎◌, inl, inr, Bool, true, false, not, ◌&&◌, ◌||◌, Option, none, some, List, [], ◌∷◌,
  String, all, All, length, is_some, Option-cases, Bool-cases, arith,
}
use diploma_munka.Prelude.Int.{ℤ, pos, ◌+ℤ◌, ◌-ℤ◌, ◌*ℤ◌, ◌≤ℤ◌, ltb_ℤ, leb_ℤ, eqb_ℤ→eq}
use diploma_munka.Prelude.Floats.{Floats}
use diploma_munka.Prelude.Results.{Result, ok, raise}
use diploma_munka.Ingest.Json.{
  Json, null, bool, int, float, str, arr, obj, Items, Fields, find_field, to_list, is_text, as_int,
  hashable,
}
use diploma_munka.Ingest.Frame.{
  Fault, first_fault, require, required, integer_fields, value, int_at, known_source, check_source,
  labelled, says_true, check_label, finite_number, all_finite, check_powers_list, frame_checks,
  validate_frame,
}

first_fault_sound :
    (cs : List (Result Fault (Unit {0}))) → first_fault cs ≡ ok tt → All (λ c. c ≡ ok tt) cs
unfolding first_fault
first_fault_sound [] h = tt
first_fault_sound (ok u ∷ cs) h = (refl, first_fault_sound cs h)
first_fault_sound (raise e ∷ cs) h = absurd (cc)

required_holds : (b : Bool) (text : String) → require b text ≡ ok tt → b ≡ true
required_holds true text h = refl
required_holds false text h = absurd (cc)

all-All {ℓ} : {A : Type ℓ} (p : A → Bool) (l : List A) → all p l ≡ true → All (λ x. p x ≡ true) l
all-All p [] h = tt
all-All p (x ∷ l) h = (ground arith, all-All p l (ground arith))

module _ (fl : Floats) where
  open fl use {F, isfinite, of_int}

  -- A float that is finite, or an integer that has a float.
  abbrev pub IsFinite : Json F → Type 0
  IsFinite v =
      (x : F) × ((v ≡ float x) ⊎ ((n : ℤ) × (v ≡ int n) × (of_int n ≡ some x)))
      × (isfinite x ≡ true)

  finite_number_sound : (v : Json F) → finite_number fl v ≡ ok true → IsFinite v
  unfolding finite_number
  finite_number_sound (float x) h = (x, inl refl, ground arith)
  finite_number_sound (int n) h = elim (Option-cases (of_int n)) [
    | inl e ↦ absurd (ground arith)
    | inr (x, e) ↦ (x, inr (n, refl, e), ground arith)
  ]
  finite_number_sound null h = absurd (cc)
  finite_number_sound (bool b) h = absurd (cc)
  finite_number_sound (str s) h = absurd (cc)
  finite_number_sound (arr vs) h = absurd (cc)
  finite_number_sound (obj fs) h = absurd (cc)

  all_finite_sound : (l : List (Json F)) → all_finite fl l ≡ ok true → All IsFinite l
  unfolding all_finite
  all_finite_sound [] h = tt
  all_finite_sound (v ∷ l) h =
      (finite_number_sound v (ground arith), all_finite_sound l (ground arith))

  powers_sound :
      (points : ℤ) (v : Json F)
      → check_powers_list fl points v ≡ ok tt
      → (vs : Items F) × (v ≡ arr vs)
        × (pos (length (to_list vs)) ≡ points)
        × All IsFinite (to_list vs)
  unfolding check_powers_list
  powers_sound points (arr vs) h =
      (vs, refl, eqb_ℤ→eq _ _ (ground arith), all_finite_sound (to_list vs) (ground arith))
  powers_sound points null h = absurd (cc)
  powers_sound points (bool b) h = absurd (cc)
  powers_sound points (int n) h = absurd (cc)
  powers_sound points (float x) h = absurd (cc)
  powers_sound points (str s) h = absurd (cc)
  powers_sound points (obj fs) h = absurd (cc)

  says_true_sound : (o : Option (Json F)) → says_true o ≡ true → o ≡ some (bool true)
  says_true_sound (some (bool true)) h = refl
  says_true_sound (some (bool false)) h = absurd (cc)
  says_true_sound none h = absurd (cc)
  says_true_sound (some null) h = absurd (cc)
  says_true_sound (some (int n)) h = absurd (cc)
  says_true_sound (some (float x)) h = absurd (cc)
  says_true_sound (some (str s)) h = absurd (cc)
  says_true_sound (some (arr vs)) h = absurd (cc)
  says_true_sound (some (obj fs)) h = absurd (cc)

  labelled_sound :
      (v : Json F)
      → labelled v ≡ ok tt
      → (ms : Fields F) × (v ≡ obj ms) × (find_field "is_simulated" ms ≡ some (bool true))
  labelled_sound (obj fs) h = (fs, refl, says_true_sound _ (required_holds _ _ h))
  labelled_sound null h = absurd (cc)
  labelled_sound (bool b) h = absurd (cc)
  labelled_sound (int n) h = absurd (cc)
  labelled_sound (float x) h = absurd (cc)
  labelled_sound (str s) h = absurd (cc)
  labelled_sound (arr vs) h = absurd (cc)

  -- A simulated source carries the label; any other source needs none.
  abbrev pub IsLabelled : Fields F → Type 0
  IsLabelled fs =
      ((is_text "mock" (value fs "source_type") ≡ false)
        × (is_text "replay" (value fs "source_type") ≡ false))
      ⊎ ((ms : Fields F) × (value fs "metadata" ≡ obj ms)
          × (find_field "is_simulated" ms ≡ some (bool true)))

  label_sound : (fs : Fields F) → check_label fs ≡ ok tt → IsLabelled fs
  label_sound fs h = elim (Bool-cases (is_text "mock" source || is_text "replay" source)) [
    | inl simulated ↦ inr (labelled_sound (value fs "metadata") (rw simulated at h))
    | inr real ↦ inl (ground arith, ground arith)
  ]
    where
      source : Json F
      source = value fs "source_type"

  source_sound : (v : Json F) → known_source v ≡ true → (s : String) × (v ≡ str s)
  source_sound (str s) h = (s, refl)
  source_sound null h = absurd (cc)
  source_sound (bool b) h = absurd (cc)
  source_sound (int n) h = absurd (cc)
  source_sound (float x) h = absurd (cc)
  source_sound (arr vs) h = absurd (cc)
  source_sound (obj fs) h = absurd (cc)

  -- What an accepted object is like.
  pub record IsFrame (max_points : ℤ) (fs : Fields F) : Type 0 where
    pub complete : All (λ key. is_some (find_field key fs) ≡ true) required
    pub known : known_source (value fs "source_type") ≡ true
    pub integers : All (λ key. is_some (as_int (value fs key)) ≡ true) integer_fields
    pub some_points : pos 1 ≤ℤ int_at fs "num_points"
    pub few_points : int_at fs "num_points" ≤ℤ max_points
    pub step : pos 1 ≤ℤ int_at fs "step_frequency_hz"
    pub axis :
        int_at fs "stop_frequency_hz"
        ≡ int_at fs "start_frequency_hz"
          +ℤ int_at fs "step_frequency_hz" *ℤ (int_at fs "num_points" -ℤ pos 1)
    pub above_start : int_at fs "start_frequency_hz" ≤ℤ int_at fs "center_frequency_hz"
    pub below_stop : int_at fs "center_frequency_hz" ≤ℤ int_at fs "stop_frequency_hz"
    pub powers :
        (vs : Items F) × (value fs "powers_dbm" ≡ arr vs)
        × (pos (length (to_list vs)) ≡ int_at fs "num_points")
        × All IsFinite (to_list vs)
    pub label : IsLabelled fs

  points_sound :
      (points step max_points : ℤ) (same : Bool)
      → (not (leb_ℤ points (pos 0))
          && not (ltb_ℤ max_points points)
          && same
          && not (leb_ℤ step (pos 0)))
        ≡ true
      → (pos 1 ≤ℤ points) × (points ≤ℤ max_points) × (pos 1 ≤ℤ step)
  points_sound points step max_points same h = (ground arith, ground arith, ground arith)

  between_sound : (a b c : ℤ) → (leb_ℤ a b && leb_ℤ b c) ≡ true → (a ≤ℤ b) × (b ≤ℤ c)
  between_sound a b c h = (ground arith, ground arith)

  source_known :
      (fs : Fields F) → check_source fs ≡ ok tt → known_source (value fs "source_type") ≡ true
  source_known fs h = elim (Bool-cases (hashable (value fs "source_type"))) [
    | inl y ↦ required_holds _ "invalid source_type" (rw y at h)
    | inr n ↦ absurd (cc (rw n at h))
  ]

  module _ {Stamp : Type 0} (parse_iso : String → Option Stamp) (has_timezone : Stamp → Bool) where
    -- An accepted frame has every required field, a known source type, integers where they are asked
    -- for, between 1 and `max_points` points, a positive frequency step, a stop frequency that lies
    -- exactly `num_points - 1` steps above the start, a centre between the two, a list of as many
    -- finite powers as points, and, if its source is simulated, a label that says so.
    pub validate_frame_sound :
        (max_points : ℤ) (fs : Fields F)
        → validate_frame fl parse_iso has_timezone max_points (obj fs) ≡ ok tt
        → IsFrame max_points fs
    unfolding validate_frame
    validate_frame_sound max_points fs h =
        let (a, (_, (c, (_, (_, (f, (g, (i, (j, (k, (_, (m, _)))))))))))) =
          first_fault_sound (frame_checks fl parse_iso has_timezone max_points fs) h in
        let (low, high, step) =
          points_sound (int_at fs "num_points") (int_at fs "step_frequency_hz") max_points _
            (required_holds _ "invalid point count or frequency step" g) in
        let (above, below) =
          between_sound (int_at fs "start_frequency_hz") (int_at fs "center_frequency_hz")
            (int_at fs "stop_frequency_hz")
            (required_holds _ "center frequency is outside the frame" j) in
        record {
          complete =
              all-All (λ key. is_some (find_field key fs)) required
                (required_holds _ "missing required SpectrumFrame fields" a);
          known = source_known fs c;
          integers =
              all-All (λ key. is_some (as_int (value fs key))) integer_fields
                (required_holds _ "integer frame field has invalid type" f);
          some_points = low;
          few_points = high;
          step = step;
          axis = eqb_ℤ→eq _ _ (required_holds _ "frequency axis is inconsistent" i);
          above_start = above;
          below_stop = below;
          powers = powers_sound (int_at fs "num_points") (value fs "powers_dbm") k;
          label = label_sound fs m;
        }
