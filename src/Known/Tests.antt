-- ===== src/Known/Tests.antt =====
-- A profile of a known signal and measurements of it.
use diploma_munka.Prelude.{
  [], ◌∷◌, ◌<◌, length, arith, ◌≡◌, refl, ◌↔◌, true, none, some, str_eq, if◌then◌else◌,
}
use diploma_munka.Prelude.Int.{pos, ◌-ℤ◌}
use diploma_munka.Prelude.Values.{Dict, get}
use diploma_munka.Prelude.Results.{ok}
use diploma_munka.Samples.{plain_text, number, word, values}
use diploma_munka.Known.Match.{
  Verdict, evaluate_known_signal, evaluate_at, verdict, int_field, check_all, check_one,
}
use diploma_munka.Known.Laws.{Judged, evaluate_known_signal_lem, suppression_rests_on_more}

abbrev profile : Dict values
profile key =
    if str_eq key "center_frequency_hz"
    then some (number 1000)
    else if str_eq key "frequency_tolerance_hz"
    then some (number 10)
    else if str_eq key "suppress_alerts"
    then some (number 1)
    else if str_eq key "status"
    then some (word "active")
    else none

abbrev measurement : Dict values
measurement key = if str_eq key "center_frequency_hz" then some (number 1003) else none

abbrev outcome : Verdict
outcome = evaluate_at plain_text values profile measurement (pos 1003) (pos 1000) (pos 10)

evaluated : evaluate_known_signal plain_text values profile measurement ≡ ok outcome
unfolding evaluate_known_signal int_field
evaluated = refl

suppressed : outcome.suppress_alert ≡ true
unfolding evaluate_at verdict check_all check_one ◌-ℤ◌
suppressed = refl

evaluate_known_signal_lem_example : Judged plain_text values profile measurement outcome
evaluate_known_signal_lem_example =
    evaluate_known_signal_lem plain_text values profile measurement outcome evaluated

abbrev known_modulation : Dict values
known_modulation key = if str_eq key "modulation" then some (word "gfsk") else profile key

abbrev same_modulation : Dict values
same_modulation key = if str_eq key "modulation" then some (word "gfsk") else measurement key

abbrev agreed_outcome : Verdict
agreed_outcome =
    evaluate_at plain_text values known_modulation same_modulation (pos 1003) (pos 1000) (pos 10)

agreed_evaluated :
    evaluate_known_signal plain_text values known_modulation same_modulation ≡ ok agreed_outcome
unfolding evaluate_known_signal int_field
agreed_evaluated = refl

agreed_lists : agreed_outcome.matched_attributes ≡ "frequency" ∷ "modulation" ∷ []
unfolding evaluate_at verdict check_all check_one ◌-ℤ◌
agreed_lists = refl

suppression_rests_on_more_example : (agreed_outcome.suppress_alert ≡ true) ↔ (
    (values.truthy (get values known_modulation "suppress_alerts") ≡ true)
    × (values.eq (get values known_modulation "status") (values.of_text "active") ≡ true)
    × (agreed_outcome.mismatches ≡ [])
    × (1 < length agreed_outcome.matched_attributes))
suppression_rests_on_more_example =
    suppression_rests_on_more plain_text values known_modulation same_modulation agreed_outcome
      agreed_evaluated (omega arith)
