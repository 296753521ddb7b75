-- ===== src/Tests/NumberTests.antt =====
-- Texts in which a number stands alone.
use golem_harness.Base.{Str, text, ◌≡◌, refl, ◌↔◌, true, some, [], inl}
use golem_harness.Trajectory.{redacted}
use golem_harness.Regex.{in_class, word_before, word_behind}
use golem_harness.Regex.Words.{StandsAlone}
use golem_harness.Sanitize.Redactor.{
  Redactor, ssn, long_numeric, sanitize_text, conservative_ner, new_text_redactor,
}
use golem_harness.Sanitize.Patterns.{match_pattern}
use golem_harness.Sanitize.Numbers.{
  IsSsn, IsLongNumber, ssn_exact, long_numeric_exact, sanitize_text-redacted,
}
use golem_harness.Tests.Toy.{toy}

abbrev note : Str
note = text "id 123-45-6789."

ssn_exact_example : (match_pattern ssn note ≡ true) ↔ StandsAlone IsSsn note
ssn_exact_example = ssn_exact note

long_numeric_exact_example :
    (match_pattern long_numeric note ≡ true) ↔ StandsAlone IsLongNumber note
long_numeric_exact_example = long_numeric_exact note

note_has-IsSsn : StandsAlone IsSsn note
unfolding text in_class word_before word_behind
note_has-IsSsn = record {
  before = text "id ";
  word = text "123-45-6789";
  behind = text ".";
  good = record {
    area = text "123";
    group = text "45";
    serial = text "6789";
    area_digits = ((refl, (refl, (refl, tt))), refl);
    group_digits = ((refl, (refl, tt)), refl);
    serial_digits = ((refl, (refl, (refl, (refl, tt)))), refl);
    dashed = refl;
  };
  split = refl;
  free_before = refl;
  free_behind = refl;
}

sanitize_text-redacted_example :
    (r' : Redactor) × (sanitize_text match_pattern toy conservative_ner note
        (text "root.text")
        new_text_redactor
      ≡ some (([], redacted), r'))
sanitize_text-redacted_example =
    sanitize_text-redacted toy conservative_ner note (text "root.text") new_text_redactor
      (inl note_has-IsSsn)
