-- ===== src/Transcription/Retries/Tests.antt =====
-- Three failures, then a success.
use textify.Prelude.{ℕ, false, ◌≡◌, ◌↔◌, ltb, if◌then◌else◌}
use textify.Transcription.Retries.{
  done, raised, provider_error, Attempt, extract_info_with_retries, max_attempts,
}
use textify.Transcription.Retries.Attempts.{Succeeds, Exhausts, extract_info_with_retries-Succeeds}

abbrev world : ℕ → Attempt ℕ
world i = record {
  cancelled_before = false;
  now_before = i;
  outcome = if ltb i 3 then raised provider_error else done 7;
  cancelled_after = false;
  now_after = i;
}

extract_info_with_retries-Succeeds_example :
    ((extract_info_with_retries 20 world ≡ done 7) ↔ Succeeds 20 world max_attempts 0 7)
    × (extract_info_with_retries 20 world ≡ raised provider_error
        → Exhausts 20 world max_attempts 0)
extract_info_with_retries-Succeeds_example = extract_info_with_retries-Succeeds 20 world 7
