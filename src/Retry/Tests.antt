-- ===== src/Retry/Tests.antt =====
-- chunk-retry.js at concrete inputs.
use skillmeter_claude_code_m.Prelude.{◌≡◌, refl}
use skillmeter_claude_code_m.Retry.{retry_delay_ms, retry_base_ms, retry_cap_ms}

retry_delay_ms_five : retry_delay_ms 5 retry_base_ms retry_cap_ms ≡ 960000
unfolding retry_delay_ms
retry_delay_ms_five = refl
