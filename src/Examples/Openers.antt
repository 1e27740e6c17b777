-- ===== src/Examples/Openers.antt =====
-- The system opener over processes that fail with an exit code.
use keyro_core.Common.{◌≡◌, ◌↔◌, refl, ℕ, pos, false, ok, some}
use keyro_core.Common.Exec.{pure}
use keyro_core.Domain.Urls.{SafeUrl, redacted_for_log}
use keyro_core.Platform.{ProcessLib, ExitStatus, macos, windows, system_url_opener}
use keyro_core.Platform.Redaction.{asked, IsStarted, open_url_iff, open_url-redacted_for_log}
use keyro_core.Examples.Crates.{urls}

abbrev exiting : ExitStatus → ProcessLib ℕ
exiting status = record { status = λ program args. pure status; debug_code = λ code. "Some(1)" }

abbrev failing : ProcessLib ℕ
failing = exiting (record { success = false; code = some (pos 1) })

abbrev plain : SafeUrl
plain = record { as_str = "https://example.com/?token=1" }

abbrev other : SafeUrl
other = record { as_str = "https://example.com/?token=2" }

open_url_iff_example :
    (((system_url_opener failing windows).open_url plain 0).0 ≡ ok tt)
    ↔ IsStarted failing (asked failing windows plain) 0
open_url_iff_example = open_url_iff failing windows plain 0

-- Two tokens, one failure text.
open_url-redacted_for_log_example :
    (system_url_opener failing macos).open_url plain 0
    ≡ (system_url_opener failing macos).open_url other 0
unfolding redacted_for_log
open_url-redacted_for_log_example = open_url-redacted_for_log failing macos plain other 0 refl refl
