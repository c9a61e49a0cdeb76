-- ===== src/Stack/Ptp.antt =====
-- src/ptp.c: the callback of the PTP tap. What it does with a frame so far is a line of the log.
use esp_smoltcp.Common.{ℕ, ◌+◌, ◌%◌, Option, none, some, List, if◌then◌else◌, ltb, length, get_or}

-- The message type that `ptp_rx` logs, `none` for a frame that is too short.
unfoldable pub ptp_rx : List ℕ → Option ℕ
ptp_rx frame = if ltb (length frame) (14 + 34) then none else some (get_or frame 14 0 % 16)
