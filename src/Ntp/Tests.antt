-- ===== src/Ntp/Tests.antt =====
-- Runs of the SNTP client's round on concrete packets.
use esp_smoltcp.Common.{ℕ, pos, negsuc, ◌≡◌, refl, some, List, ◌∷◌, ◌++◌, replicate, arith}
use esp_smoltcp.Ntp.{ntp_round}
use esp_smoltcp.Ntp.Clock.{ntp_round_exact, ntp_round_next_era}

abbrev packet : ℕ → ℕ → ℕ → ℕ → List ℕ
packet a b c d = replicate 40 0 ++ a ∷ b ∷ c ∷ d ∷ replicate 4 0

-- 1 January 1970, 00:00:00
ntp_round_exact_example : ntp_round (pos 48) (packet 131 170 126 128) ≡ some (pos 0)
ntp_round_exact_example =
    ntp_round_exact 48 (packet 131 170 126 128) 0 (omega arith) (omega arith)
      (record { byte0 = refl; byte1 = refl; byte2 = refl; byte3 = refl })

-- 7 February 2036, 06:28:21
ntp_round_next_era_example : ntp_round (pos 48) (packet 0 0 0 5) ≡ some (negsuc 2208988794)
ntp_round_next_era_example =
    ntp_round_next_era 48 (packet 0 0 0 5) 5 (omega arith) (omega arith)
      (record { byte0 = refl; byte1 = refl; byte2 = refl; byte3 = refl })
