-- ===== src/Core/Tests.antt =====
-- Runs of components/esp_smoltcp_glue/src on concrete inputs.
use esp_smoltcp.Common.{ℕ, ◌≡◌, refl, true, none, some, [], ◌∷◌, arith, take, length-take}
use esp_smoltcp.Compat.Inet.{split_dots}
use esp_smoltcp.Core.Outcome.{value, Returns}
use esp_smoltcp.Core.Device.{
  Phy, Calls, finish, receives, transmits, writes, all_free, trailing_zeros, run_calls,
}
use esp_smoltcp.Core.Device.Pool.{Fits, run_calls-ideal}
use esp_smoltcp.Core.Dns.{build_query, push_labels, parse_a_response}
use esp_smoltcp.Core.Dns.Wire.{reply}
use esp_smoltcp.Core.Dns.RoundTrip.{parse_a_response-reply}
use esp_smoltcp.Core.Dns.Safe.{IsAddress, parse_a_response-Returns}
use esp_smoltcp.Core.Samples.{name_sample, query_sample, records_sample}

parse_a_response-reply_example :
    parse_a_response (reply query_sample 33152 records_sample 0 0 []) 4660
    ≡ value (10 ∷ 0 ∷ 0 ∷ 7 ∷ [])
unfolding build_query push_labels split_dots
parse_a_response-reply_example =
    parse_a_response-reply 4660 name_sample query_sample 33152 records_sample 0 0 [] refl refl
      (omega arith, (((omega arith, omega arith), tt), tt))

parse_a_response-Returns_example :
    Returns IsAddress (parse_a_response (reply query_sample 33152 records_sample 0 0 []) 4660)
parse_a_response-Returns_example =
    parse_a_response-Returns (reply query_sample 33152 records_sample 0 0 []) 4660

-- A poll that answers the frame in the inbox and then sends one of its own.
abbrev calls_sample : Calls ℕ
calls_sample =
    receives (finish 0) (λ frame. writes (take 60 frame))
      (λ frame. transmits (finish 1) (writes (7 ∷ [])) (finish 2))

abbrev phy_sample : Phy
phy_sample = record {
  dev = record { iface_id = 0; rx_inbox = some (1 ∷ 2 ∷ []); link_up = true };
  pool = all_free;
  sent = [];
}

Fits-calls_sample : Fits calls_sample
Fits-calls_sample = (tt, (λ frame. (omega (arith, length-take 60 frame), (tt, omega arith, tt))))

run_calls-ideal_example :
    run_calls calls_sample phy_sample
    ≡ value (
      2,
      record {
        dev = record { iface_id = 0; rx_inbox = none; link_up = true };
        pool = all_free;
        sent = (0, 7 ∷ []) ∷ (0, 1 ∷ 2 ∷ []) ∷ [];
      },
    )
unfolding trailing_zeros
run_calls-ideal_example = run_calls-ideal calls_sample phy_sample 0 Fits-calls_sample refl
