-- ===== src/Ping/Examples.antt =====
-- The theorems on src/stream/proto/ping.rs at concrete times and packets.
use moonlight_common_rust.Common.{
  ℕ, ◌+◌, ◌-◌, ◌*◌, ◌≤◌, ◌≡◌, arith, List, [], ◌∷◌, some, Bytes, replicate,
}
use moonlight_common_rust.Ping.{new_sender, poll_timeout}
use moonlight_common_rust.Ping.Schedule.{handle_timeouts, pings, handle_timeouts-new_sender}

abbrev payload : Bytes
payload = replicate 16 65

abbrev times : List ℕ
times = 1200 ∷ 1300 ∷ 1500 ∷ 2750 ∷ []

handle_timeouts-new_sender_example :
    (n : ℕ) × ((handle_timeouts (new_sender 1000 (some payload)) times).transmits
      ≡ pings (some payload) n)
    × (poll_timeout (handle_timeouts (new_sender 1000 (some payload)) times) ≡ 1000 + 500 * n)
    × (500 * n ≤ (2800 - 1000) + 500)
handle_timeouts-new_sender_example =
    handle_timeouts-new_sender 1000 2800 (some payload) times
      (omega arith, (omega arith, (omega arith, (omega arith, tt))))
