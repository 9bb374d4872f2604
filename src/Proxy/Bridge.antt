-- ===== src/Proxy/Bridge.antt =====
-- veil_core/linux_proxy.py: `LinuxVpnProxy`, which joins one TUN device and one connection, and the
-- delays of `LinuxVpnProxyClient.run_forever`.
use veil_python_stack.Prelude.{
  ℕ, ◌*◌, String, Bool, true, false, ◌||◌, Option, none, some, List, [], ◌∷◌, ◌++◌, min, max,
}
use veil_python_stack.Errors.{
  index_error, called_process_error, process_lookup_error, permission_error, Error, Result, err,
  runtime_error, value_error, type_error, key_error, attribute_error, timeout_error,
  cancelled_error, eof_error, connection_error,
}
use veil_python_stack.Vpn.{Connection, Net, is_closed}
use veil_python_stack.Proxy.{send_packet_with_retry}

-- `_is_expected_failure`; `mentions_closed` tells whether a text contains
-- "VPN connection is closed".
unfoldable pub is_expected_failure : (mentions_closed : String → Bool) → Error → Connection → Bool
is_expected_failure mentions_closed eof_error c = true
is_expected_failure mentions_closed connection_error c = true
is_expected_failure mentions_closed (runtime_error m) c = is_closed c || mentions_closed m
is_expected_failure mentions_closed (value_error m) c = false
is_expected_failure mentions_closed (type_error m) c = false
is_expected_failure mentions_closed (key_error m) c = false
is_expected_failure mentions_closed (attribute_error m) c = false
is_expected_failure mentions_closed (index_error m) c = false
is_expected_failure mentions_closed called_process_error c = false
is_expected_failure mentions_closed process_lookup_error c = false
is_expected_failure mentions_closed permission_error c = false
is_expected_failure mentions_closed timeout_error c = false
is_expected_failure mentions_closed cancelled_error c = false

-- A round of `_pump_tun_to_vpn` with the packet that it read
unfoldable pub pump_tun_to_vpn :
    Net
    → List (Connection → Connection)
    → List ℕ
    → Connection
    → Option (Result (Unit {0}) × Connection)
pump_tun_to_vpn net changes [] c = some (err eof_error, c)
pump_tun_to_vpn net changes (b ∷ bs) c = send_packet_with_retry net changes (b ∷ bs) c

abbrev taken : List (ℕ × List ℕ) → List (List ℕ) → Connection → Option (List (List ℕ) × Connection)
taken [] written c = none
taken ((s, payload) ∷ rest) written c =
    some (written ++ payload ∷ [], record c { packet_queue = rest })

-- A round of `_pump_vpn_to_tun`: the next packet of the queue is written to the device; `none` waits.
unfoldable pub pump_vpn_to_tun : List (List ℕ) → Connection → Option (List (List ℕ) × Connection)
pump_vpn_to_tun written c = taken c.packet_queue written c

-- How a call of `run_once` ends for the loop of `run_forever`
pub data Outcome : Type 0 where
  finished was_cancelled raised : Outcome

-- The loop of `run_forever`: the delays that it sleeps, and whether it was cancelled. `delay` starts
-- as `reconnect_delay`.
unfoldable pub run_forever : (reconnect_delay max_reconnect_delay delay : ℕ) → List Outcome → List ℕ
run_forever least most delay [] = []
run_forever least most delay (finished ∷ rest) = run_forever least most least rest
run_forever least most delay (was_cancelled ∷ rest) = []
run_forever least most delay (raised ∷ rest) =
    delay ∷ run_forever least most (min most (max least (delay * 2))) rest
