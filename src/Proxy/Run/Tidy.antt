-- ===== src/Proxy/Run/Tidy.antt =====
-- However `LinuxVpnProxy.run` ends, nothing of it is left behind.
use veil_python_stack.Prelude.{
  ℕ, ◌+◌, ◌<◌, ◌≡◌, refl, ◌⊎◌, inl, inr, String, Bool, true, false, Option, none, some, List, [],
  ◌∷◌, arith, Bool-cases, if-cases,
}
use veil_python_stack.Errors.{Error, Result, ok, err}
use veil_python_stack.Message.{Json, text, object, fields}
use veil_python_stack.Vpn.{Connection, Net, close, send_control, transmit, is_closed}
use veil_python_stack.Proxy.TunConfig.{TunDevice}
use veil_python_stack.Proxy.TunConfig.{close as close_tun}
use veil_python_stack.Proxy.Run.{
  Bridge, Awaits, ended_by, cancel_tasks, close_connection, closing, attempt, finish,
  finish_closing, close_device, run, during,
}

-- The connection is closed, or its transport session was told to disconnect.
unfoldable pub IsDown : Connection → Type 0
IsDown c = (is_closed c ≡ true) ⊎ (0 < c.disconnects)

-- The bytes of a `vpn.close` with this reason
abbrev close_bytes : Json → String → List ℕ
close_bytes json reason =
    json.encode (object (fields (("type", text "vpn.close") ∷ ("reason", text reason) ∷ [])))

-- The last send of the connection was its `vpn.close` with this reason, and it was refused.
unfoldable pub CloseRefused : Net → Json → String → Connection → Type 0
CloseRefused net json reason c =
    (n : ℕ) × (c.sends ≡ n + 1)
    × (net.accepts n c.control_stream_id (close_bytes json reason) ≡ false)

pub record IsTidy (net : Net) (json : Json) (b : Bridge) : Type 0 where
  pub tun_ended : (e : Error) × (b.tun_pump ≡ some e)
  pub vpn_ended : (e : Error) × (b.vpn_pump ≡ some e)
  pub device_closed : b.tun.is_closed ≡ true
  pub connection_down : IsDown b.connection ⊎ CloseRefused net json "proxy_stopped" b.connection

ended_by-some : (o : Option Error) (end : Error) → (e : Error) × (ended_by o end ≡ some e)
ended_by-some none end = (end, refl)
ended_by-some (some e) end = (e, refl)

pub close_tun-closed : (d : TunDevice) → (close_tun d).is_closed ≡ true
unfolding close_tun
close_tun-closed d = ground arith

module _ (net : Net) (json : Json) where
  -- What `close` did, as its caller sees it
  unfoldable pub DownIfSent : String → Result (Unit {0}) × Connection → Type 0
  DownIfSent reason (ok u, c) = IsDown c
  DownIfSent reason (err e, c) = CloseRefused net json reason c

  pub close-DownIfSent :
      (reason : String) (c : Connection)
      → is_closed c ≡ false
      → DownIfSent reason (close net json reason c)
  unfolding close send_control transmit DownIfSent IsDown CloseRefused
  close-DownIfSent reason c up =
      elim (Bool-cases (net.accepts c.sends c.control_stream_id (close_bytes json reason))) [
        | inl y ↦ rw (up, y) (inr (omega arith))
        | inr n ↦ rw (up, n) (c.sends, refl, n)
      ]

module _ (net : Net) (json : Json) (mentions_closed : String → Bool) (a : Awaits) where
  device_closing :
      (r : Result String) (b : Bridge) (c : Result (Unit {0}) × Connection)
      → (e : Error) × (b.tun_pump ≡ some e)
      → (e : Error) × (b.vpn_pump ≡ some e)
      → c.0 ≡ ok tt
      → IsDown c.1 ⊎ CloseRefused net json "proxy_stopped" c.1
      → ((close_device net json mentions_closed a r b c).0 ≡ r)
        × IsTidy net json ((close_device net json mentions_closed a r b c).1)
  device_closing r b (ok u, c) tun vpn done down = (
    refl,
    record {
      tun_ended = tun;
      vpn_ended = vpn;
      device_closed = close_tun-closed b.tun;
      connection_down = down;
    },
  )
  device_closing r b (err e, c) tun vpn done down = grind (arith, done)

-- What leaves a connection down, or as its refused close left it
abbrev pub WasClosed : Net → Json → String → Connection → Type 0
WasClosed net json reason c = IsDown c ⊎ CloseRefused net json reason c

module _ (net : Net) (json : Json) (mentions_closed : String → Bool) (a : Awaits)
    (keeps : (m : ℕ) (c : Connection) → IsDown c → IsDown (a.meanwhile m c)) where
  -- A wait that is not cancelled lets the rest of the block run.
  Closes : String → Result (Unit {0}) × Connection → Type 0
  Closes reason r = (r.0 ≡ ok tt) × WasClosed net json reason r.1

  closing-Closes :
      (n : ℕ) (reason : String) (r : Result (Unit {0}) × Connection)
      → a.cancelled n ≡ false
      → DownIfSent net json reason r
      → Closes reason (closing net json mentions_closed a n r)
  unfolding DownIfSent Closes
  closing-Closes n reason (ok u, c) quiet h = rw quiet (refl, inl (keeps n c h))
  closing-Closes n reason (err e, c) quiet h = (refl, inr h)

  close_connection-Closes :
      (n : ℕ) (reason : String) (c : Connection)
      → a.cancelled n ≡ false
      → Closes reason (close_connection net json mentions_closed a n reason c)
  unfolding close_connection IsDown close Closes
  close_connection-Closes n reason c quiet =
      if-cases (Closes reason) (is_closed c) (ok tt, c)
        (closing net json mentions_closed a n (close net json reason c)) (λ y. (refl, inl (inl y)))
        (λ up.
          closing-Closes n reason (close net json reason c) quiet
            (close-DownIfSent net json reason c up))

  finish_closing-IsTidy :
      (r : Result String) (b : Bridge)
      → a.cancelled 4 ≡ false
      → (e : Error) × (b.tun_pump ≡ some e)
      → (e : Error) × (b.vpn_pump ≡ some e)
      → ((finish_closing net json mentions_closed a r b).0 ≡ r)
        × IsTidy net json ((finish_closing net json mentions_closed a r b).1)
  unfolding finish_closing Closes
  finish_closing-IsTidy r b quiet tun vpn =
      let (done, down) = close_connection-Closes 4 "proxy_stopped" b.connection quiet in
      device_closing net json mentions_closed a r b
        (close_connection net json mentions_closed a 4 "proxy_stopped" b.connection) tun vpn done
        down

-- However `run` ends, by the failure of either pump or of both, by a cancellation or by one that comes
-- while it waits for the other pump: if no wait of its `finally` block is cancelled, then it ends as
-- its `try` block with its `except` does, both pumps have ended, the TUN device is closed, and the
-- connection is closed or its session was disconnected, unless the transport refused the last
-- `vpn.close`. The condition is that other tasks do not undo this for the connection.
pub run-IsTidy :
    (net : Net) (json : Json) (mentions_closed : String → Bool) (a : Awaits) (b : Bridge)
    → ((m : ℕ) (c : Connection) → IsDown c → IsDown (a.meanwhile m c))
    → a.cancelled 3 ≡ false
    → a.cancelled 4 ≡ false
    → ((run net json mentions_closed a b).0
        ≡ (attempt net json mentions_closed a a.found (during a 0 b)).0)
      × IsTidy net json ((run net json mentions_closed a b).1)
unfolding run finish cancel_tasks
run-IsTidy net json mentions_closed a b keeps settled quiet =
    let (r, b') = attempt net json mentions_closed a a.found (during a 0 b) in
    rw settled (
      finish_closing-IsTidy net json mentions_closed a keeps r (during a 3 (cancel_tasks a b'))
        quiet (ended_by-some b'.tun_pump a.tun_end) (ended_by-some b'.vpn_pump a.vpn_end))
