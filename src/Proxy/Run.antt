-- ===== src/Proxy/Run.antt =====
-- veil_core/linux_proxy.py, `LinuxVpnProxy.run`: two tasks pump packets until one of them ends or the
-- call is cancelled. A pump's loop has no end, so a pump ends by an exception.
pub mod Tidy
use veil_python_stack.Prelude.{
  ℕ, String, Bool, true, false, Option, none, some, List, if◌then◌else◌, or_default, or_else,
}
use veil_python_stack.Errors.{Error, Result, ok, err, cancelled_error}
use veil_python_stack.Message.{Json}
use veil_python_stack.Vpn.{Connection, Net, close, close_reason, is_closed}
use veil_python_stack.Proxy.TunConfig.{TunDevice}
use veil_python_stack.Proxy.TunConfig.{close as close_tun}
use veil_python_stack.Proxy.Bridge.{is_expected_failure}

-- The connection, the device, and how the two pumps ended, if they did
pub record Bridge : Type 0 where
  pub connection : Connection
  pub tun : TunDevice
  pub tun_pump : Option Error
  pub vpn_pump : Option Error

-- The tasks that `asyncio.wait` found done: of two, its set may give either one first.
pub data Done : Type 0 where
  tun_done vpn_done : (failure : Error) → Done
  both_done : (tun vpn : Error) (tun_first : Bool) → Done

-- What the awaits bring: the tasks that are done, or none if `asyncio.wait` is cancelled; whether the
-- wait for the other task is; how a pump ends that is cancelled; whether the n-th await, one of the
-- `except` or the `finally` block, raises CancelledError, because the task is cancelled or, in `close`,
-- the connection's future `_closed`; and what other tasks do to the connection during the n-th await.
pub record Awaits : Type 0 where
  pub found : Option Done
  pub gather_cancelled : Bool
  pub tun_end : Error
  pub vpn_end : Error
  pub cancelled : ℕ → Bool
  pub meanwhile : ℕ → Connection → Connection

abbrev pub ended_by : Option Error → Error → Option Error
ended_by (some e) end = some e
ended_by none end = some end

abbrev pub during : Awaits → ℕ → Bridge → Bridge
during a n b = record b { connection = a.meanwhile n b.connection }

-- `task.cancel()` for every task that is not done, and the wait for them
unfoldable pub cancel_tasks : Awaits → Bridge → Bridge
cancel_tasks a b = record b {
  tun_pump = ended_by b.tun_pump a.tun_end;
  vpn_pump = ended_by b.vpn_pump a.vpn_end;
}

abbrev pub mark_done : Done → Bridge → Bridge
mark_done (tun_done e) b = record b { tun_pump = some e }
mark_done (vpn_done e) b = record b { vpn_pump = some e }
mark_done (both_done t v tun_first) b = record b { tun_pump = some t; vpn_pump = some v }

abbrev pub failure_of : Done → Error
failure_of (tun_done e) = e
failure_of (vpn_done e) = e
failure_of (both_done t v tun_first) = if tun_first then t else v

abbrev pub has_pending : Done → Bool
has_pending (tun_done e) = true
has_pending (vpn_done e) = true
has_pending (both_done t v tun_first) = false

module _ (net : Net) (json : Json) (mentions_closed : String → Bool) (a : Awaits) where
  abbrev pub closing : ℕ → Result (Unit {0}) × Connection → Result (Unit {0}) × Connection
  closing n (ok u, c) =
      if a.cancelled n then (err cancelled_error, a.meanwhile n c) else (ok tt, a.meanwhile n c)
  closing n (err e, c) = (ok tt, c)

  -- `await self._connection.close(reason)` unless it is closed; its exceptions are caught, but not
  -- CancelledError.
  unfoldable pub close_connection : ℕ → String → Connection → Result (Unit {0}) × Connection
  unfolding close
  close_connection n reason c =
      if is_closed c then (ok tt, c) else closing n (close net json reason c)

  -- `except asyncio.CancelledError`
  abbrev pub on_cancelled : Bridge → Result String × Bridge
  on_cancelled b = (
    err cancelled_error,
    record b { connection = (close_connection 2 "proxy_cancelled" b.connection).1 },
  )

  abbrev pub concluding : Error → Result (Option String) → Bridge → Result String × Bridge
  concluding failure (err e) b = on_cancelled b
  concluding failure (ok reason) b =
      if is_expected_failure mentions_closed failure b.connection
      then (ok (or_else (or_default reason "") "proxy_stopped"), b)
      else (err failure, b)

  -- The end of the `try` block; of a cancelled future `close_reason` raises CancelledError.
  abbrev pub outcome : Error → Bridge → Result String × Bridge
  outcome failure b = concluding failure (close_reason b.connection) b

  abbrev pub after_gather : Done → Bridge → Result String × Bridge
  after_gather d b =
      if a.gather_cancelled then on_cancelled b else outcome (failure_of d) (cancel_tasks a b)

  -- The `try` block with its `except`
  abbrev pub attempt : Option Done → Bridge → Result String × Bridge
  attempt none b = on_cancelled b
  attempt (some d) b =
      if has_pending d
      then after_gather d (during a 1 (mark_done d b))
      else outcome (failure_of d) (mark_done d b)

  abbrev pub close_device :
      Result String → Bridge → Result (Unit {0}) × Connection → Result String × Bridge
  close_device r b (ok u, c) = (r, record b { connection = c; tun = close_tun b.tun })
  close_device r b (err e, c) = (err e, record b { connection = c })

  -- The end of the `finally` block
  unfoldable pub finish_closing : Result String → Bridge → Result String × Bridge
  unfolding close_connection close_tun
  finish_closing r b = close_device r b (close_connection 4 "proxy_stopped" b.connection)

  -- The `finally` block; a CancelledError of one of its waits skips the rest of it.
  unfoldable pub finish : Result String × Bridge → Result String × Bridge
  unfolding cancel_tasks finish_closing
  finish (r, b) =
      if a.cancelled 3
      then (err cancelled_error, during a 3 b)
      else finish_closing r (during a 3 (cancel_tasks a b))

  -- `run`
  unfoldable pub run : Bridge → Result String × Bridge
  unfolding finish is_expected_failure cancel_tasks close_connection close_reason
  run b = finish (attempt a.found (during a 0 b))
