-- ===== src/Examples.antt =====
-- The theorems at concrete inputs: the transport (veil_core/client.py, veil_core/server.py,
-- veil_core/_event_buffer.py, veil_core/session.py) and the tunnel (veil_core/vpn.py,
-- veil_core/linux_proxy.py), and the applications (veil_core/linux_client_app.py,
-- desktop/veil_vpn_agent.py) and the server's
-- (veil_core/linux_server_app.py).
mod Transport
mod Applications
mod Agents
mod Pools
mod Tunnel
mod Serving
