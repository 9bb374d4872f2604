-- ===== src/Windows.antt =====
-- The Windows client: the runtime files of veil_core/windows_client_app.py and the agent of
-- desktop/veil_vpn_agent.py.
pub mod State
pub mod Agent
pub mod Network
pub mod Rounds
pub mod Tidy
pub mod Connecting
pub mod Invariant
pub mod Commands
