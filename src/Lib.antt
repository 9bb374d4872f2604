-- ===== src/Lib.antt =====
-- A verification library of the Python stack: the asyncio front end of the Veil transport and the VPN
-- on top of it.
--
-- Parts, and how they interact. The C++ node (`_veil_core_ext`) calls back into a `Client`
-- (veil_core/client.py) or a `Server` (veil_core/server.py) from its own threads; these leave the
-- events (veil_core/events.py) with the event loop, which puts them into a main queue and one queue
-- for each session. Readers take events from a queue through an `EventBuffer`
-- (veil_core/_event_buffer.py), mostly as a `Session` (veil_core/session.py). A `VpnConnection`
-- (veil_core/vpn.py) runs a handshake, a receive task and a keepalive task over a session, with
-- JSON messages (veil_core/message.py) on one stream and packets on another. The proxy server
-- (veil_core/linux_proxy.py) leases an IPv4 address to each connection and routes packets. The
-- applications keep configuration files (veil_core/provisioning.py, veil_core/linux_client_app.py,
-- veil_core/linux_server_app.py, veil_core/windows_client_app.py), start and stop the Linux client as
-- a process, and talk to the Windows agent (desktop/veil_vpn_agent.py) through files.
--
-- Files: Asyncio (queue.get and wait_for), Errors, Text and Ipv4 (what the code uses of Python's str,
-- int and ipaddress), Events, EventBuffer, Message, Mailbox (the code that client.py and server.py
-- share), Node (the C++ node's calls and answers), Client, Server, Session, Pool
-- (`LinuxClientAddressPool`), Vpn (state, constructor, send_packet, close), Vpn/Control (messages),
-- Vpn/Start (`start`), Vpn/Runtime (`_run`, `_run_keepalive`), Vpn/Endpoints (`VpnServer`,
-- `VpnClient`), Session/Facade (readers of clients and servers), Proxy (`LinuxVpnProxyServer`),
-- Proxy/Serve (its accept loop and `serve_forever`), Proxy/TunConfig, Proxy/Bridge and Proxy/Run
-- (`LinuxVpnProxy`), Catalog and Catalog/Payload (veil_core/protocol_catalog.py), Dataclass (Python's
-- dataclasses), Config (what the configuration classes share) with Config/Profile, Config/Token (a
-- profile's JSON text and import token, over Text/Base64), Config/Client, Config/Windows,
-- Config/Server and Config/Import, ServerApp (`install_server_assets`), ServerApp/Status,
-- ServerApp/Control and ServerApp/Main (desktop/veil_vpn_server_ctl.py), Linux (the machine that
-- answers to commands) with Linux/Services, Linux/Routes, Linux/Start (`start_runtime`) and Linux/Stop
-- (`stop_runtime`), Windows/State (the runtime files), Windows/Agent (`WindowsVpnAgent`),
-- Windows/Rounds (its loop) and Windows/Network (`configure_wintun_network`). Each
-- component has its proofs in child modules, and Examples applies the theorems at concrete inputs.
-- A method is the function of the same name without leading underscores; `init` and `new_*` are
-- `__init__`. The mutable object is a record that is passed on.
--
-- Concurrency is by explicit inputs: what an await brings, or which task the event loop resumes, is a
-- list that the theorems quantify over. Times are natural numbers. The loops of `recv_data` and
-- `recv_event` run on fuel, one more than the pending events, and the theorems on them say that it
-- is enough. The waiting loops of Linux and Windows run on as many rounds as their deadline has room
-- for, and end without fuel as they do at the deadline. All other loops recurse on their list of inputs.
--
-- Parameters: the answers of the C++ node (`Node`), of `session.send` (`Net`), of a machine's
-- programs, processes and clock (`Linux.World`, `Windows.Network.Windows`, `ServerApp.Main.Host`),
-- of the agent's surroundings (`Outside`), the JSON
-- text format (`Json`) and the texts of exceptions. Texts of error messages leave out the values that
-- Python interpolates. Not modelled: node configuration, TUN device I/O, the Wintun library, the
-- windows, the parsing of command lines, and files other than those named.
pub mod Prelude
pub mod Asyncio
pub mod Errors
pub mod Text
pub mod Ipv4
pub mod Events
pub mod Pool
pub mod EventBuffer
pub mod Message
pub mod Mailbox
pub mod Node
pub mod Client
pub mod Server
pub mod Vpn
pub mod Session
pub mod Proxy
pub mod Catalog
pub mod Examples
pub mod Dataclass
pub mod Config
pub mod Linux
pub mod ServerApp
pub mod Windows
