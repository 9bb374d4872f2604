-- ===== src/Windows/Network/Script.antt =====
-- veil_core/windows_client_app.py: the PowerShell scripts and the arguments of the programs that the
-- network calls stand for.
use Prim.Native.Char.{code}
use veil_python_stack.Prelude.{
  String, Option, none, some, List, [], ◌∷◌, nat_eq, ◌==◌, if◌then◌else◌,
}
use veil_python_stack.Message.{show_int}
use veil_python_stack.Text.{cat, show, join}
use veil_python_stack.Windows.Network.{
  Call, query_proxy, disable_proxy, set_proxy, find_route, find_adapter, set_address, set_dns,
  reset_dns, set_mtu, route_add, route_delete, sleep,
}

-- s.replace("'", "''")
unfoldable pub doubled : String → String
doubled String.[] = ""
doubled (String.◌∷◌ c s) =
    let rest = doubled s in if code c == 39 then cat "''" rest else String.◌∷◌ c rest

abbrev quoted_each : List String → List String
quoted_each [] = []
quoted_each (s ∷ ss) = cat "'" (cat s "'") ∷ quoted_each ss

abbrev settings_path : String
settings_path = "HKCU:\\Software\\Microsoft\\Windows\\CurrentVersion\\Internet Settings"

abbrev all_of : List String → String
all_of parts = join "" parts

abbrev mask_of : Option String → List String
mask_of none = []
mask_of (some mask) = "mask" ∷ mask ∷ []

-- The script of a PowerShell call
unfoldable pub script : Call → Option String
unfolding doubled join
script query_proxy = some (
    all_of (
      "\n$settings = Get-ItemProperty -Path '" ∷ settings_path
      ∷ "'\n[pscustomobject]@{\n  enabled = [bool]$settings.ProxyEnable\n  server = [string]$settings.ProxyServer\n  override = [string]$settings.ProxyOverride\n} | ConvertTo-Json -Compress\n"
      ∷ []))
script disable_proxy =
    some (
      all_of ("\nSet-ItemProperty -Path '" ∷ settings_path ∷ "' -Name ProxyEnable -Value 0\n" ∷ []))
script (set_proxy server override enabled) = some (
    all_of (
      "\n$path = '"
      ∷ settings_path
      ∷ "'\nSet-ItemProperty -Path $path -Name ProxyServer -Value '"
      ∷ doubled server
      ∷ "'\nSet-ItemProperty -Path $path -Name ProxyOverride -Value '"
      ∷ doubled override
      ∷ "'\nSet-ItemProperty -Path $path -Name ProxyEnable -Value "
      ∷ enabled
      ∷ "\n"
      ∷ []))
script (find_route server_ip) = some (
    all_of (
      "$route = Find-NetRoute -RemoteIPAddress '" ∷ server_ip
      ∷ "' | Sort-Object -Property RouteMetric,InterfaceMetric | Select-Object -First 1 InterfaceAlias,InterfaceIndex,NextHop; if (-not $route) { exit 2 }; $route | ConvertTo-Json -Compress"
      ∷ []))
script (find_adapter alias) = some (
    all_of (
      "$adapter = Get-NetAdapter -Name '"
      ∷ doubled alias
      ∷ "' -ErrorAction SilentlyContinue | Select-Object -First 1 ifIndex; if ($adapter) { $adapter.ifIndex }"
      ∷ []))
script (set_address alias ip prefix mtu) = some (
    all_of (
      "\n$alias = '"
      ∷ doubled alias
      ∷ "'\n$ip = '"
      ∷ ip
      ∷ "'\n$prefix = "
      ∷ show prefix
      ∷ "\n$mtu = "
      ∷ show_int mtu
      ∷ "\nGet-NetIPAddress -InterfaceAlias $alias -AddressFamily IPv4 -ErrorAction SilentlyContinue | Remove-NetIPAddress -Confirm:$false -ErrorAction SilentlyContinue\nGet-NetRoute -InterfaceAlias $alias -AddressFamily IPv4 -ErrorAction SilentlyContinue | Remove-NetRoute -Confirm:$false -ErrorAction SilentlyContinue\nNew-NetIPAddress -InterfaceAlias $alias -IPAddress $ip -PrefixLength $prefix -AddressFamily IPv4 | Out-Null\n"
      ∷ []))
script (set_dns alias servers) = some (
    all_of (
      "\n$alias = '"
      ∷ doubled alias
      ∷ "'\n$servers = @("
      ∷ join "," (quoted_each servers)
      ∷ ")\nSet-DnsClientServerAddress -InterfaceAlias $alias -ServerAddresses $servers | Out-Null\n"
      ∷ []))
script (reset_dns alias) = some (
    all_of (
      "\n$alias = '"
      ∷ doubled alias
      ∷ "'\nSet-DnsClientServerAddress -InterfaceAlias $alias -ResetServerAddresses -ErrorAction SilentlyContinue | Out-Null\n"
      ∷ []))
script (set_mtu alias mtu) = none
script (route_add destination mask via index metric) = none
script (route_delete destination mask) = none
script (sleep n) = none

-- The arguments of `netsh` and `route`
unfoldable pub arguments : Call → List String
arguments (set_mtu alias mtu) =
    "interface"
    ∷ "ipv4"
    ∷ "set"
    ∷ "subinterface"
    ∷ alias
    ∷ cat "mtu=" (show_int mtu)
    ∷ "store=active"
    ∷ []
arguments (route_add destination mask via index metric) =
    "add" ∷ destination ∷ "mask" ∷ mask ∷ via ∷ "if" ∷ show_int index ∷ "metric" ∷ metric ∷ []
arguments (route_delete destination mask) = "delete" ∷ destination ∷ mask_of mask
arguments _ = []
