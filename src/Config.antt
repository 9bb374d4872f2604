-- ===== src/Config.antt =====
-- The configuration objects of the applications, and what all of them do with attributes.
pub mod Profile
pub mod Client
pub mod Windows
pub mod Server
pub mod Import
pub mod Merged
pub mod Loaded
pub mod Token
use veil_python_stack.Prelude.{String, Bool, true, false, not, ◌&&◌, some, if◌then◌else◌, string_eq}
use veil_python_stack.Prelude.Dict.{lookup}
use veil_python_stack.Message.{Value, boolean, text, Json, truthy, str_of, is_text}
use veil_python_stack.Dataclass.{Instance, attribute, set_attribute}

-- Whether Python counts `self.name` as true
unfoldable pub has : String → Instance → Bool
unfolding attribute truthy
has k i = truthy (attribute k i)

-- `self.first or self.second`
unfoldable pub either : String → String → Instance → Value
unfolding has attribute
either first second i = if has first i then attribute first i else attribute second i

-- `str(self.name)`
unfoldable pub str_attribute : Json → String → Instance → String
unfolding attribute str_of
str_attribute json k i = str_of json (attribute k i)

-- Whether the persona asks for an HTTP handshake that is switched off
unfoldable pub is_incompatible : Instance → Bool
unfolding has lookup
is_incompatible i =
    is_text "websocket" (lookup "protocol_wrapper" i)
    && (is_text "browser_ws" (lookup "persona_preset" i)
        && not (has "enable_http_handshake_emulation" i))

-- `ensure_compatible` of `LinuxClientConfig`, and the last test of `LinuxServerConfig.ensure_defaults`
unfoldable pub ensure_compatible : Instance → Instance
unfolding is_incompatible set_attribute
ensure_compatible i =
    if is_incompatible i then set_attribute "persona_preset" (text "custom") i else i
