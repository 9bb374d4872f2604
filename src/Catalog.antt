-- ===== src/Catalog.antt =====
-- veil_core/protocol_catalog.py: the protocol wrappers and persona presets that a user can choose, and
-- the notes on a choice. `lower` stands for `str.lower`.
pub mod Choice
pub mod Payload
use veil_python_stack.Prelude.{
  String, Bool, true, false, not, ◌&&◌, Option, none, some, List, [], ◌∷◌, ◌++◌, string_eq, ◌==◌,
  if◌then◌else◌, or_else, map,
}
use veil_python_stack.Text.{strip}

-- `ProtocolWrapperOption`
pub record ProtocolWrapperOption : Type 0 where
  pub value : String
  pub label : String
  pub summary : String
  pub best_for : String
  pub supports_http_upgrade : Bool

-- `PersonaPresetOption`
pub record PersonaPresetOption : Type 0 where
  pub value : String
  pub label : String
  pub summary : String
  pub best_with : String

abbrev pub raw_udp : ProtocolWrapperOption
raw_udp = record {
  value = "none";
  label = "Raw UDP";
  summary = "Lowest overhead. No wrapper camouflage, best for trusted paths and lab validation.";
  best_for = "Maximum throughput and minimal transport overhead.";
  supports_http_upgrade = false;
}

abbrev pub websocket : ProtocolWrapperOption
websocket = record {
  value = "websocket";
  label = "WebSocket";
  summary =
      "Wraps the transport as browser-like WebSocket traffic. Best choice for camouflage-oriented deployments.";
  best_for = "Browser-shaped traffic and HTTP upgrade prelude support.";
  supports_http_upgrade = true;
}

abbrev pub tls : ProtocolWrapperOption
tls = record {
  value = "tls";
  label = "TLS";
  summary =
      "TLS-like framing for low-noise enterprise-looking traffic with less overhead than WebSocket+HTTP.";
  best_for = "Enterprise-looking traffic with a cleaner envelope than raw UDP.";
  supports_http_upgrade = false;
}

abbrev pub wrapper_options : List ProtocolWrapperOption
wrapper_options = raw_udp ∷ websocket ∷ tls ∷ []

abbrev pub custom : PersonaPresetOption
custom = record {
  value = "custom";
  label = "Custom";
  summary = "Use explicit wrapper settings without additional persona shaping.";
  best_with = "Best when you know the transport profile you want.";
}

abbrev pub browser_ws : PersonaPresetOption
browser_ws = record {
  value = "browser_ws";
  label = "Browser WebSocket";
  summary = "Biases transport behaviour toward browser/WebSocket patterns.";
  best_with = "Pairs naturally with the WebSocket wrapper, often with HTTP upgrade emulation.";
}

abbrev pub quic_media : PersonaPresetOption
quic_media = record {
  value = "quic_media";
  label = "QUIC Media";
  summary = "Performance-oriented persona with media-like traffic shape.";
  best_with = "Good fit for throughput-focused paths and lighter camouflage overhead.";
}

abbrev pub interactive_game_udp : PersonaPresetOption
interactive_game_udp = record {
  value = "interactive_game_udp";
  label = "Interactive Game UDP";
  summary = "Latency-oriented persona for bursty interactive UDP-like cadence.";
  best_with = "Useful when low latency matters more than strict browser mimicry.";
}

abbrev pub low_noise_enterprise : PersonaPresetOption
low_noise_enterprise = record {
  value = "low_noise_enterprise";
  label = "Low Noise Enterprise";
  summary = "Conservative low-noise profile aimed at enterprise-like traffic appearance.";
  best_with = "Usually a good companion for TLS or low-friction corporate egress.";
}

abbrev pub persona_options : List PersonaPresetOption
persona_options =
    custom ∷ browser_ws ∷ quic_media ∷ interactive_game_udp ∷ low_noise_enterprise ∷ []

-- What `describe_protocol_selection` returns
pub record Selection : Type 0 where
  pub wrapper : ProtocolWrapperOption
  pub persona : PersonaPresetOption
  pub http_upgrade_enabled : Bool
  pub notes : List String

-- The loops of `_find_wrapper` and `_find_persona`
unfoldable pub wrapper_with : String → List ProtocolWrapperOption → Option ProtocolWrapperOption
wrapper_with name [] = none
wrapper_with name (o ∷ os) = if o.value == name then some o else wrapper_with name os

unfoldable pub persona_with : String → List PersonaPresetOption → Option PersonaPresetOption
persona_with name [] = none
persona_with name (o ∷ os) = if o.value == name then some o else persona_with name os

abbrev pub wrapper_is : String → Option ProtocolWrapperOption → Bool
wrapper_is name none = false
wrapper_is name (some o) = o.value == name

abbrev pub persona_is : String → Option PersonaPresetOption → Bool
persona_is name none = false
persona_is name (some o) = o.value == name

abbrev note : Bool → String → List String
note b text = if b then text ∷ [] else []

abbrev unknown_wrapper : String → ProtocolWrapperOption
unknown_wrapper name = record {
  value = name;
  label = or_else name "unknown";
  summary = "Unknown wrapper value.";
  best_for = "";
  supports_http_upgrade = false;
}

abbrev unknown_persona : String → PersonaPresetOption
unknown_persona name = record {
  value = name;
  label = or_else name "unknown";
  summary = "Unknown persona preset.";
  best_with = "";
}

abbrev or_unknown_wrapper : String → Option ProtocolWrapperOption → ProtocolWrapperOption
or_unknown_wrapper name none = unknown_wrapper name
or_unknown_wrapper name (some o) = o

abbrev or_unknown_persona : String → Option PersonaPresetOption → PersonaPresetOption
or_unknown_persona name none = unknown_persona name
or_unknown_persona name (some o) = o

module _ (lower : String → String) where
  unfoldable pub find_wrapper : String → Option ProtocolWrapperOption
  unfolding strip wrapper_with
  find_wrapper value = wrapper_with (lower (strip value)) wrapper_options

  unfoldable pub find_persona : String → Option PersonaPresetOption
  unfolding strip persona_with
  find_persona value = persona_with (lower (strip value)) persona_options

  -- The notes, one after the other
  abbrev pub notes_on :
      Option ProtocolWrapperOption → Option PersonaPresetOption → Bool → List String
  notes_on wrapper persona http =
      note (http && not (wrapper_is "websocket" wrapper))
        "HTTP upgrade emulation has an effect only with the WebSocket wrapper."
      ++ (note (wrapper_is "websocket" wrapper && http)
            "WebSocket+HTTP upgrade is the most browser-like combination currently exposed in the Python stack."
          ++ (note (persona_is "browser_ws" persona && not (wrapper_is "websocket" wrapper))
                "The browser_ws persona is strongest when paired with the WebSocket wrapper."
              ++ (note (persona_is "low_noise_enterprise" persona && wrapper_is "none" wrapper)
                    "low_noise_enterprise usually benefits from TLS framing instead of raw UDP."
                  ++ note (persona_is "custom" persona)
                      "Custom keeps shaping conservative and leaves the wrapper choice as the dominant behaviour.")))

  unfoldable pub describe_protocol_selection : String → String → Bool → Selection
  unfolding find_wrapper find_persona
  describe_protocol_selection protocol_wrapper persona_preset http = record {
    wrapper = or_unknown_wrapper protocol_wrapper (find_wrapper protocol_wrapper);
    persona = or_unknown_persona persona_preset (find_persona persona_preset);
    http_upgrade_enabled = http;
    notes = notes_on (find_wrapper protocol_wrapper) (find_persona persona_preset) http;
  }
