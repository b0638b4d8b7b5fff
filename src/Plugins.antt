-- ===== src/Plugins.antt =====
-- core/plugin.py and plugins/registry.py: the registry of plugins. What a plugin does is a parameter:
-- its answers to the calls of the registry, where an exception is the text that the registry keeps.
pub mod Versions
pub mod Lifecycle
pub mod Registered
pub mod Refinement
use nanexus_event_intelligen.Prelude.{
  ℕ, String, Bool, true, false, not, ◌&&◌, ◌||◌, Option, none, some, List, [], ◌∷◌, ◌++◌, map, any,
  reverse, eqb, ltb, ◌==◌, string_eq, if◌then◌else◌,
}
use nanexus_event_intelligen.Prelude.Texts.{append, join}
use nanexus_event_intelligen.Core.{Result, ok, err, value_error}
use nanexus_event_intelligen.Core.Payload.{Fields}
use Versions.{Version, version_tuple, is_later}

pub data PluginKind : Type 0 where
  source_adapter context_adapter notification_adapter : PluginKind
  model_provider policy_pack scenario_pack : PluginKind

pub record PluginPermission : Type 0 where
  pub network_hosts : List String
  pub reads_media : Bool
  pub writes_external_system : Bool
  pub stores_data : Bool
  pub secret_names : List String

pub record PluginManifest : Type 0 where
  pub plugin_id : String
  pub name : String
  pub plugin_version : String
  pub contract_version : String
  pub minimum_platform_version : String
  pub kind : PluginKind
  pub capabilities : List String
  pub config_schema : Fields
  pub permissions : PluginPermission

pub data PluginState : Type 0 where
  registered starting healthy degraded failed stopped : PluginState

pub record PluginHealth : Type 0 where
  pub state : PluginState
  pub message : Option String

-- `ValidationReport` of core/source_adapter.py.
pub record ValidationReport : Type 0 where
  pub valid : Bool
  pub errors : List String

-- What a call of a plugin gives, or the text "type: message" of its exception.
pub data Answer (A : Type 0) : Type 0 where
  returns : A → Answer A
  raises : String → Answer A

-- A handle is known by what its `stop` raises, if it does.
pub record PluginHandle : Type 0 where
  pub stop : Option String

pub record CommunityPlugin : Type 0 where
  pub manifest : PluginManifest
  pub validate_config : Fields → ValidationReport
  pub start : Fields → Answer PluginHandle
  pub health : Answer PluginHealth

pub record RegisteredPlugin : Type 0 where
  pub plugin : CommunityPlugin
  pub config : Fields
  pub handle : Option PluginHandle
  pub runtime_health : PluginHealth

-- The dictionary's items, in the order of insertion.
pub record PluginRegistry : Type 0 where
  pub platform_version : String
  pub contract_version : String
  pub plugins : List RegisteredPlugin

abbrev pub id_of : RegisteredPlugin → String
id_of item = item.plugin.manifest.plugin_id

-- `manifests` and `health`
unfoldable pub manifests : PluginRegistry → List PluginManifest
manifests registry = map (λ (i : RegisteredPlugin). i.plugin.manifest) registry.plugins

unfoldable pub health : PluginRegistry → List (String × PluginHealth)
health registry = map (λ (i : RegisteredPlugin). (id_of i, i.runtime_health)) registry.plugins

-- `int(part)`, where `part.isdigit()`.
module _ (int : String → Option ℕ) where
  abbrev pub new_item : CommunityPlugin → Fields → RegisteredPlugin
  new_item plugin config = record {
    plugin = plugin;
    config = config;
    handle = none;
    runtime_health = record { state = registered; message = none };
  }

  abbrev details_of : List String → String
  details_of [] = "invalid configuration"
  details_of (e ∷ es) = join "; " (e ∷ es)

  abbrev pub admit :
      PluginRegistry → CommunityPlugin → Fields → ValidationReport → Result PluginRegistry
  admit registry plugin config report =
      if report.valid
      then ok (record registry { plugins = registry.plugins ++ new_item plugin config ∷ [] })
      else err (
          value_error (
            join "" ("plugin " ∷ plugin.manifest.plugin_id ∷ ": " ∷ details_of report.errors ∷ [])))

  abbrev incompatible : String → Result PluginRegistry
  incompatible message = err (value_error message)

  abbrev pub check_platform :
      PluginRegistry
      → CommunityPlugin
      → Fields
      → Result Version
      → Result Version
      → Result PluginRegistry
  check_platform registry plugin config (err e) host = err e
  check_platform registry plugin config (ok wanted) (err e) = err e
  check_platform registry plugin config (ok wanted) (ok host) =
      if is_later wanted host
      then incompatible (
          join "" (
            "plugin " ∷ plugin.manifest.plugin_id ∷ " requires platform >= "
            ∷ plugin.manifest.minimum_platform_version ∷ "; host is " ∷ registry.platform_version
            ∷ []))
      else admit registry plugin config (plugin.validate_config config)

  abbrev pub check_contract :
      PluginRegistry
      → CommunityPlugin
      → Fields
      → Result Version
      → Result Version
      → Result PluginRegistry
  check_contract registry plugin config (err e) host = err e
  check_contract registry plugin config (ok wanted) (err e) = err e
  check_contract registry plugin config (ok wanted) (ok host) =
      if not (eqb wanted.major host.major)
      then incompatible (
          join "" (
            "plugin " ∷ plugin.manifest.plugin_id ∷ " requires contract "
            ∷ plugin.manifest.contract_version ∷ "; host provides " ∷ registry.contract_version
            ∷ []))
      else check_platform registry plugin config
          (version_tuple int plugin.manifest.minimum_platform_version)
          (version_tuple int registry.platform_version)

  abbrev pub is_registered : String → PluginRegistry → Bool
  is_registered id registry = any (λ i. id_of i == id) registry.plugins

  unfoldable pub register : CommunityPlugin → Fields → PluginRegistry → Result PluginRegistry
  register plugin config registry =
      if is_registered plugin.manifest.plugin_id registry
      then err (value_error (append "duplicate plugin_id: " plugin.manifest.plugin_id))
      else check_contract registry plugin config
          (version_tuple int plugin.manifest.contract_version)
          (version_tuple int registry.contract_version)

abbrev failure : String → PluginHealth
failure text = record { state = failed; message = some text }

-- After `start` has returned.
abbrev pub reported : RegisteredPlugin → PluginHandle → Answer PluginHealth → RegisteredPlugin
reported item handle (returns h) = record item { handle = some handle; runtime_health = h }
reported item handle (raises text) = record item { handle = none; runtime_health = failure text }

abbrev pub started : RegisteredPlugin → Answer PluginHandle → RegisteredPlugin
started item (returns handle) = reported item handle item.plugin.health
started item (raises text) = record item { handle = none; runtime_health = failure text }

abbrev pub start_one : RegisteredPlugin → RegisteredPlugin
start_one item = started item (item.plugin.start item.config)

unfoldable pub start_all : PluginRegistry → PluginRegistry
start_all registry = record registry { plugins = map start_one registry.plugins }

abbrev pub after_stop : Option String → PluginHealth
after_stop none = record { state = stopped; message = none }
after_stop (some text) = failure text

abbrev pub stop_health : Option PluginHandle → PluginHealth
stop_health none = record { state = stopped; message = none }
stop_health (some handle) = after_stop handle.stop

abbrev pub stop_one : RegisteredPlugin → RegisteredPlugin
stop_one item = record item { handle = none; runtime_health = stop_health item.handle }

-- The plugins that are called to stop, in the order of the calls.
unfoldable pub stop_calls : List RegisteredPlugin → List String
stop_calls [] = []
stop_calls (item ∷ items) =
    let rest = stop_calls items in
    elim item.handle [ none ↦ rest | some handle ↦ id_of item ∷ rest ]

-- The registry, and the calls of `stop`.
unfoldable pub stop_all : PluginRegistry → PluginRegistry × List String
stop_all registry = (
  record registry { plugins = map stop_one registry.plugins },
  stop_calls (reverse registry.plugins),
)
