-- ===== src/Tests/Plugins.antt =====
-- Runs of plugins/registry.py.
use nanexus_event_intelligen.Prelude.{
  ℕ, String, ◌≡◌, refl, true, false, Option, none, some, List, [], ◌∷◌, reverse, ◌==◌, string_eq,
  if◌then◌else◌,
}
use nanexus_event_intelligen.Core.Payload.{end}
use nanexus_event_intelligen.Plugins.{
  PluginKind, PluginManifest, PluginState, PluginHealth, Answer, CommunityPlugin, PluginRegistry,
  new_item, manifests, start_all, stop_all, register,
}
use nanexus_event_intelligen.Plugins.Versions.{before, split_dots, version_tuple}
use nanexus_event_intelligen.Plugins.Lifecycle.{running, stop_all-start_all}
use nanexus_event_intelligen.Plugins.Registered.{
  Op, register_plugin, start_plugins, stop_plugins, run, spec_run,
}
use nanexus_event_intelligen.Plugins.Refinement.{run_refines}

abbrev manifest : String → PluginManifest
manifest id = record {
  plugin_id = id;
  name = id;
  plugin_version = "1.0.0";
  contract_version = "1.0.1";
  minimum_platform_version = "0.1.0";
  kind = PluginKind.policy_pack;
  capabilities = [];
  config_schema = end;
  permissions = record {
    network_hosts = [];
    reads_media = false;
    writes_external_system = false;
    stores_data = false;
    secret_names = [];
  };
}

abbrev plugin : String → Answer PluginHealth → CommunityPlugin
plugin id answer = record {
  manifest = manifest id;
  validate_config = λ _. record { valid = true; errors = [] };
  start = λ _. Answer.returns (record { stop = none });
  health = answer;
}

abbrev well : CommunityPlugin
well = plugin "a" (Answer.returns (record { state = PluginState.healthy; message = none }))

-- Its `start` returns, and its `health` raises.
abbrev ill : CommunityPlugin
ill = plugin "b" (Answer.raises "RuntimeError: no health")

abbrev int : String → Option ℕ
int s = if s == "0" then some 0 else if s == "1" then some 1 else none

abbrev empty : PluginRegistry
empty = record { platform_version = "0.1.1"; contract_version = "1.0.0"; plugins = [] }

abbrev both : PluginRegistry
both = record empty { plugins = new_item int well end ∷ new_item int ill end ∷ [] }

stop_all-start_all_example : (stop_all (start_all both)).1 ≡ reverse (running both.plugins)
stop_all-start_all_example = stop_all-start_all both

only_well : running both.plugins ≡ "a" ∷ []
only_well = refl

abbrev ops : List Op
ops =
    register_plugin well end
    ∷ register_plugin ill end
    ∷ start_plugins
    ∷ register_plugin well end
    ∷ stop_plugins
    ∷ []

run_refines_example :
    manifests (run int ops empty) ≡ spec_run int "0.1.1" "1.0.0" ops (manifests empty)
run_refines_example = run_refines int ops empty

both_registered : manifests (run int ops empty) ≡ manifest "a" ∷ manifest "b" ∷ []
unfolding manifests register start_all stop_all version_tuple before split_dots
both_registered = refl
