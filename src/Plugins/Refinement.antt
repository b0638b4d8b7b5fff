-- ===== src/Plugins/Refinement.antt =====
-- plugins/registry.py: any sequence of calls is seen as on the list of manifests.
use mathlib.Core.Path.{ap₂}
use nanexus_event_intelligen.Prelude.{
  ℕ, String, ◌≡◌, refl, ap, ◌∙◌, arith, Bool, true, false, ◌&&◌, Option, List, [], ◌∷◌, ◌==◌,
  string_eq, if◌then◌else◌,
}
use nanexus_event_intelligen.Prelude.Texts.{append}
use nanexus_event_intelligen.Core.{Result, ok, err, value_error}
use nanexus_event_intelligen.Core.Payload.{Fields}
use nanexus_event_intelligen.Plugins.Versions.{Version, version_tuple}
use nanexus_event_intelligen.Plugins.{
  PluginManifest, ValidationReport, CommunityPlugin, PluginRegistry, manifests, admit,
  check_platform, check_contract, is_registered, register, start_one, start_all, stop_one, stop_all,
}
use nanexus_event_intelligen.Plugins.Registered.{
  Op, register_plugin, start_plugins, stop_plugins, or_kept, step, run, is_compatible, spec_step,
  spec_run, any-map, start_one-plugin, map-manifests, grown, check_contract-manifests,
}

module _ (int : String → Option ℕ) where
  abbrev HasVersions : PluginRegistry → PluginRegistry → Type 0
  HasVersions next registry =
      (next.platform_version ≡ registry.platform_version)
      × (next.contract_version ≡ registry.contract_version)

  register-HasVersions :
      (registry : PluginRegistry) (plugin : CommunityPlugin) (config : Fields)
      → HasVersions (or_kept registry (register int plugin config registry)) registry
  unfolding register
  register-HasVersions registry plugin config =
      by_known (is_registered int plugin.manifest.plugin_id registry)
    where
      admitted :
          (report : ValidationReport)
          → HasVersions (or_kept registry (admit int registry plugin config report)) registry
      admitted report = (ground arith, ground arith)

      by_platform :
          (a b : Result Version)
          → HasVersions (or_kept registry (check_platform int registry plugin config a b)) registry
      by_platform (err e) b = (refl, refl)
      by_platform (ok v) (err e) = (refl, refl)
      by_platform (ok v) (ok w) = (ground arith, ground arith)

      by_contract :
          (a b : Result Version)
          → HasVersions (or_kept registry (check_contract int registry plugin config a b)) registry
      by_contract (err e) b = (refl, refl)
      by_contract (ok v) (err e) = (refl, refl)
      by_contract (ok v) (ok w) = (ground arith, ground arith)

      by_known :
          (b : Bool)
          → HasVersions
              (or_kept registry (
                if b
                then err (value_error (append "duplicate plugin_id: " plugin.manifest.plugin_id))
                else check_contract int registry plugin config
                    (version_tuple int plugin.manifest.contract_version)
                    (version_tuple int registry.contract_version)))
              registry
      by_known true = (refl, refl)
      by_known false =
          by_contract (version_tuple int plugin.manifest.contract_version)
            (version_tuple int registry.contract_version)

  step-HasVersions :
      (op : Op) (registry : PluginRegistry) → HasVersions (step int op registry) registry
  unfolding start_all stop_all
  step-HasVersions (register_plugin plugin config) registry =
      register-HasVersions registry plugin config
  step-HasVersions start_plugins registry = (refl, refl)
  step-HasVersions stop_plugins registry = (refl, refl)

  register-manifests :
      (registry : PluginRegistry) (plugin : CommunityPlugin) (config : Fields)
      → manifests (or_kept registry (register int plugin config registry))
        ≡ spec_step int registry.platform_version registry.contract_version
            (register_plugin plugin config)
            (manifests registry)
  unfolding register manifests
  register-manifests registry plugin config =
      by_known (is_registered int plugin.manifest.plugin_id registry)
      ∙ ap
          (λ b.
            if b
            then manifests registry
            else grown int registry plugin config (
                is_compatible int registry.platform_version registry.contract_version
                  plugin.manifest
                && (plugin.validate_config config).valid))
          (any-map int (λ (m : PluginManifest). m.plugin_id == plugin.manifest.plugin_id)
            registry.plugins)
    where
      by_known :
          (b : Bool)
          → manifests (
              or_kept registry (
                if b
                then err (value_error (append "duplicate plugin_id: " plugin.manifest.plugin_id))
                else check_contract int registry plugin config
                    (version_tuple int plugin.manifest.contract_version)
                    (version_tuple int registry.contract_version)))
            ≡ (if b
                then manifests registry
                else grown int registry plugin config (
                    is_compatible int registry.platform_version registry.contract_version
                      plugin.manifest
                    && (plugin.validate_config config).valid))
      by_known true = refl
      by_known false =
          check_contract-manifests int registry plugin config
            (version_tuple int plugin.manifest.contract_version)
            (version_tuple int registry.contract_version)

  step-manifests :
      (op : Op) (registry : PluginRegistry)
      → manifests (step int op registry)
        ≡ spec_step int registry.platform_version registry.contract_version op (manifests registry)
  unfolding manifests start_all stop_all
  step-manifests (register_plugin plugin config) registry =
      register-manifests registry plugin config
  step-manifests start_plugins registry =
      map-manifests int start_one (start_one-plugin int) registry.plugins
  step-manifests stop_plugins registry = map-manifests int stop_one (λ item. refl) registry.plugins

  -- After any sequence of registrations, starts and stops, the manifests of the registry are those of
  -- the abstract registry, which is a list of manifests: a registration adds its manifest at the end
  -- where the id is new, the contract's major version is the host's, the platform is not too old and
  -- the configuration is valid, and changes nothing otherwise; starts and stops change nothing.
  pub run_refines :
      (ops : List Op) (registry : PluginRegistry)
      → manifests (run int ops registry)
        ≡ spec_run int registry.platform_version registry.contract_version ops (manifests registry)
  run_refines [] registry = refl
  run_refines (op ∷ ops) registry =
      let next = step int op registry in
      let (platform, contract) = step-HasVersions op registry in
      run_refines ops next
      ∙ ap₂ (λ p c. spec_run int p c ops (manifests next)) platform contract
      ∙ ap (spec_run int registry.platform_version registry.contract_version ops)
          (step-manifests op registry)
