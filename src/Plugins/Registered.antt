-- ===== src/Plugins/Registered.antt =====
-- plugins/registry.py: the registry against its abstract view, a list of manifests.
use mathlib.Core.Path.{ap₂}
use mathlib.Core.List.{map-append}
use nanexus_event_intelligen.Prelude.{
  ℕ, String, ◌≡◌, refl, ap, Bool, true, false, not, ◌&&◌, ◌||◌, Option, List, [], ◌∷◌, ◌++◌, map,
  any, eqb, ◌==◌, string_eq, if◌then◌else◌,
}
use nanexus_event_intelligen.Prelude.Texts.{join}
use nanexus_event_intelligen.Core.{Result, ok, err, value_error}
use nanexus_event_intelligen.Core.Payload.{Fields}
use nanexus_event_intelligen.Plugins.Versions.{Version, version_tuple, is_later}
use nanexus_event_intelligen.Plugins.{
  PluginManifest, ValidationReport, CommunityPlugin, RegisteredPlugin, PluginRegistry, manifests,
  new_item, admit, check_platform, check_contract, register, Answer, returns, raises, PluginHandle,
  PluginHealth, reported, started, start_one, start_all, stop_all,
}

pub data Op : Type 0 where
  register_plugin : CommunityPlugin → Fields → Op
  start_plugins stop_plugins : Op

abbrev pub or_kept : PluginRegistry → Result PluginRegistry → PluginRegistry
or_kept registry (ok next) = next
or_kept registry (err e) = registry

module _ (int : String → Option ℕ) where
  -- A call of the registry; a refused registration leaves it.
  abbrev pub step : Op → PluginRegistry → PluginRegistry
  step (register_plugin plugin config) registry =
      or_kept registry (register int plugin config registry)
  step start_plugins registry = start_all registry
  step stop_plugins registry = (stop_all registry).0

  abbrev pub run : List Op → PluginRegistry → PluginRegistry
  run [] registry = registry
  run (op ∷ ops) registry = run ops (step op registry)

  -- The host's versions.
  module _ (platform contract : String) where
    abbrev pub majors_agree : Result Version → Result Version → Bool
    majors_agree (ok a) (ok b) = eqb a.major b.major
    majors_agree _ _ = false

    abbrev pub not_later : Result Version → Result Version → Bool
    not_later (ok a) (ok b) = not (is_later a b)
    not_later _ _ = false

    -- A plugin with the contract's major version, for this platform or an earlier one.
    abbrev pub is_compatible : PluginManifest → Bool
    is_compatible m =
        majors_agree (version_tuple int m.contract_version) (version_tuple int contract)
        && not_later (version_tuple int m.minimum_platform_version) (version_tuple int platform)

    -- The abstract view: a new, compatible and valid plugin's manifest is added at the end.
    abbrev pub spec_step : Op → List PluginManifest → List PluginManifest
    spec_step (register_plugin plugin config) ms =
        if any (λ (m : PluginManifest). m.plugin_id == plugin.manifest.plugin_id) ms
        then ms
        else if is_compatible plugin.manifest && (plugin.validate_config config).valid
        then ms ++ plugin.manifest ∷ []
        else ms
    spec_step start_plugins ms = ms
    spec_step stop_plugins ms = ms

    abbrev pub spec_run : List Op → List PluginManifest → List PluginManifest
    spec_run [] ms = ms
    spec_run (op ∷ ops) ms = spec_run ops (spec_step op ms)

  pub any-map :
      (p : PluginManifest → Bool) (items : List RegisteredPlugin)
      → any (λ (i : RegisteredPlugin). p i.plugin.manifest) items
        ≡ any p (map (λ (i : RegisteredPlugin). i.plugin.manifest) items)
  any-map p [] = refl
  any-map p (item ∷ items) = ap (λ b. p item.plugin.manifest || b) (any-map p items)

  pub start_one-plugin : (item : RegisteredPlugin) → (start_one item).plugin ≡ item.plugin
  start_one-plugin item = by_start (item.plugin.start item.config)
    where
      by_health :
          (handle : PluginHandle) (a : Answer PluginHealth)
          → (reported item handle a).plugin ≡ item.plugin
      by_health handle (returns h) = refl
      by_health handle (raises text) = refl

      by_start : (a : Answer PluginHandle) → (started item a).plugin ≡ item.plugin
      by_start (returns handle) = by_health handle item.plugin.health
      by_start (raises text) = refl

  pub map-manifests :
      (f : RegisteredPlugin → RegisteredPlugin)
      → ((item : RegisteredPlugin) → (f item).plugin ≡ item.plugin)
      → (items : List RegisteredPlugin)
      → map (λ (i : RegisteredPlugin). i.plugin.manifest) (map f items)
        ≡ map (λ (i : RegisteredPlugin). i.plugin.manifest) items
  map-manifests f h [] = refl
  map-manifests f h (item ∷ items) =
      ap₂ (λ (p : CommunityPlugin) ms. p.manifest ∷ ms) (h item) (map-manifests f h items)

  module _ (registry : PluginRegistry) (plugin : CommunityPlugin) (config : Fields) where
    abbrev pub grown : Bool → List PluginManifest
    grown b = if b then manifests registry ++ plugin.manifest ∷ [] else manifests registry

    admit-manifests :
        (report : ValidationReport)
        → manifests (or_kept registry (admit int registry plugin config report))
          ≡ grown report.valid
    unfolding manifests
    admit-manifests report = by_valid report.valid
      where
        by_valid :
            (b : Bool)
            → manifests
                (or_kept registry (admit int registry plugin config (record report { valid = b })))
              ≡ grown b
        by_valid true =
            map-append (λ (i : RegisteredPlugin). i.plugin.manifest) registry.plugins
              (new_item int plugin config ∷ [])
        by_valid false = refl

    check_platform-manifests :
        (a b : Result Version)
        → manifests (or_kept registry (check_platform int registry plugin config a b))
          ≡ grown (
              not_later registry.platform_version registry.contract_version a b
              && (plugin.validate_config config).valid)
    check_platform-manifests (err e) b = refl
    check_platform-manifests (ok v) (err e) = refl
    check_platform-manifests (ok v) (ok w) = by_order (is_later v w)
      where
        by_order :
            (b : Bool)
            → manifests (
                or_kept registry (
                  if b
                  then err (
                      value_error (
                        join "" (
                          "plugin " ∷ plugin.manifest.plugin_id ∷ " requires platform >= "
                          ∷ plugin.manifest.minimum_platform_version ∷ "; host is "
                          ∷ registry.platform_version ∷ [])))
                  else admit int registry plugin config (plugin.validate_config config)))
              ≡ grown (not b && (plugin.validate_config config).valid)
        by_order true = refl
        by_order false = admit-manifests (plugin.validate_config config)

    pub check_contract-manifests :
        (a b : Result Version)
        → manifests (or_kept registry (check_contract int registry plugin config a b))
          ≡ grown (
              (majors_agree registry.platform_version registry.contract_version a b
                && not_later registry.platform_version registry.contract_version
                    (version_tuple int plugin.manifest.minimum_platform_version)
                    (version_tuple int registry.platform_version))
              && (plugin.validate_config config).valid)
    check_contract-manifests (err e) b = refl
    check_contract-manifests (ok v) (err e) = refl
    check_contract-manifests (ok v) (ok w) = by_major (eqb v.major w.major)
      where
        by_major :
            (b : Bool)
            → manifests (
                or_kept registry (
                  if not b
                  then err (
                      value_error (
                        join "" (
                          "plugin " ∷ plugin.manifest.plugin_id ∷ " requires contract "
                          ∷ plugin.manifest.contract_version ∷ "; host provides "
                          ∷ registry.contract_version ∷ [])))
                  else check_platform int registry plugin config
                      (version_tuple int plugin.manifest.minimum_platform_version)
                      (version_tuple int registry.platform_version)))
              ≡ grown (
                  (b
                    && not_later registry.platform_version registry.contract_version
                        (version_tuple int plugin.manifest.minimum_platform_version)
                        (version_tuple int registry.platform_version))
                  && (plugin.validate_config config).valid)
        by_major false = refl
        by_major true =
            check_platform-manifests (version_tuple int plugin.manifest.minimum_platform_version)
              (version_tuple int registry.platform_version)
