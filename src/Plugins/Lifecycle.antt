-- ===== src/Plugins/Lifecycle.antt =====
-- plugins/registry.py: the plugins that are stopped are those that run.
use mathlib.Core.List.{reverse-append, append-nil}
use nanexus_event_intelligen.Prelude.{
  String, ◌≡◌, refl, sym, ap, ◌∙◌, Bool, true, false, ◌&&◌, Option, none, some, List, [], ◌∷◌, ◌++◌,
  map, reverse, if◌then◌else◌,
}
use nanexus_event_intelligen.Plugins.{
  Answer, returns, raises, PluginHandle, PluginHealth, RegisteredPlugin, PluginRegistry, id_of,
  reported, started, start_one, start_all, stop_calls, stop_all,
}

abbrev is_returned : {A : Type 0} → Answer A → Bool
is_returned (returns a) = true
is_returned (raises text) = false

-- Both `start` and the `health` that follows it return.
abbrev pub runs : RegisteredPlugin → Bool
runs item = is_returned (item.plugin.start item.config) && is_returned item.plugin.health

abbrev pub running : List RegisteredPlugin → List String
running [] = []
running (item ∷ items) = if runs item then id_of item ∷ running items else running items

stop_calls-append :
    (xs ys : List RegisteredPlugin) → stop_calls (xs ++ ys) ≡ stop_calls xs ++ stop_calls ys
unfolding stop_calls
stop_calls-append [] ys = refl
stop_calls-append (x ∷ xs) ys = by_handle x.handle (stop_calls-append xs ys)
  where
    by_handle :
        (h : Option PluginHandle)
        → stop_calls (xs ++ ys) ≡ stop_calls xs ++ stop_calls ys
        → elim h [ none ↦ stop_calls (xs ++ ys) | some handle ↦ id_of x ∷ stop_calls (xs ++ ys) ]
          ≡ elim h [ none ↦ stop_calls xs | some handle ↦ id_of x ∷ stop_calls xs ] ++ stop_calls ys
    by_handle none e = e
    by_handle (some handle) e = ap (λ ids. id_of x ∷ ids) e

stop_calls-start_one :
    (item : RegisteredPlugin)
    → stop_calls (start_one item ∷ []) ≡ (if runs item then id_of item ∷ [] else [])
unfolding stop_calls
stop_calls-start_one item = by_start (item.plugin.start item.config)
  where
    by_health :
        (handle : PluginHandle) (a : Answer PluginHealth)
        → stop_calls (reported item handle a ∷ [])
          ≡ (if true && is_returned a then id_of item ∷ [] else [])
    by_health handle (returns h) = refl
    by_health handle (raises text) = refl

    by_start :
        (a : Answer PluginHandle)
        → stop_calls (started item a ∷ [])
          ≡ (if is_returned a && is_returned item.plugin.health then id_of item ∷ [] else [])
    by_start (returns handle) = by_health handle item.plugin.health
    by_start (raises text) = refl

reverse-running :
    (item : RegisteredPlugin) (items : List RegisteredPlugin)
    → reverse (running items) ++ (if runs item then id_of item ∷ [] else [])
      ≡ reverse (running (item ∷ items))
reverse-running item items = by_test (runs item)
  where
    by_test :
        (b : Bool)
        → reverse (running items) ++ (if b then id_of item ∷ [] else [])
          ≡ reverse (if b then id_of item ∷ running items else running items)
    by_test true = sym (reverse-append (id_of item ∷ []) (running items))
    by_test false = append-nil (reverse (running items))

stop_calls-reverse :
    (items : List RegisteredPlugin)
    → stop_calls (reverse (map start_one items)) ≡ reverse (running items)
unfolding stop_calls
stop_calls-reverse [] = refl
stop_calls-reverse (item ∷ items) =
    ap stop_calls (reverse-append (start_one item ∷ []) (map start_one items))
    ∙ stop_calls-append (reverse (map start_one items)) (start_one item ∷ [])
    ∙ ap (λ ids. ids ++ stop_calls (start_one item ∷ [])) (stop_calls-reverse items)
    ∙ ap (λ ids. reverse (running items) ++ ids) (stop_calls-start_one item)
    ∙ reverse-running item items

-- After a start of all plugins, a stop of all calls `stop` once for each plugin whose `start` and whose
-- `health` returned, in the reverse order of their registration, and for no other: a plugin whose
-- `start` returned and whose `health` raised is not stopped.
pub stop_all-start_all :
    (registry : PluginRegistry)
    → (stop_all (start_all registry)).1 ≡ reverse (running registry.plugins)
unfolding stop_all start_all
stop_all-start_all registry = stop_calls-reverse registry.plugins
