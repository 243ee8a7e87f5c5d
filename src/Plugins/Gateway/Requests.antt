-- ===== src/Plugins/Gateway/Requests.antt =====
-- Which requests the gateway passes on to a plugin.
use nodeagentx.Prelude.{
  String, ◌≡◌, refl, true, false, Option, none, some, inl, inr, arith, ap, ◌∙◌, sym,
}
use mathlib.Core.Path.{ap₂}
use nodeagentx.Prelude.Text.{is_empty, Lacks}
use nodeagentx.Prelude.Maps.{lookup, lookup-insert_self}
use nodeagentx.Plugins.Names.{parse_full_task_type, full_task_type, parse-full_task_type, Parsed}
use nodeagentx.Plugins.Gateway.Processes.{plugins-kill}
use nodeagentx.Plugins.Gateway.{
  stop_entry, PluginStatus, running, stopped, error, disabled, ManagedPlugin, Gateway, not_running,
  route_to, route_parsed, execute_task, disable_plugin, stop_plugin, is_running, set_status,
}

route_to_reaches :
    (name task n t : String) (o : Option ManagedPlugin)
    → route_to name task o ≡ inl (n, t)
    → (p : ManagedPlugin) × (o ≡ some p)
      × (p.status ≡ running)
      × (p.client ≡ true)
      × (n ≡ name)
      × (t ≡ task)
unfolding route_to is_running
route_to_reaches name task n t none h = cc
route_to_reaches name task n t (some p) h =
    (p, refl, ground arith, ground arith, ground arith, ground arith)

stop_entry_keeps :
    (s : PluginStatus) (name : String) (p : ManagedPlugin) (g : Gateway)
    → lookup name g.plugins ≡ some p
    → (q : ManagedPlugin) × (lookup name (stop_entry s name p g).plugins ≡ some q)
unfolding stop_entry
stop_entry_keeps stopped name p g e = (p, e)
stop_entry_keeps disabled name p g e = (p, e)
stop_entry_keeps running name p g e =
    (_, ap (lookup name) (plugins-kill p.process _) ∙ lookup-insert_self name _ g.plugins)
stop_entry_keeps error name p g e =
    (_, ap (lookup name) (plugins-kill p.process _) ∙ lookup-insert_self name _ g.plugins)

lookup-set_status :
    (s : PluginStatus) (name : String) (g : Gateway) (q : ManagedPlugin)
    → lookup name g.plugins ≡ some q
    → lookup name (set_status s name g).plugins ≡ some (record q { status = s })
unfolding set_status
lookup-set_status s name g q e = rw (e, set_status) (lookup-insert_self name _ g.plugins)

route_disabled :
    (name task : String) (g : Gateway) (p : ManagedPlugin)
    → lookup name g.plugins ≡ some p
    → route_to name task (lookup name (disable_plugin name g).0.plugins) ≡ inr not_running
unfolding disable_plugin route_to is_running stop_plugin
route_disabled name task g p e =
    rw (e, disable_plugin)
      (let (q, h) = stop_entry_keeps p.status name p g e in
        rw (lookup-set_status disabled name (stop_plugin name p g) q h) refl)

route_parsed_reaches :
    (r : Parsed) (name task : String) (g : Gateway)
    → route_parsed r g ≡ inl (name, task)
    → (p : ManagedPlugin) × (lookup name g.plugins ≡ some p)
      × (p.status ≡ running)
      × (p.client ≡ true)
      × (r ≡ Parsed.ok name task)
unfolding route_parsed
route_parsed_reaches (Parsed.err e) name task g h = cc
route_parsed_reaches (Parsed.ok n t) name task g h =
    let (p, e, s, c, en, et) = route_to_reaches n t name task (lookup n g.plugins) h in
    (p, ap (λ k. lookup k g.plugins) en ∙ e, s, c, ap₂ Parsed.ok (sym en) (sym et))

-- A request reaches only a plugin of the gateway that is running and has a client, and its task type
-- is made of that plugin's name and the task.
execute_task_reaches :
    (task_type name task : String) (g : Gateway)
    → execute_task task_type g ≡ inl (name, task)
    → (p : ManagedPlugin) × (lookup name g.plugins ≡ some p)
      × (p.status ≡ running)
      × (p.client ≡ true)
      × (parse_full_task_type task_type ≡ Parsed.ok name task)
unfolding execute_task
execute_task_reaches task_type name task g h =
    route_parsed_reaches (parse_full_task_type task_type) name task g h

-- After a plugin was disabled, a request for one of its tasks is refused as not running.
pub execute_task-disable_plugin :
    (name task : String) (g : Gateway) (p : ManagedPlugin)
    → lookup name g.plugins ≡ some p
    → Lacks b'/' name
    → is_empty name ≡ false
    → is_empty task ≡ false
    → execute_task (full_task_type name task) (disable_plugin name g).0 ≡ inr not_running
unfolding execute_task route_parsed
execute_task-disable_plugin name task g p e h n t =
    rw (parse-full_task_type name task h n t, route_parsed) (route_disabled name task g p e)
