-- ===== src/Web/Writes/Family.antt =====
-- Every action of the family is a write of one call.
use voxeltoad.Js.Runtime.{Runtime}
use voxeltoad.Web.Client.{Site}
use voxeltoad.Web.Actions.Tenants
use voxeltoad.Web.Actions.Groups
use voxeltoad.Web.Actions.Applications
use voxeltoad.Web.Actions.Operators
use voxeltoad.Web.Actions.Quotas
use voxeltoad.Web.Actions.Providers
use voxeltoad.Web.Actions.Routes
use voxeltoad.Web.Actions.Plugins.{params_field}
use voxeltoad.Web.Actions.Models.{upstreams_of}
use voxeltoad.Web.Writes.{
  Write, page_of, run, create_tenant, set_tenant_enabled, create_group, set_group_enabled,
  delete_group, create_application, set_application_enabled, delete_application, create_operator,
  update_operator, delete_operator, topup_quota, create_provider, delete_provider, upsert_route,
  update_route, delete_route, upsert_plugin, update_plugin, delete_plugin, create_model,
  update_model, delete_model,
}
use voxeltoad.Web.Writes.Rules.{
  IsWrite, if-IsWrite, pure-IsWrite, submit-IsWrite, option-IsWrite, outcome-IsWrite, write_rules,
}
use voxeltoad.Web.Form.{text_field}
use voxeltoad.Web.Actions.Plugins
use voxeltoad.Web.Actions.Models

pub run-IsWrite :
    (rt : Runtime) (site : Site) (op : Write) → IsWrite site (page_of op) (run rt site op)
unfolding run Tenants.create_tenant Tenants.set_tenant_enabled Groups.create_group
    Groups.set_group_enabled Groups.delete_group Applications.create_application
    Applications.set_application_enabled Applications.delete_application Operators.create_operator
    Operators.update_operator Operators.delete_operator Quotas.topup_quota Providers.create_provider
    Providers.delete_provider Routes.upsert_route Routes.update_route Routes.delete_route
    Plugins.upsert_plugin Plugins.update_plugin Plugins.delete_plugin Models.create_model
    Models.update_model Models.delete_model
run-IsWrite rt site (create_tenant form) = search write_rules
run-IsWrite rt site (set_tenant_enabled name enabled) = search write_rules
run-IsWrite rt site (create_group form) = search write_rules
run-IsWrite rt site (set_group_enabled name enabled) = search write_rules
run-IsWrite rt site (delete_group name) = search write_rules
run-IsWrite rt site (create_application form) = search write_rules
run-IsWrite rt site (set_application_enabled name enabled) = search write_rules
run-IsWrite rt site (delete_application name) = search write_rules
run-IsWrite rt site (create_operator form) = search write_rules
run-IsWrite rt site (update_operator form) = search write_rules
run-IsWrite rt site (delete_operator id) = search write_rules
run-IsWrite rt site (topup_quota form) = search write_rules
run-IsWrite rt site (create_provider form) = search write_rules
run-IsWrite rt site (delete_provider name) = search write_rules
run-IsWrite rt site (upsert_route form) = search write_rules
run-IsWrite rt site (update_route form) = search write_rules
run-IsWrite rt site (delete_route model_alias) = search write_rules
run-IsWrite rt site (upsert_plugin form) = if-IsWrite _ (pure-IsWrite _ _) (
    option-IsWrite (params_field rt (text_field form "params_json")) (pure-IsWrite _ _)
      (λ params. submit-IsWrite _ _ _ _ _ _))
run-IsWrite rt site (update_plugin form) = if-IsWrite _ (pure-IsWrite _ _) (
    option-IsWrite (params_field rt (text_field form "params_json")) (pure-IsWrite _ _)
      (λ params. submit-IsWrite _ _ _ _ _ _))
run-IsWrite rt site (delete_plugin name scope) = search write_rules
run-IsWrite rt site (create_model form) = if-IsWrite _ (pure-IsWrite _ _) (
    outcome-IsWrite (upstreams_of rt form) (λ err. pure-IsWrite _ _)
      (λ upstreams. submit-IsWrite _ _ _ _ _ _))
run-IsWrite rt site (update_model form) = if-IsWrite _ (pure-IsWrite _ _) (
    outcome-IsWrite (upstreams_of rt form) (λ err. pure-IsWrite _ _)
      (λ upstreams. submit-IsWrite _ _ _ _ _ _))
run-IsWrite rt site (delete_model model_alias) = search write_rules
