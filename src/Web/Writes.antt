-- ===== src/Web/Writes.antt =====
-- The server actions that make one admin call and then revalidate one page, as one family.
pub mod Calls
pub mod Rules
pub mod Family
pub mod Honest
pub mod Refused
use Prim.Native.String.{String}
use voxeltoad.Common.{Bool}
use voxeltoad.Js.Number.{Number}
use voxeltoad.Js.Runtime.{Runtime}
use voxeltoad.Web.Action.{Action}
use voxeltoad.Web.Client.{Site}
use voxeltoad.Web.Errors.{FormResult}
use voxeltoad.Web.Form.{FormData}
use voxeltoad.Web.Actions.Tenants
use voxeltoad.Web.Actions.Groups
use voxeltoad.Web.Actions.Applications
use voxeltoad.Web.Actions.Operators
use voxeltoad.Web.Actions.Quotas
use voxeltoad.Web.Actions.Providers
use voxeltoad.Web.Actions.Routes
use voxeltoad.Web.Actions.Plugins
use voxeltoad.Web.Actions.Models

-- A call of one of the actions, with its arguments.
pub data Write : Type 0 where
  create_tenant create_group create_application create_operator update_operator : FormData → Write
  topup_quota create_provider upsert_route update_route upsert_plugin update_plugin :
      FormData → Write
  create_model update_model : FormData → Write
  set_tenant_enabled set_group_enabled set_application_enabled : String → Bool → Write
  delete_group delete_application delete_provider delete_route delete_model : String → Write
  delete_plugin : String → String → Write
  delete_operator : Number → Write

-- The page that the action revalidates.
abbrev pub page_of : Write → String
page_of (create_tenant form) = "/tenants"
page_of (set_tenant_enabled name enabled) = "/tenants"
page_of (create_group form) = "/groups"
page_of (set_group_enabled name enabled) = "/groups"
page_of (delete_group name) = "/groups"
page_of (create_application form) = "/applications"
page_of (set_application_enabled name enabled) = "/applications"
page_of (delete_application name) = "/applications"
page_of (create_operator form) = "/operators"
page_of (update_operator form) = "/operators"
page_of (delete_operator id) = "/operators"
page_of (topup_quota form) = "/quotas"
page_of (create_provider form) = "/providers"
page_of (delete_provider name) = "/providers"
page_of (upsert_route form) = "/routes"
page_of (update_route form) = "/routes"
page_of (delete_route model_alias) = "/routes"
page_of (upsert_plugin form) = "/plugins"
page_of (update_plugin form) = "/plugins"
page_of (delete_plugin name scope) = "/plugins"
page_of (create_model form) = "/models"
page_of (update_model form) = "/models"
page_of (delete_model model_alias) = "/models"

module _ (rt : Runtime) (site : Site) where
  unfoldable pub run : Write → Action FormResult
  run (create_tenant form) = Tenants.create_tenant site form
  run (set_tenant_enabled name enabled) = Tenants.set_tenant_enabled site name enabled
  run (create_group form) = Groups.create_group site form
  run (set_group_enabled name enabled) = Groups.set_group_enabled site name enabled
  run (delete_group name) = Groups.delete_group site name
  run (create_application form) = Applications.create_application site form
  run (set_application_enabled name enabled) =
      Applications.set_application_enabled site name enabled
  run (delete_application name) = Applications.delete_application site name
  run (create_operator form) = Operators.create_operator rt site form
  run (update_operator form) = Operators.update_operator rt site form
  run (delete_operator id) = Operators.delete_operator rt site id
  run (topup_quota form) = Quotas.topup_quota rt site form
  run (create_provider form) = Providers.create_provider rt site form
  run (delete_provider name) = Providers.delete_provider site name
  run (upsert_route form) = Routes.upsert_route rt site form
  run (update_route form) = Routes.update_route rt site form
  run (delete_route model_alias) = Routes.delete_route site model_alias
  run (upsert_plugin form) = Plugins.upsert_plugin rt site form
  run (update_plugin form) = Plugins.update_plugin rt site form
  run (delete_plugin name scope) = Plugins.delete_plugin site name scope
  run (create_model form) = Models.create_model rt site form
  run (update_model form) = Models.update_model rt site form
  run (delete_model model_alias) = Models.delete_model site model_alias
