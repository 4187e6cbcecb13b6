-- ===== src/Web/Actions.antt =====
-- The server actions of web/src/app/[locale]/(dashboard), one module for each page.
pub mod Lists
pub mod Tenants
pub mod Groups
pub mod Applications
pub mod Operators
pub mod Roles
pub mod Account
pub mod Settings
pub mod Quotas
pub mod Providers
pub mod Routes
pub mod Plugins
pub mod Models
pub mod Budgets
pub mod Keys
pub mod History
mod Tests
