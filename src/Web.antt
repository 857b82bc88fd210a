-- ===== src/Web.antt =====
-- The Next.js application of apps/web: sessions, sign-in, sign-out and the routes.
pub mod Policy
pub mod Platform
pub mod Store
pub mod Session
pub mod Transaction
pub mod Oidc
pub mod Principal
pub mod Flow
pub mod Routes
pub mod Settings
pub mod Planner
mod Toy
mod Tests
mod SignInTests
mod SettingsTests
mod PlannerTests
