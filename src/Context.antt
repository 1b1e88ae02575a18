-- ===== src/Context.antt =====
-- The context builder (app/internal/contextbuild): token estimates, the rendering of a record, the
-- summary cache, and Build.
pub mod Render
pub mod Cache
pub mod RawWindow
pub mod Tiers
pub mod Build
pub mod Budget
