-- ===== src/Menu.antt =====
-- The menus of the platform: system/internal/logic/menu.go, menu_access.go and menu_nav.go, and
-- their tables, system/internal/dao/menu.go.
pub mod Model
pub mod Access
pub mod Tree
pub mod Nav
pub mod Store
pub mod Input
pub mod Edit
pub mod Checks
pub mod Sample
mod Tests
