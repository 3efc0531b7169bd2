-- ===== src/Template.antt =====
-- internal/template/service.go: rendering a template. The placeholder
-- `\{\{\s*([a-zA-Z0-9_]+)\s*\}\}` is matched by hand, over code points.
mod Defs
mod Placeholder
unfoldable pub use Placeholder.*
unfoldable pub use Defs.*
