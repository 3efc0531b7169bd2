-- ===== src/Store/Listing.antt =====
-- `ListRequests`: the order of a listing, its pages and what follows from page to page.
mod Order
mod Query
unfoldable pub use Order.*
unfoldable pub use Query.*
pub mod Pages
pub mod Walk
pub mod Owned
