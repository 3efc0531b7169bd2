-- ===== src/Http.antt =====
-- internal/transport/http: authentication, the requests' bodies, the handlers and the errors.
mod Responses
mod Errors
mod Auth
mod Dto
mod Cursor
mod Handlers
mod Filter
mod Listing
mod Middleware
unfoldable pub use Responses.*
unfoldable pub use Errors.*
unfoldable pub use Auth.*
unfoldable pub use Cursor.*
unfoldable pub use Dto.*
unfoldable pub use Handlers.*
unfoldable pub use Filter.*
unfoldable pub use Listing.*
unfoldable pub use Middleware.*
pub mod Answers
pub mod Paging
pub mod NextPage
pub mod Guarded
