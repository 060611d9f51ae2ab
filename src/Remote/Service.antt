-- ===== src/Remote/Service.antt =====
-- backend/internal/remote/service.go: the operations on sessions. `emit` appends to the events, in
-- place of the call of the sink. One call reads one time from the clock.
mod Hosts
mod Timeout
mod Request
mod Decisions
mod Media
unfoldable pub use Hosts.*
unfoldable pub use Timeout.*
unfoldable pub use Request.*
unfoldable pub use Decisions.*
unfoldable pub use Media.*
