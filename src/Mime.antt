-- ===== src/Mime.antt =====
-- internal/mail/mime: HTML bodies become inert events and paragraphs; trackers and unsubscribe.
pub mod Parse
pub mod Render
pub mod Attachments
mod Capped
mod Tags
mod Collapse
pub mod Sanitize
pub mod Rich
pub mod Track
mod Tests
mod RenderTests
