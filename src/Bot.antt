-- ===== src/Bot.antt =====
-- The bot (internal/bot): the palette, blueprints, shapes, images and the preview, the pool of workers
-- that paints, and its requests.
pub mod Palette
pub mod Blueprint
pub mod Paint
pub mod Shapes
pub mod Image
pub mod Transport
pub mod Preview
pub mod Load
mod Tests
