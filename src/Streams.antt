-- ===== src/Streams.antt =====
-- src/streams.ts: server-sent events, from the chunks of a response to the frames of a subscription.
pub mod Parser
pub mod Queue
pub mod Urls
mod Tests
