-- ===== src/Filter.antt =====
-- src/filters.h: the filters of a subscription, and the sets of values that they are made of.
pub mod SetBytes
pub mod SetUint
pub mod Nostr
