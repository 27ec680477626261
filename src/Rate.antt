-- ===== src/Rate.antt =====
-- src/RateLimiter.cpp and src/RateLimiter.h: token buckets, the cache of buckets in the order of
-- their last use, and the limiter that asks the global, the address's and the key's bucket.
pub mod Lru
pub mod Bucket
pub mod Limiter
