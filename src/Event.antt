-- ===== src/Event.antt =====
-- src/events.cpp, src/events.h, src/jsonParseUtils.h: from the JSON of an event to its packed form,
-- and the checks of an event's times.
pub mod Json
pub mod Times
