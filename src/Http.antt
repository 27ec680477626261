-- ===== src/Http.antt =====
-- src/HttpServer.cpp: the HTTP interface. The validation of addresses, the texts that go to logs and
-- clients, what is read from a request, the counters of src/HttpMetrics.h, and the handlers.
pub mod Ip
pub mod Text
pub mod Client
pub mod Metrics
pub mod Events
pub mod Routing
pub mod Query
