-- ===== src/App.antt =====
-- backend/main.py: the HTTP application. Client is what it reads of a request's sender and size,
-- Scored how a routed path becomes a route of the answer, Events the answer as a sequence of events,
-- Deadline its time limit, Serve the two transports with the rate limiter and the cache. Forwarded,
-- Honest, Answer, Timely and Served prove.
pub mod Client
pub mod Forwarded
pub mod Request
pub mod Wire
pub mod Scored
pub mod Honest
pub mod Events
pub mod Passes
pub mod Answer
pub mod Complete
pub mod Deadline
pub mod Ready
pub mod Timely
pub mod Serve
pub mod Agree
pub mod Served
mod Tests
