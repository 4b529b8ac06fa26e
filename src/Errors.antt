-- ===== src/Errors.antt =====
-- Error codes, exceptions and the filters that turn an exception into an HTTP answer.
pub mod Codes
pub mod Tables
pub mod Exceptions
pub mod Filters
mod Tests
