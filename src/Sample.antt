-- ===== src/Sample.antt =====
-- An environment for the tests and the examples: encodings, a world with an event store, a clock and
-- a token store, and identifiers. No part of the program.
pub mod Encodings
pub mod World
pub mod Documents
pub mod Searches
pub mod Streams
pub mod QueryServer
pub mod CommandServer
pub mod Whole
