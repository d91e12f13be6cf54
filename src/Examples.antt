-- ===== src/Examples.antt =====
-- Concrete inputs of the theorems: small stand-ins for the cipher crates, the serialiser and the
-- operating system, tests of the model, and an instance of each theorem with hypotheses.
mod Toy
mod Items
mod Keyrings
mod Sessions
mod Legacy
mod Formats
mod Server
mod Kwallet
mod Exchange
mod Service
