-- ===== src/Serial.antt =====
-- Serializer and Deserializer of utils/serializer.h.
pub mod Writer
pub mod Reader
pub mod Fields
mod Runs
