-- ===== src/Adapters.antt =====
-- The pure parts of the adapters of models (adapters/).
pub mod Whisper
pub mod Spacy
