-- ===== src/Redactor.antt =====
-- redactor.go, part by part: the names of fields around a text, and the placeholders of a request.
pub mod Fields
pub mod Placeholders
