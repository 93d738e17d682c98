-- ===== src/Validation.antt =====
-- src/controllers/validate.js: the validation of a request's fields.
pub mod Values
mod Rules
mod Kinds
mod Conforming
mod Signs
mod Tests
