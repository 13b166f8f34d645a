-- ===== src/Validator.antt =====
-- windrpc/utils/spec_validator.py: `validate` and the functions inside it, by the parts of a
-- specification that they look at. `errors` is a list of faults: which rule is broken, and by what.
pub mod Examples
pub mod Fault
pub mod Names
pub mod Unique
pub mod Types
pub mod Enums
pub mod Rpcs
pub mod Whole
