-- ===== src/Admission.antt =====
-- providers/admission.py: admission of upstream calls, attempt budgets and coordinated recovery.
mod Samples
pub mod Execution
pub mod Delay
pub mod Gate
pub mod Attempt
