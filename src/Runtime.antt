-- ===== src/Runtime.antt =====
-- What a reconciliation runs on: errors and results, the calls that leave the program, the
-- environment that answers them, and the two monads in which the code is written.
pub mod Errors
pub mod Calls
pub mod Env
pub mod Task
pub mod Body
pub mod Reconcile
pub mod Relations
pub mod Attempts
pub mod Later
pub mod Requeue
