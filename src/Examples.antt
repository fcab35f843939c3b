-- ===== src/Examples.antt =====
-- Tests of the definitions on concrete inputs, and the theorems applied to them.
mod Store
mod Audit
mod Access
mod Wire
mod Decide
mod Actions
mod Previewed
mod Execute
mod Frames
mod Redact
mod Limits
mod Untrusted
mod Planning
