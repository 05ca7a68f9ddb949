-- ===== src/Tests.antt =====
-- Runs of the model on concrete inputs, and the theorems at such inputs.
mod Samples
mod Matching
mod Choosing
mod Answering
mod Serving
mod Installing
mod Running
mod Watching
mod Exchanging
mod Chaining
mod Loading
mod Syncing
mod Grouping
mod Copying
mod Deploying
