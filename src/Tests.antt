-- ===== src/Tests.antt =====
-- Runs of the models on small inputs, and the theorems at such inputs.
mod Samples
mod Queue
mod Outgoing
mod Output
mod Deploys
mod Workers
mod Fleet
mod Triggers
mod Loads
mod Streams
mod Requests
mod Starts
mod Beats
