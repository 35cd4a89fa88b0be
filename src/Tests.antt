-- ===== src/Tests.antt =====
-- Runs of the model on concrete data.
mod Fixtures
mod Sizes
mod Requests
mod Servers
mod Volumes
mod Snapshots
mod Files
mod Clones
mod Devices
mod Hosts
mod Calls
mod Correlated
mod Tables
mod Frames
mod Expanded
mod Staged
mod Process
mod Attached
