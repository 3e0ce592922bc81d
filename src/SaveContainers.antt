-- ===== src/SaveContainers.antt =====
-- core/save_containers.py: logical save containers and their three-way planner.
pub mod Model
pub mod Domains
pub mod Plan
pub mod Target
mod Tests
