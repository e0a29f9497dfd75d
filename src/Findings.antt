-- ===== src/Findings.antt =====
-- src/findings.cpp: what is read from the runtime's reports.
pub mod Catalogue
pub mod Site
pub mod Box
pub mod Parser
