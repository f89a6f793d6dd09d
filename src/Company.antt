-- ===== src/Company.antt =====
-- Companies: domain/company.py and domain/company_resolution.py.
pub mod Names
pub mod Match
pub mod Resolver
