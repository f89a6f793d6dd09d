-- ===== src/Calendar.antt =====
-- Calendar synchronisation: calendar/models.py, application/calendar_sync.py, persistence/calendar.py.
pub mod Models
pub mod Planner
pub mod Store
pub mod Sync
