-- ===== src/Examples.antt =====
-- Runs of the model on small inputs: an email that schedules an interview, and the switches of an
-- account, its runs and its emails.
mod Samples
mod Domain
mod Service
mod Database
mod Operations
mod Runs
mod Emails
mod Executor
mod Submit
mod Mail
mod Calendar
mod Brief
mod Company
mod Review
