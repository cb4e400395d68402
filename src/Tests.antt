-- ===== src/Tests.antt =====
-- Runs of the model on the sample database, and the theorems applied there.
mod Transfers
mod Payments
mod Payouts
mod Requests
mod Deliveries
mod Queues
mod Sessions
mod Migrations
mod Accounts
mod Attacks
mod Seeds
mod Claims
mod Postings
mod Processes
mod Records
mod Amounts
