-- ===== src/Store.antt =====
-- `MetadataStore` of src/agentvm/db/store.py: its tables and its methods.
pub mod Schema
pub mod Codec
pub mod Connection
pub mod Rows
pub mod Sessions
pub mod Vms
pub mod Records
pub mod Logs
pub mod Calls
pub mod WellFormed
pub mod Payload
pub mod Rules
pub mod Lists
mod Tests
