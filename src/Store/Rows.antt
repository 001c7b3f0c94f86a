-- ===== src/Store/Rows.antt =====
-- The parameters of the INSERT and UPDATE statements of src/agentvm/db/store.py, read from the
-- records that callers pass; the statements; and the columns that `_decode_row` reads back.
mod Session
mod Vm
mod Proxy
mod Allocation
mod Rule
unfoldable pub use Session.*
unfoldable pub use Vm.*
unfoldable pub use Proxy.*
unfoldable pub use Allocation.*
unfoldable pub use Rule.*
