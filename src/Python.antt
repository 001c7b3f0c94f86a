-- ===== src/Python.antt =====
-- What the sources use of Python: exceptions, dictionaries, texts and values of any type.
pub mod Result
pub mod Failing
pub mod Exec
pub mod Requests
pub mod Dict
pub mod Text
pub mod Value
pub mod Lines
pub mod Ip
pub mod Paths
pub mod Shell
