-- ===== src/Python.antt =====
-- The parts of Python that the integration's code rests on: exceptions, dynamic values, and the
-- text operations of `str` and `int`.
pub mod Result
pub mod Exec
pub mod Text
pub mod Decimal
pub mod Value
