-- ===== src/Python.antt =====
-- What the program uses of Python's standard library and of JSON rows: calendar dates as proleptic
-- ordinals, decimals as integers in millionths, and the values of a column.
pub mod Date
pub mod Decimal
