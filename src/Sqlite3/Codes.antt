-- ===== src/Sqlite3/Codes.antt =====
-- sqlite3/sqlite3sys/generated.go: the constants of sqlite3.h that the driver reads.
use purego_gen.Prelude.Int.{ℤ, pos}

abbrev pub sqlite_ok : ℤ
sqlite_ok = pos 0

abbrev pub sqlite_interrupt : ℤ
sqlite_interrupt = pos 9

abbrev pub sqlite_row : ℤ
sqlite_row = pos 100

abbrev pub sqlite_done : ℤ
sqlite_done = pos 101

abbrev pub sqlite_integer : ℤ
sqlite_integer = pos 1

abbrev pub sqlite_float : ℤ
sqlite_float = pos 2

abbrev pub sqlite_text : ℤ
sqlite_text = pos 3

abbrev pub sqlite_blob : ℤ
sqlite_blob = pos 4

abbrev pub sqlite_null : ℤ
sqlite_null = pos 5
