-- ===== src/Duckdb/Types.antt =====
-- duckdb.go: the types of columns, and their names.
use purego_gen.Prelude.{ℕ, List, [], ◌∷◌, Option, none, some, get_elem?}
use purego_gen.Prelude.Text.{Text, codes}

-- The constants DUCKDB_TYPE_* that the driver names.
pub data ColumnType : Type 0 where
  boolean tinyint smallint integer bigint utinyint usmallint uinteger ubigint : ColumnType
  float double timestamp date clock interval hugeint varchar blob decimal : ColumnType
  timestamp_s timestamp_ms timestamp_ns clock_tz timestamp_tz : ColumnType
  other_type : ColumnType

-- In the order of their numbers, from DUCKDB_TYPE_INVALID, which is 0.
column_types : List ColumnType
column_types =
    other_type ∷ boolean ∷ tinyint ∷ smallint ∷ integer ∷ bigint ∷ utinyint ∷ usmallint ∷ uinteger
    ∷ ubigint ∷ float ∷ double ∷ timestamp ∷ date ∷ clock ∷ interval ∷ hugeint ∷ varchar ∷ blob
    ∷ decimal ∷ timestamp_s ∷ timestamp_ms ∷ timestamp_ns ∷ other_type ∷ other_type ∷ other_type
    ∷ other_type ∷ other_type ∷ other_type ∷ other_type ∷ clock_tz ∷ timestamp_tz ∷ []

abbrev or_other : Option ColumnType → ColumnType
or_other none = other_type
or_other (some t) = t

unfoldable pub column_type : ℕ → ColumnType
unfolding column_types
column_type n = or_other (get_elem? column_types n)

-- ColumnTypeDatabaseTypeName
unfoldable pub type_name : ColumnType → Text
type_name boolean = codes "BOOLEAN"
type_name tinyint = codes "TINYINT"
type_name smallint = codes "SMALLINT"
type_name integer = codes "INTEGER"
type_name bigint = codes "BIGINT"
type_name utinyint = codes "UTINYINT"
type_name usmallint = codes "USMALLINT"
type_name uinteger = codes "UINTEGER"
type_name ubigint = codes "UBIGINT"
type_name float = codes "FLOAT"
type_name double = codes "DOUBLE"
type_name timestamp = codes "TIMESTAMP"
type_name timestamp_s = codes "TIMESTAMP"
type_name timestamp_ms = codes "TIMESTAMP"
type_name timestamp_ns = codes "TIMESTAMP"
type_name timestamp_tz = codes "TIMESTAMP"
type_name date = codes "DATE"
type_name clock = codes "TIME"
type_name clock_tz = codes "TIME"
type_name interval = codes "INTERVAL"
type_name hugeint = codes "HUGEINT"
type_name varchar = codes "VARCHAR"
type_name blob = codes "BLOB"
type_name decimal = codes "DECIMAL"
type_name other_type = codes "UNKNOWN"

-- A Go type: bool, int64, float64, time.Time, []byte or string.
pub data ScanType : Type 0 where
  of_bool of_int64 of_float64 of_time of_bytes of_string : ScanType

-- ColumnTypeScanType
unfoldable pub scan_type : ColumnType → ScanType
scan_type boolean = of_bool
scan_type tinyint = of_int64
scan_type smallint = of_int64
scan_type integer = of_int64
scan_type bigint = of_int64
scan_type utinyint = of_int64
scan_type usmallint = of_int64
scan_type uinteger = of_int64
scan_type ubigint = of_int64
scan_type float = of_float64
scan_type double = of_float64
scan_type timestamp = of_time
scan_type timestamp_s = of_time
scan_type timestamp_ms = of_time
scan_type timestamp_ns = of_time
scan_type timestamp_tz = of_time
scan_type date = of_time
scan_type clock = of_time
scan_type clock_tz = of_time
scan_type blob = of_bytes
scan_type _ = of_string
