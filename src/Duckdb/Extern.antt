-- ===== src/Duckdb/Extern.antt =====
-- What the driver calls and does not implement: the DuckDB library behind duckdb/duckdbsys, and the
-- contexts that its callers cancel. `S` is the state of all of that. A database, a connection, a
-- statement or a chunk is a C pointer, `none` being NULL; a result is a struct that the library fills
-- and that stands for its number. `true` is DuckDBSuccess.
use purego_gen.Prelude.{ℕ, ◌≡◌, Bool, Option, List, ◌∷◌}
use purego_gen.Prelude.Text.{Text}
use purego_gen.Prelude.Int.{ℤ}
use purego_gen.Go.{GoError, Time}
use purego_gen.Sys.Memory.{Memory}
use purego_gen.Sqlite3.Extern.{Handle, added, dropped, erase}

-- One of the functions BindNull, BindBoolean, BindInt64, BindDouble, BindVarchar, BindBlob and
-- BindTimestamp, with its argument.
pub data Binding : Type 0 where
  bind_null : Binding
  bind_boolean : Bool → Binding
  bind_int64 : ℤ → Binding
  bind_double : ℕ → Binding
  bind_varchar : Text → Binding
  bind_blob : Option Text → Binding
  bind_timestamp : ℤ → Binding

pub record Extern (S : Type 0) : Type 0 where
  -- duckdbsys.Load
  pub load : S → Option GoError × S
  pub open_db : Text → S → Bool × Handle × S
  pub connect : Handle → S → Bool × Handle × S
  pub close : Handle → S → S
  pub disconnect : Handle → S → S
  pub prepare : Handle → Text → S → Bool × Handle × S
  pub prepare_error : Handle → S → Text
  pub destroy_prepare : Handle → S → S
  pub nparams : Handle → S → ℕ
  pub clear_bindings : Handle → S → Bool × S
  -- `none` where the state is not DuckDBSuccess.
  pub bind_parameter_index : Handle → Text → S → Option ℕ
  pub bind_value : Handle → ℕ → Binding → S → Bool × S
  pub execute_prepared : Handle → S → Bool × ℕ × S
  pub query : Handle → Text → S → Bool × ℕ × S
  pub result_error : ℕ → S → Text
  pub rows_changed : ℕ → S → ℕ
  pub destroy_result : ℕ → S → S
  pub column_count : ℕ → S → ℕ
  pub column_name : ℕ → ℕ → S → Text
  pub column_type : ℕ → ℕ → S → ℕ
  pub fetch_chunk : ℕ → S → Handle × S
  pub chunk_size : ℕ → S → ℕ
  pub destroy_chunk : ℕ → S → S
  -- The memory; of a column of a chunk, VectorGetData and VectorGetValidity of its vector, `none` being nil,
  -- and ValidityRowIsValid;
  pub memory : S → Memory
  pub vector_data : ℕ → ℕ → S → ℕ
  pub vector_validity : ℕ → ℕ → S → Option ℕ
  pub row_is_valid : ℕ → ℕ → S → Bool
  -- the logical type of the column: GetTypeId, DecimalScale.
  pub logical_type : ℕ → ℕ → S → ℕ
  pub decimal_scale : ℕ → ℕ → S → ℕ
  -- FromDate and FromTime, into years, months, days and hours, minutes, seconds, microseconds, and the
  -- times that time.Date and time.Unix make in UTC; t.Unix() of a time.
  pub date_of : ℕ → Time
  pub time_of : ℕ → Time
  pub time_unix : ℤ → ℤ → Time
  pub unix_of : Time → ℤ
  -- float64 of a float32, from its 32 bits to the 64.
  pub widen : ℕ → ℕ
  -- The reason why a context is done, once it is.
  pub cancelled : ℕ → S → Option Text

-- What duckdb.h says of the statements that are not yet destroyed and of the results: prepare always
-- makes a statement, to be destroyed even if it fails, or leaves NULL; execute and query fill a result
-- whatever they answer; the destroy functions take one away; nothing else changes either.
pub record KeepsObjects {S : Type 0} (x : Extern S) (stmts results : S → List ℕ) : Type 0 where
  pub prepare_stmts :
      (c : Handle) (q : Text) (s : S)
      → stmts (x.prepare c q s).2 ≡ added (x.prepare c q s).1 (stmts s)
  pub prepare_results : (c : Handle) (q : Text) (s : S) → results (x.prepare c q s).2 ≡ results s
  pub destroy_prepare_stmts :
      (h : Handle) (s : S) → stmts (x.destroy_prepare h s) ≡ dropped h (stmts s)
  pub destroy_prepare_results : (h : Handle) (s : S) → results (x.destroy_prepare h s) ≡ results s
  pub execute_stmts : (h : Handle) (s : S) → stmts (x.execute_prepared h s).2 ≡ stmts s
  pub execute_results :
      (h : Handle) (s : S)
      → results (x.execute_prepared h s).2 ≡ (x.execute_prepared h s).1 ∷ results s
  pub query_stmts : (c : Handle) (q : Text) (s : S) → stmts (x.query c q s).2 ≡ stmts s
  pub query_results :
      (c : Handle) (q : Text) (s : S) → results (x.query c q s).2 ≡ (x.query c q s).1 ∷ results s
  pub destroy_result_stmts : (r : ℕ) (s : S) → stmts (x.destroy_result r s) ≡ stmts s
  pub destroy_result_results :
      (r : ℕ) (s : S) → results (x.destroy_result r s) ≡ erase r (results s)
  pub clear_stmts : (h : Handle) (s : S) → stmts (x.clear_bindings h s).1 ≡ stmts s
  pub clear_results : (h : Handle) (s : S) → results (x.clear_bindings h s).1 ≡ results s
  pub bind_stmts :
      (h : Handle) (i : ℕ) (b : Binding) (s : S) → stmts (x.bind_value h i b s).1 ≡ stmts s
  pub bind_results :
      (h : Handle) (i : ℕ) (b : Binding) (s : S) → results (x.bind_value h i b s).1 ≡ results s

-- And of the chunks: fetch makes one or returns NULL, destroying takes one away, and chunks, results and
-- statements do not touch each other.
pub record KeepsChunks {S : Type 0} (x : Extern S) (chunks results stmts : S → List ℕ)
    : Type 0 where
  pub fetch_chunks :
      (r : ℕ) (s : S) → chunks (x.fetch_chunk r s).1 ≡ added (x.fetch_chunk r s).0 (chunks s)
  pub fetch_results : (r : ℕ) (s : S) → results (x.fetch_chunk r s).1 ≡ results s
  pub fetch_stmts : (r : ℕ) (s : S) → stmts (x.fetch_chunk r s).1 ≡ stmts s
  pub destroy_chunk_chunks : (c : ℕ) (s : S) → chunks (x.destroy_chunk c s) ≡ erase c (chunks s)
  pub destroy_chunk_results : (c : ℕ) (s : S) → results (x.destroy_chunk c s) ≡ results s
  pub destroy_chunk_stmts : (c : ℕ) (s : S) → stmts (x.destroy_chunk c s) ≡ stmts s
  pub destroy_result_chunks : (r : ℕ) (s : S) → chunks (x.destroy_result r s) ≡ chunks s
  pub destroy_result_results :
      (r : ℕ) (s : S) → results (x.destroy_result r s) ≡ erase r (results s)
  pub destroy_result_stmts : (r : ℕ) (s : S) → stmts (x.destroy_result r s) ≡ stmts s
  pub destroy_prepare_chunks : (h : Handle) (s : S) → chunks (x.destroy_prepare h s) ≡ chunks s
  pub destroy_prepare_results : (h : Handle) (s : S) → results (x.destroy_prepare h s) ≡ results s
  pub destroy_prepare_stmts :
      (h : Handle) (s : S) → stmts (x.destroy_prepare h s) ≡ dropped h (stmts s)
