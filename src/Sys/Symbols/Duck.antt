-- ===== src/Sys/Symbols/Duck.antt =====
-- duckdb/duckdbsys/generated.go: the C functions that duckdb_register_functions binds, in its order.
use Prim.Native.String.{String}
use purego_gen.Prelude.{List, [], ◌∷◌}

unfoldable pub duck_symbols_1 : List String
duck_symbols_1 =
    "duckdb_open" ∷ "duckdb_open_ext" ∷ "duckdb_close" ∷ "duckdb_connect" ∷ "duckdb_interrupt"
    ∷ "duckdb_query_progress" ∷ "duckdb_disconnect" ∷ "duckdb_library_version"
    ∷ "duckdb_get_table_names" ∷ "duckdb_create_config" ∷ "duckdb_config_count"
    ∷ "duckdb_get_config_flag" ∷ "duckdb_set_config" ∷ "duckdb_destroy_config" ∷ "duckdb_query"
    ∷ "duckdb_destroy_result" ∷ "duckdb_column_name" ∷ "duckdb_column_type"
    ∷ "duckdb_result_statement_type" ∷ "duckdb_column_logical_type" ∷ "duckdb_column_count"
    ∷ "duckdb_row_count" ∷ "duckdb_rows_changed" ∷ "duckdb_result_error"
    ∷ "duckdb_result_error_type" ∷ "duckdb_result_get_chunk" ∷ "duckdb_result_is_streaming"
    ∷ "duckdb_result_chunk_count" ∷ "duckdb_result_return_type" ∷ "duckdb_malloc" ∷ []

unfoldable pub duck_symbols_2 : List String
duck_symbols_2 =
    "duckdb_free" ∷ "duckdb_vector_size" ∷ "duckdb_string_is_inlined" ∷ "duckdb_string_t_length"
    ∷ "duckdb_from_date" ∷ "duckdb_to_date" ∷ "duckdb_is_finite_date" ∷ "duckdb_from_time"
    ∷ "duckdb_create_time_tz" ∷ "duckdb_from_time_tz" ∷ "duckdb_to_time" ∷ "duckdb_from_timestamp"
    ∷ "duckdb_to_timestamp" ∷ "duckdb_is_finite_timestamp" ∷ "duckdb_hugeint_to_double"
    ∷ "duckdb_double_to_hugeint" ∷ "duckdb_uhugeint_to_double" ∷ "duckdb_double_to_uhugeint"
    ∷ "duckdb_double_to_decimal" ∷ "duckdb_decimal_to_double" ∷ "duckdb_prepare"
    ∷ "duckdb_destroy_prepare" ∷ "duckdb_prepare_error" ∷ "duckdb_nparams" ∷ "duckdb_parameter_name"
    ∷ "duckdb_param_type" ∷ "duckdb_param_logical_type" ∷ "duckdb_clear_bindings"
    ∷ "duckdb_prepared_statement_type" ∷ "duckdb_prepared_statement_column_count" ∷ []

unfoldable pub duck_symbols_3 : List String
duck_symbols_3 =
    "duckdb_prepared_statement_column_name" ∷ "duckdb_prepared_statement_column_logical_type"
    ∷ "duckdb_prepared_statement_column_type" ∷ "duckdb_bind_value" ∷ "duckdb_bind_parameter_index"
    ∷ "duckdb_bind_boolean" ∷ "duckdb_bind_int8" ∷ "duckdb_bind_int16" ∷ "duckdb_bind_int32"
    ∷ "duckdb_bind_int64" ∷ "duckdb_bind_hugeint" ∷ "duckdb_bind_uhugeint" ∷ "duckdb_bind_decimal"
    ∷ "duckdb_bind_uint8" ∷ "duckdb_bind_uint16" ∷ "duckdb_bind_uint32" ∷ "duckdb_bind_uint64"
    ∷ "duckdb_bind_float" ∷ "duckdb_bind_double" ∷ "duckdb_bind_date" ∷ "duckdb_bind_time"
    ∷ "duckdb_bind_timestamp" ∷ "duckdb_bind_timestamp_tz" ∷ "duckdb_bind_interval"
    ∷ "duckdb_bind_varchar" ∷ "duckdb_bind_varchar_length" ∷ "duckdb_bind_blob" ∷ "duckdb_bind_null"
    ∷ "duckdb_execute_prepared" ∷ "duckdb_execute_prepared_streaming" ∷ []

unfoldable pub duck_symbols_4 : List String
duck_symbols_4 =
    "duckdb_extract_statements" ∷ "duckdb_prepare_extracted_statement"
    ∷ "duckdb_extract_statements_error" ∷ "duckdb_destroy_extracted" ∷ "duckdb_pending_prepared"
    ∷ "duckdb_pending_prepared_streaming" ∷ "duckdb_destroy_pending" ∷ "duckdb_pending_error"
    ∷ "duckdb_pending_execute_task" ∷ "duckdb_pending_execute_check_state"
    ∷ "duckdb_execute_pending" ∷ "duckdb_pending_execution_is_finished" ∷ "duckdb_destroy_value"
    ∷ "duckdb_create_varchar" ∷ "duckdb_create_varchar_length" ∷ "duckdb_create_bool"
    ∷ "duckdb_create_int8" ∷ "duckdb_create_uint8" ∷ "duckdb_create_int16" ∷ "duckdb_create_uint16"
    ∷ "duckdb_create_int32" ∷ "duckdb_create_uint32" ∷ "duckdb_create_uint64"
    ∷ "duckdb_create_int64" ∷ "duckdb_create_hugeint" ∷ "duckdb_create_uhugeint"
    ∷ "duckdb_create_decimal" ∷ "duckdb_create_float" ∷ "duckdb_create_double"
    ∷ "duckdb_create_date" ∷ []

unfoldable pub duck_symbols_5 : List String
duck_symbols_5 =
    "duckdb_create_time" ∷ "duckdb_create_time_tz_value" ∷ "duckdb_create_timestamp"
    ∷ "duckdb_create_timestamp_tz" ∷ "duckdb_create_timestamp_s" ∷ "duckdb_create_timestamp_ms"
    ∷ "duckdb_create_timestamp_ns" ∷ "duckdb_create_interval" ∷ "duckdb_create_blob"
    ∷ "duckdb_create_uuid" ∷ "duckdb_get_bool" ∷ "duckdb_get_int8" ∷ "duckdb_get_uint8"
    ∷ "duckdb_get_int16" ∷ "duckdb_get_uint16" ∷ "duckdb_get_int32" ∷ "duckdb_get_uint32"
    ∷ "duckdb_get_int64" ∷ "duckdb_get_uint64" ∷ "duckdb_get_hugeint" ∷ "duckdb_get_uhugeint"
    ∷ "duckdb_get_decimal" ∷ "duckdb_get_float" ∷ "duckdb_get_double" ∷ "duckdb_get_date"
    ∷ "duckdb_get_time" ∷ "duckdb_get_time_tz" ∷ "duckdb_get_timestamp" ∷ "duckdb_get_timestamp_tz"
    ∷ "duckdb_get_timestamp_s" ∷ []
