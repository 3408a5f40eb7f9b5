-- ===== src/Sys/Symbols/Sqlite.antt =====
-- sqlite3/sqlite3sys/generated.go: the C functions that sqlite3_register_functions binds, in its order.
use Prim.Native.String.{String}
use purego_gen.Prelude.{List, [], ◌∷◌}

unfoldable pub sqlite_symbols_1 : List String
sqlite_symbols_1 =
    "sqlite3_libversion" ∷ "sqlite3_sourceid" ∷ "sqlite3_libversion_number" ∷ "sqlite3_threadsafe"
    ∷ "sqlite3_close_v2" ∷ "sqlite3_extended_result_codes" ∷ "sqlite3_last_insert_rowid"
    ∷ "sqlite3_set_last_insert_rowid" ∷ "sqlite3_changes" ∷ "sqlite3_changes64"
    ∷ "sqlite3_total_changes" ∷ "sqlite3_total_changes64" ∷ "sqlite3_interrupt"
    ∷ "sqlite3_is_interrupted" ∷ "sqlite3_complete" ∷ "sqlite3_busy_handler"
    ∷ "sqlite3_busy_timeout" ∷ "sqlite3_malloc" ∷ "sqlite3_malloc64" ∷ "sqlite3_realloc"
    ∷ "sqlite3_realloc64" ∷ "sqlite3_free" ∷ "sqlite3_memory_used" ∷ "sqlite3_memory_highwater"
    ∷ "sqlite3_set_authorizer" ∷ "sqlite3_trace_v2" ∷ "sqlite3_progress_handler" ∷ "sqlite3_open_v2"
    ∷ "sqlite3_errcode" ∷ "sqlite3_extended_errcode" ∷ []

unfoldable pub sqlite_symbols_2 : List String
sqlite_symbols_2 =
    "sqlite3_errmsg" ∷ "sqlite3_errstr" ∷ "sqlite3_error_offset" ∷ "sqlite3_limit"
    ∷ "sqlite3_prepare_v2" ∷ "sqlite3_sql" ∷ "sqlite3_expanded_sql" ∷ "sqlite3_stmt_readonly"
    ∷ "sqlite3_stmt_isexplain" ∷ "sqlite3_stmt_explain" ∷ "sqlite3_stmt_busy" ∷ "sqlite3_bind_blob"
    ∷ "sqlite3_bind_double" ∷ "sqlite3_bind_int" ∷ "sqlite3_bind_int64" ∷ "sqlite3_bind_null"
    ∷ "sqlite3_bind_text" ∷ "sqlite3_bind_value" ∷ "sqlite3_bind_zeroblob"
    ∷ "sqlite3_bind_zeroblob64" ∷ "sqlite3_bind_parameter_count" ∷ "sqlite3_bind_parameter_name"
    ∷ "sqlite3_bind_parameter_index" ∷ "sqlite3_clear_bindings" ∷ "sqlite3_column_count"
    ∷ "sqlite3_column_name" ∷ "sqlite3_column_database_name" ∷ "sqlite3_column_table_name"
    ∷ "sqlite3_column_origin_name" ∷ "sqlite3_column_decltype" ∷ []

unfoldable pub sqlite_symbols_3 : List String
sqlite_symbols_3 =
    "sqlite3_step" ∷ "sqlite3_data_count" ∷ "sqlite3_column_blob" ∷ "sqlite3_column_double"
    ∷ "sqlite3_column_int" ∷ "sqlite3_column_int64" ∷ "sqlite3_column_text" ∷ "sqlite3_column_value"
    ∷ "sqlite3_column_bytes" ∷ "sqlite3_column_type" ∷ "sqlite3_finalize" ∷ "sqlite3_reset"
    ∷ "sqlite3_create_function_v2" ∷ "sqlite3_create_window_function" ∷ "sqlite3_value_blob"
    ∷ "sqlite3_value_double" ∷ "sqlite3_value_int" ∷ "sqlite3_value_int64" ∷ "sqlite3_value_text"
    ∷ "sqlite3_value_bytes" ∷ "sqlite3_value_type" ∷ "sqlite3_value_numeric_type"
    ∷ "sqlite3_value_nochange" ∷ "sqlite3_value_frombind" ∷ "sqlite3_value_subtype"
    ∷ "sqlite3_value_dup" ∷ "sqlite3_value_free" ∷ "sqlite3_aggregate_context" ∷ "sqlite3_user_data"
    ∷ "sqlite3_context_db_handle" ∷ []

unfoldable pub sqlite_symbols_4 : List String
sqlite_symbols_4 =
    "sqlite3_result_blob" ∷ "sqlite3_result_double" ∷ "sqlite3_result_error"
    ∷ "sqlite3_result_error_toobig" ∷ "sqlite3_result_error_nomem" ∷ "sqlite3_result_error_code"
    ∷ "sqlite3_result_int" ∷ "sqlite3_result_int64" ∷ "sqlite3_result_null" ∷ "sqlite3_result_text"
    ∷ "sqlite3_result_value" ∷ "sqlite3_result_zeroblob" ∷ "sqlite3_result_zeroblob64"
    ∷ "sqlite3_result_subtype" ∷ "sqlite3_create_collation_v2" ∷ "sqlite3_sleep"
    ∷ "sqlite3_get_autocommit" ∷ "sqlite3_db_handle" ∷ "sqlite3_db_name" ∷ "sqlite3_db_filename"
    ∷ "sqlite3_db_readonly" ∷ "sqlite3_txn_state" ∷ "sqlite3_next_stmt" ∷ "sqlite3_commit_hook"
    ∷ "sqlite3_rollback_hook" ∷ "sqlite3_update_hook" ∷ "sqlite3_release_memory"
    ∷ "sqlite3_db_release_memory" ∷ "sqlite3_soft_heap_limit64" ∷ "sqlite3_hard_heap_limit64" ∷ []

unfoldable pub sqlite_symbols_5 : List String
sqlite_symbols_5 =
    "sqlite3_table_column_metadata" ∷ "sqlite3_load_extension" ∷ "sqlite3_enable_load_extension"
    ∷ "sqlite3_reset_auto_extension" ∷ "sqlite3_blob_open" ∷ "sqlite3_blob_reopen"
    ∷ "sqlite3_blob_close" ∷ "sqlite3_blob_bytes" ∷ "sqlite3_blob_read" ∷ "sqlite3_blob_write"
    ∷ "sqlite3_db_mutex" ∷ "sqlite3_status" ∷ "sqlite3_status64" ∷ "sqlite3_db_status"
    ∷ "sqlite3_db_status64" ∷ "sqlite3_stmt_status" ∷ "sqlite3_backup_init" ∷ "sqlite3_backup_step"
    ∷ "sqlite3_backup_finish" ∷ "sqlite3_backup_remaining" ∷ "sqlite3_backup_pagecount"
    ∷ "sqlite3_wal_hook" ∷ "sqlite3_wal_autocheckpoint" ∷ "sqlite3_wal_checkpoint"
    ∷ "sqlite3_wal_checkpoint_v2" ∷ "sqlite3_db_cacheflush" ∷ "sqlite3_system_errno"
    ∷ "sqlite3_serialize" ∷ "sqlite3_deserialize" ∷ []
