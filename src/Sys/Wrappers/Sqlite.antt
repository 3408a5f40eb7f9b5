-- ===== src/Sys/Wrappers/Sqlite.antt =====
-- sqlite3/sqlite3sys/db.go, sqlite3/sqlite3sys/bind_column.go, sqlite3/sqlite3sys/ext.go, sqlite3/sqlite3sys/func.go: the wrappers as data, in their order.
use Prim.Native.String.{String}
use purego_gen.Prelude.{false, List, [], ◌∷◌}
use purego_gen.Sys.Wrappers.{Wrapper}

-- A wrapper that returns what C returns, if anything.
abbrev wrapper : String → List String → String → List String → Wrapper
wrapper name params callee arguments = record {
  name = name;
  params = params;
  callee = callee;
  arguments = arguments;
  owned = false;
}

unfoldable pub sqlite_db_wrappers_1 : List Wrapper
sqlite_db_wrappers_1 =
    wrapper "Libversion" ([]) "sqlite3_libversion" ([])
    ∷ wrapper "LibversionNumber" ([]) "sqlite3_libversion_number" ([])
    ∷ wrapper "Sourceid" ([]) "sqlite3_sourceid" ([])
    ∷ wrapper "Threadsafe" ([]) "sqlite3_threadsafe" ([])
    ∷ wrapper "Complete" ("sql" ∷ []) "sqlite3_complete" ("sql" ∷ [])
    ∷ wrapper "Sleep" ("ms" ∷ []) "sqlite3_sleep" ("ms" ∷ [])
    ∷ []

unfoldable pub sqlite_db_wrappers_2 : List Wrapper
sqlite_db_wrappers_2 =
    wrapper "CloseV2" ("db" ∷ []) "sqlite3_close_v2" ("db" ∷ [])
    ∷ wrapper "Errmsg" ("db" ∷ []) "sqlite3_errmsg" ("db" ∷ [])
    ∷ wrapper "Errcode" ("db" ∷ []) "sqlite3_errcode" ("db" ∷ [])
    ∷ wrapper "ExtendedErrcode" ("db" ∷ []) "sqlite3_extended_errcode" ("db" ∷ [])
    ∷ wrapper "Errstr" ("rc" ∷ []) "sqlite3_errstr" ("rc" ∷ [])
    ∷ wrapper "ErrorOffset" ("db" ∷ []) "sqlite3_error_offset" ("db" ∷ [])
    ∷ wrapper "BusyTimeout" ("db" ∷ "ms" ∷ []) "sqlite3_busy_timeout" ("db" ∷ "ms" ∷ [])
    ∷ wrapper "ExtendedResultCodes" ("db" ∷ "onoff" ∷ []) "sqlite3_extended_result_codes"
        ("db" ∷ "onoff" ∷ [])
    ∷ wrapper "GetAutocommit" ("db" ∷ []) "sqlite3_get_autocommit" ("db" ∷ [])
    ∷ wrapper "IsInterrupted" ("db" ∷ []) "sqlite3_is_interrupted" ("db" ∷ [])
    ∷ wrapper "DBHandle" ("stmt" ∷ []) "sqlite3_db_handle" ("stmt" ∷ [])
    ∷ wrapper "DBName" ("db" ∷ "n" ∷ []) "sqlite3_db_name" ("db" ∷ "n" ∷ [])
    ∷ wrapper "DBFilename" ("db" ∷ "dbName" ∷ []) "sqlite3_db_filename" ("db" ∷ "dbName" ∷ [])
    ∷ wrapper "DBReadonly" ("db" ∷ "dbName" ∷ []) "sqlite3_db_readonly" ("db" ∷ "dbName" ∷ [])
    ∷ wrapper "TxnState" ("db" ∷ "schema" ∷ []) "sqlite3_txn_state" ("db" ∷ "schema" ∷ [])
    ∷ wrapper "ContextDBHandle" ("ctx" ∷ []) "sqlite3_context_db_handle" ("ctx" ∷ [])
    ∷ wrapper "DBMutex" ("db" ∷ []) "sqlite3_db_mutex" ("db" ∷ [])
    ∷ wrapper "SystemErrno" ("db" ∷ []) "sqlite3_system_errno" ("db" ∷ [])
    ∷ wrapper "DBCacheflush" ("db" ∷ []) "sqlite3_db_cacheflush" ("db" ∷ [])
    ∷ wrapper "Limit" ("db" ∷ "id" ∷ "newVal" ∷ []) "sqlite3_limit" ("db" ∷ "id" ∷ "newVal" ∷ [])
    ∷ []

unfoldable pub sqlite_db_wrappers_3 : List Wrapper
sqlite_db_wrappers_3 =
    wrapper "Finalize" ("stmt" ∷ []) "sqlite3_finalize" ("stmt" ∷ [])
    ∷ wrapper "Reset" ("stmt" ∷ []) "sqlite3_reset" ("stmt" ∷ [])
    ∷ wrapper "ClearBindings" ("stmt" ∷ []) "sqlite3_clear_bindings" ("stmt" ∷ [])
    ∷ wrapper "Step" ("stmt" ∷ []) "sqlite3_step" ("stmt" ∷ [])
    ∷ wrapper "Interrupt" ("db" ∷ []) "sqlite3_interrupt" ("db" ∷ [])
    ∷ wrapper "SQL" ("stmt" ∷ []) "sqlite3_sql" ("stmt" ∷ [])
    ∷ wrapper "StmtReadonly" ("stmt" ∷ []) "sqlite3_stmt_readonly" ("stmt" ∷ [])
    ∷ wrapper "StmtIsexplain" ("stmt" ∷ []) "sqlite3_stmt_isexplain" ("stmt" ∷ [])
    ∷ wrapper "StmtExplain" ("stmt" ∷ "eMode" ∷ []) "sqlite3_stmt_explain" ("stmt" ∷ "eMode" ∷ [])
    ∷ wrapper "StmtBusy" ("stmt" ∷ []) "sqlite3_stmt_busy" ("stmt" ∷ [])
    ∷ wrapper "DataCount" ("stmt" ∷ []) "sqlite3_data_count" ("stmt" ∷ [])
    ∷ wrapper "NextStmt" ("db" ∷ "stmt" ∷ []) "sqlite3_next_stmt" ("db" ∷ "stmt" ∷ [])
    ∷ wrapper "StmtStatus" ("stmt" ∷ "op" ∷ "resetFlg" ∷ []) "sqlite3_stmt_status"
        ("stmt" ∷ "op" ∷ "resetFlg" ∷ [])
    ∷ []

unfoldable pub sqlite_bind_column_wrappers_1 : List Wrapper
sqlite_bind_column_wrappers_1 =
    wrapper "BindParameterCount" ("stmt" ∷ []) "sqlite3_bind_parameter_count" ("stmt" ∷ [])
    ∷ wrapper "BindParameterIndex" ("stmt" ∷ "name" ∷ []) "sqlite3_bind_parameter_index"
        ("stmt" ∷ "name" ∷ [])
    ∷ wrapper "BindParameterName" ("stmt" ∷ "index" ∷ []) "sqlite3_bind_parameter_name"
        ("stmt" ∷ "index" ∷ [])
    ∷ wrapper "BindNull" ("stmt" ∷ "index" ∷ []) "sqlite3_bind_null" ("stmt" ∷ "index" ∷ [])
    ∷ []

unfoldable pub sqlite_bind_column_wrappers_2 : List Wrapper
sqlite_bind_column_wrappers_2 =
    wrapper "BindDouble" ("stmt" ∷ "index" ∷ "value" ∷ []) "sqlite3_bind_double"
      ("stmt" ∷ "index" ∷ "value" ∷ [])
    ∷ wrapper "BindInt" ("stmt" ∷ "index" ∷ "value" ∷ []) "sqlite3_bind_int"
        ("stmt" ∷ "index" ∷ "value" ∷ [])
    ∷ wrapper "BindInt64" ("stmt" ∷ "index" ∷ "value" ∷ []) "sqlite3_bind_int64"
        ("stmt" ∷ "index" ∷ "value" ∷ [])
    ∷ []

unfoldable pub sqlite_bind_column_wrappers_3 : List Wrapper
sqlite_bind_column_wrappers_3 =
    wrapper "BindValue" ("stmt" ∷ "index" ∷ "value" ∷ []) "sqlite3_bind_value"
      ("stmt" ∷ "index" ∷ "value" ∷ [])
    ∷ wrapper "BindZeroblob" ("stmt" ∷ "index" ∷ "n" ∷ []) "sqlite3_bind_zeroblob"
        ("stmt" ∷ "index" ∷ "n" ∷ [])
    ∷ wrapper "BindZeroblob64" ("stmt" ∷ "index" ∷ "n" ∷ []) "sqlite3_bind_zeroblob64"
        ("stmt" ∷ "index" ∷ "n" ∷ [])
    ∷ wrapper "ColumnCount" ("stmt" ∷ []) "sqlite3_column_count" ("stmt" ∷ [])
    ∷ wrapper "ColumnType" ("stmt" ∷ "index" ∷ []) "sqlite3_column_type" ("stmt" ∷ "index" ∷ [])
    ∷ wrapper "ColumnBytes" ("stmt" ∷ "index" ∷ []) "sqlite3_column_bytes" ("stmt" ∷ "index" ∷ [])
    ∷ wrapper "ColumnInt" ("stmt" ∷ "index" ∷ []) "sqlite3_column_int" ("stmt" ∷ "index" ∷ [])
    ∷ wrapper "ColumnInt64" ("stmt" ∷ "index" ∷ []) "sqlite3_column_int64" ("stmt" ∷ "index" ∷ [])
    ∷ wrapper "ColumnDouble" ("stmt" ∷ "index" ∷ []) "sqlite3_column_double" ("stmt" ∷ "index" ∷ [])
    ∷ wrapper "ColumnText" ("stmt" ∷ "index" ∷ []) "sqlite3_column_text" ("stmt" ∷ "index" ∷ [])
    ∷ wrapper "ColumnName" ("stmt" ∷ "index" ∷ []) "sqlite3_column_name" ("stmt" ∷ "index" ∷ [])
    ∷ wrapper "ColumnDeclType" ("stmt" ∷ "index" ∷ []) "sqlite3_column_decltype"
        ("stmt" ∷ "index" ∷ [])
    ∷ wrapper "ColumnValue" ("stmt" ∷ "index" ∷ []) "sqlite3_column_value" ("stmt" ∷ "index" ∷ [])
    ∷ []

unfoldable pub sqlite_bind_column_wrappers_4 : List Wrapper
sqlite_bind_column_wrappers_4 =
    wrapper "ColumnDatabaseName" ("stmt" ∷ "index" ∷ []) "sqlite3_column_database_name"
      ("stmt" ∷ "index" ∷ [])
    ∷ wrapper "ColumnTableName" ("stmt" ∷ "index" ∷ []) "sqlite3_column_table_name"
        ("stmt" ∷ "index" ∷ [])
    ∷ wrapper "ColumnOriginName" ("stmt" ∷ "index" ∷ []) "sqlite3_column_origin_name"
        ("stmt" ∷ "index" ∷ [])
    ∷ []

unfoldable pub sqlite_ext_wrappers_1 : List Wrapper
sqlite_ext_wrappers_1 =
    wrapper "Malloc" ("n" ∷ []) "sqlite3_malloc" ("n" ∷ [])
    ∷ wrapper "Malloc64" ("n" ∷ []) "sqlite3_malloc64" ("n" ∷ [])
    ∷ wrapper "Realloc" ("ptr" ∷ "n" ∷ []) "sqlite3_realloc" ("ptr" ∷ "n" ∷ [])
    ∷ wrapper "Realloc64" ("ptr" ∷ "n" ∷ []) "sqlite3_realloc64" ("ptr" ∷ "n" ∷ [])
    ∷ wrapper "Free" ("ptr" ∷ []) "sqlite3_free" ("ptr" ∷ [])
    ∷ wrapper "MemoryUsed" ([]) "sqlite3_memory_used" ([])
    ∷ wrapper "MemoryHighwater" ("resetFlag" ∷ []) "sqlite3_memory_highwater" ("resetFlag" ∷ [])
    ∷ wrapper "SoftHeapLimit64" ("n" ∷ []) "sqlite3_soft_heap_limit64" ("n" ∷ [])
    ∷ wrapper "HardHeapLimit64" ("n" ∷ []) "sqlite3_hard_heap_limit64" ("n" ∷ [])
    ∷ wrapper "ReleaseMemory" ("n" ∷ []) "sqlite3_release_memory" ("n" ∷ [])
    ∷ wrapper "DBReleaseMemory" ("db" ∷ []) "sqlite3_db_release_memory" ("db" ∷ [])
    ∷ []

unfoldable pub sqlite_ext_wrappers_2 : List Wrapper
sqlite_ext_wrappers_2 =
    wrapper "BackupInit" ("dest" ∷ "destName" ∷ "source" ∷ "sourceName" ∷ []) "sqlite3_backup_init"
      ("dest" ∷ "destName" ∷ "source" ∷ "sourceName" ∷ [])
    ∷ wrapper "BackupStep" ("backup" ∷ "nPage" ∷ []) "sqlite3_backup_step" ("backup" ∷ "nPage" ∷ [])
    ∷ wrapper "BackupFinish" ("backup" ∷ []) "sqlite3_backup_finish" ("backup" ∷ [])
    ∷ wrapper "BackupRemaining" ("backup" ∷ []) "sqlite3_backup_remaining" ("backup" ∷ [])
    ∷ wrapper "BackupPagecount" ("backup" ∷ []) "sqlite3_backup_pagecount" ("backup" ∷ [])
    ∷ wrapper "BlobOpen" ("db" ∷ "dbName" ∷ "table" ∷ "column" ∷ "row" ∷ "flags" ∷ "blob" ∷ [])
        "sqlite3_blob_open" ("db" ∷ "dbName" ∷ "table" ∷ "column" ∷ "row" ∷ "flags" ∷ "blob" ∷ [])
    ∷ wrapper "BlobClose" ("blob" ∷ []) "sqlite3_blob_close" ("blob" ∷ [])
    ∷ wrapper "BlobBytes" ("blob" ∷ []) "sqlite3_blob_bytes" ("blob" ∷ [])
    ∷ wrapper "BlobReopen" ("blob" ∷ "row" ∷ []) "sqlite3_blob_reopen" ("blob" ∷ "row" ∷ [])
    ∷ []

unfoldable pub sqlite_ext_wrappers_3 : List Wrapper
sqlite_ext_wrappers_3 =
    wrapper "WalAutocheckpoint" ("db" ∷ "n" ∷ []) "sqlite3_wal_autocheckpoint" ("db" ∷ "n" ∷ [])
    ∷ []

unfoldable pub sqlite_ext_wrappers_4 : List Wrapper
sqlite_ext_wrappers_4 =
    wrapper "EnableLoadExtension" ("db" ∷ "onoff" ∷ []) "sqlite3_enable_load_extension"
      ("db" ∷ "onoff" ∷ [])
    ∷ wrapper "ResetAutoExtension" ([]) "sqlite3_reset_auto_extension" ([])
    ∷ []

unfoldable pub sqlite_func_wrappers_1 : List Wrapper
sqlite_func_wrappers_1 =
    wrapper "Changes" ("db" ∷ []) "sqlite3_changes" ("db" ∷ [])
    ∷ wrapper "Changes64" ("db" ∷ []) "sqlite3_changes64" ("db" ∷ [])
    ∷ wrapper "TotalChanges" ("db" ∷ []) "sqlite3_total_changes" ("db" ∷ [])
    ∷ wrapper "TotalChanges64" ("db" ∷ []) "sqlite3_total_changes64" ("db" ∷ [])
    ∷ wrapper "LastInsertRowid" ("db" ∷ []) "sqlite3_last_insert_rowid" ("db" ∷ [])
    ∷ wrapper "SetLastInsertRowid" ("db" ∷ "id" ∷ []) "sqlite3_set_last_insert_rowid"
        ("db" ∷ "id" ∷ [])
    ∷ wrapper "UserData" ("ctx" ∷ []) "sqlite3_user_data" ("ctx" ∷ [])
    ∷ wrapper "AggregateContext" ("ctx" ∷ "nBytes" ∷ []) "sqlite3_aggregate_context"
        ("ctx" ∷ "nBytes" ∷ [])
    ∷ []

unfoldable pub sqlite_func_wrappers_2 : List Wrapper
sqlite_func_wrappers_2 =
    wrapper "ValueType" ("value" ∷ []) "sqlite3_value_type" ("value" ∷ [])
    ∷ wrapper "ValueInt" ("value" ∷ []) "sqlite3_value_int" ("value" ∷ [])
    ∷ wrapper "ValueInt64" ("value" ∷ []) "sqlite3_value_int64" ("value" ∷ [])
    ∷ wrapper "ValueDouble" ("value" ∷ []) "sqlite3_value_double" ("value" ∷ [])
    ∷ wrapper "ValueText" ("value" ∷ []) "sqlite3_value_text" ("value" ∷ [])
    ∷ wrapper "ValueNumericType" ("value" ∷ []) "sqlite3_value_numeric_type" ("value" ∷ [])
    ∷ wrapper "ValueNochange" ("value" ∷ []) "sqlite3_value_nochange" ("value" ∷ [])
    ∷ wrapper "ValueFrombind" ("value" ∷ []) "sqlite3_value_frombind" ("value" ∷ [])
    ∷ wrapper "ValueSubtype" ("value" ∷ []) "sqlite3_value_subtype" ("value" ∷ [])
    ∷ wrapper "ValueDup" ("value" ∷ []) "sqlite3_value_dup" ("value" ∷ [])
    ∷ wrapper "ValueFree" ("value" ∷ []) "sqlite3_value_free" ("value" ∷ [])
    ∷ []

unfoldable pub sqlite_func_wrappers_3 : List Wrapper
sqlite_func_wrappers_3 = wrapper "ResultNull" ("ctx" ∷ []) "sqlite3_result_null" ("ctx" ∷ []) ∷ []

unfoldable pub sqlite_func_wrappers_4 : List Wrapper
sqlite_func_wrappers_4 =
    wrapper "ResultDouble" ("ctx" ∷ "value" ∷ []) "sqlite3_result_double" ("ctx" ∷ "value" ∷ [])
    ∷ wrapper "ResultInt" ("ctx" ∷ "value" ∷ []) "sqlite3_result_int" ("ctx" ∷ "value" ∷ [])
    ∷ wrapper "ResultInt64" ("ctx" ∷ "value" ∷ []) "sqlite3_result_int64" ("ctx" ∷ "value" ∷ [])
    ∷ []

unfoldable pub sqlite_func_wrappers_5 : List Wrapper
sqlite_func_wrappers_5 =
    wrapper "ResultValue" ("ctx" ∷ "value" ∷ []) "sqlite3_result_value" ("ctx" ∷ "value" ∷ [])
    ∷ wrapper "ResultZeroblob" ("ctx" ∷ "n" ∷ []) "sqlite3_result_zeroblob" ("ctx" ∷ "n" ∷ [])
    ∷ wrapper "ResultZeroblob64" ("ctx" ∷ "n" ∷ []) "sqlite3_result_zeroblob64" ("ctx" ∷ "n" ∷ [])
    ∷ wrapper "ResultSubtype" ("ctx" ∷ "subtype" ∷ []) "sqlite3_result_subtype"
        ("ctx" ∷ "subtype" ∷ [])
    ∷ wrapper "ResultErrorToobig" ("ctx" ∷ []) "sqlite3_result_error_toobig" ("ctx" ∷ [])
    ∷ wrapper "ResultErrorNomem" ("ctx" ∷ []) "sqlite3_result_error_nomem" ("ctx" ∷ [])
    ∷ wrapper "ResultErrorCode" ("ctx" ∷ "code" ∷ []) "sqlite3_result_error_code"
        ("ctx" ∷ "code" ∷ [])
    ∷ []
