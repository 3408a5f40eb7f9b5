-- ===== src/Sys/Wrappers/Duck.antt =====
-- duckdb/duckdbsys/db.go, duckdb/duckdbsys/chunk.go, duckdb/duckdbsys/prepared.go: the wrappers as data, in their order.
use Prim.Native.String.{String}
use purego_gen.Prelude.{false, List, [], ◌∷◌}
use purego_gen.Sys.Wrappers.{Wrapper}

-- A wrapper that returns what C returns, if anything.
abbrev wrapper : String → List String → String → List String → Wrapper
wrapper name params callee arguments = record {
  name = name;
  params = params;
  callee = callee;
  arguments = arguments;
  owned = false;
}

unfoldable pub duck_db_wrappers_1 : List Wrapper
duck_db_wrappers_1 = wrapper "Open" ("path" ∷ "db" ∷ []) "duckdb_open" ("path" ∷ "db" ∷ []) ∷ []

unfoldable pub duck_db_wrappers_2 : List Wrapper
duck_db_wrappers_2 =
    wrapper "Close" ("db" ∷ []) "duckdb_close" ("db" ∷ [])
    ∷ wrapper "Connect" ("db" ∷ "conn" ∷ []) "duckdb_connect" ("db" ∷ "conn" ∷ [])
    ∷ wrapper "Disconnect" ("conn" ∷ []) "duckdb_disconnect" ("conn" ∷ [])
    ∷ wrapper "Interrupt" ("conn" ∷ []) "duckdb_interrupt" ("conn" ∷ [])
    ∷ wrapper "LibraryVersion" ([]) "duckdb_library_version" ([])
    ∷ wrapper "CreateConfig" ("config" ∷ []) "duckdb_create_config" ("config" ∷ [])
    ∷ wrapper "ConfigCount" ([]) "duckdb_config_count" ([])
    ∷ []

unfoldable pub duck_db_wrappers_3 : List Wrapper
duck_db_wrappers_3 =
    wrapper "SetConfig" ("config" ∷ "name" ∷ "option" ∷ []) "duckdb_set_config"
      ("config" ∷ "name" ∷ "option" ∷ [])
    ∷ wrapper "DestroyConfig" ("config" ∷ []) "duckdb_destroy_config" ("config" ∷ [])
    ∷ wrapper "Query" ("conn" ∷ "query" ∷ "result" ∷ []) "duckdb_query"
        ("conn" ∷ "query" ∷ "result" ∷ [])
    ∷ wrapper "DestroyResult" ("result" ∷ []) "duckdb_destroy_result" ("result" ∷ [])
    ∷ wrapper "ResultError" ("result" ∷ []) "duckdb_result_error" ("result" ∷ [])
    ∷ wrapper "ResultErrorType" ("result" ∷ []) "duckdb_result_error_type" ("result" ∷ [])
    ∷ wrapper "ResultStatementType" ("result" ∷ []) "duckdb_result_statement_type" ("result" ∷ [])
    ∷ wrapper "ResultReturnType" ("result" ∷ []) "duckdb_result_return_type" ("result" ∷ [])
    ∷ wrapper "RowsChanged" ("result" ∷ []) "duckdb_rows_changed" ("result" ∷ [])
    ∷ wrapper "RowCount" ("result" ∷ []) "duckdb_row_count" ("result" ∷ [])
    ∷ wrapper "ColumnCount" ("result" ∷ []) "duckdb_column_count" ("result" ∷ [])
    ∷ wrapper "ColumnName" ("result" ∷ "col" ∷ []) "duckdb_column_name" ("result" ∷ "col" ∷ [])
    ∷ wrapper "ColumnType" ("result" ∷ "col" ∷ []) "duckdb_column_type" ("result" ∷ "col" ∷ [])
    ∷ wrapper "ColumnLogicalType" ("result" ∷ "col" ∷ []) "duckdb_column_logical_type"
        ("result" ∷ "col" ∷ [])
    ∷ wrapper "ResultChunkCount" ("result" ∷ []) "duckdb_result_chunk_count" ("result" ∷ [])
    ∷ wrapper "ResultGetChunk" ("result" ∷ "chunkIndex" ∷ []) "duckdb_result_get_chunk"
        ("result" ∷ "chunkIndex" ∷ [])
    ∷ wrapper "ResultIsStreaming" ("result" ∷ []) "duckdb_result_is_streaming" ("result" ∷ [])
    ∷ []

unfoldable pub duck_chunk_wrappers_1 : List Wrapper
duck_chunk_wrappers_1 =
    wrapper "CreateDataChunk" ("types" ∷ "columnCount" ∷ []) "duckdb_create_data_chunk"
      ("types" ∷ "columnCount" ∷ [])
    ∷ wrapper "DestroyDataChunk" ("chunk" ∷ []) "duckdb_destroy_data_chunk" ("chunk" ∷ [])
    ∷ wrapper "DataChunkReset" ("chunk" ∷ []) "duckdb_data_chunk_reset" ("chunk" ∷ [])
    ∷ wrapper "DataChunkGetSize" ("chunk" ∷ []) "duckdb_data_chunk_get_size" ("chunk" ∷ [])
    ∷ wrapper "DataChunkSetSize" ("chunk" ∷ "size" ∷ []) "duckdb_data_chunk_set_size"
        ("chunk" ∷ "size" ∷ [])
    ∷ wrapper "DataChunkGetColumnCount" ("chunk" ∷ []) "duckdb_data_chunk_get_column_count"
        ("chunk" ∷ [])
    ∷ wrapper "DataChunkGetVector" ("chunk" ∷ "colIdx" ∷ []) "duckdb_data_chunk_get_vector"
        ("chunk" ∷ "colIdx" ∷ [])
    ∷ wrapper "VectorGetColumnType" ("vector" ∷ []) "duckdb_vector_get_column_type" ("vector" ∷ [])
    ∷ wrapper "VectorGetData" ("vector" ∷ []) "duckdb_vector_get_data" ("vector" ∷ [])
    ∷ wrapper "VectorGetValidity" ("vector" ∷ []) "duckdb_vector_get_validity" ("vector" ∷ [])
    ∷ wrapper "VectorEnsureValidityWritable" ("vector" ∷ [])
        "duckdb_vector_ensure_validity_writable" ("vector" ∷ [])
    ∷ wrapper "VectorAssignStringElement" ("vector" ∷ "index" ∷ "str" ∷ [])
        "duckdb_vector_assign_string_element" ("vector" ∷ "index" ∷ "str" ∷ [])
    ∷ wrapper "VectorAssignStringElementLen" ("vector" ∷ "index" ∷ "str" ∷ "strLen" ∷ [])
        "duckdb_vector_assign_string_element_len" ("vector" ∷ "index" ∷ "str" ∷ "strLen" ∷ [])
    ∷ wrapper "ListVectorGetChild" ("vector" ∷ []) "duckdb_list_vector_get_child" ("vector" ∷ [])
    ∷ wrapper "ListVectorGetSize" ("vector" ∷ []) "duckdb_list_vector_get_size" ("vector" ∷ [])
    ∷ wrapper "ListVectorSetSize" ("vector" ∷ "size" ∷ []) "duckdb_list_vector_set_size"
        ("vector" ∷ "size" ∷ [])
    ∷ wrapper "ListVectorReserve" ("vector" ∷ "requiredCapacity" ∷ []) "duckdb_list_vector_reserve"
        ("vector" ∷ "requiredCapacity" ∷ [])
    ∷ wrapper "StructVectorGetChild" ("vector" ∷ "index" ∷ []) "duckdb_struct_vector_get_child"
        ("vector" ∷ "index" ∷ [])
    ∷ wrapper "ArrayVectorGetChild" ("vector" ∷ []) "duckdb_array_vector_get_child" ("vector" ∷ [])
    ∷ wrapper "ValidityRowIsValid" ("validity" ∷ "row" ∷ []) "duckdb_validity_row_is_valid"
        ("validity" ∷ "row" ∷ [])
    ∷ wrapper "ValiditySetRowValidity" ("validity" ∷ "row" ∷ "valid" ∷ [])
        "duckdb_validity_set_row_validity" ("validity" ∷ "row" ∷ "valid" ∷ [])
    ∷ wrapper "ValiditySetRowInvalid" ("validity" ∷ "row" ∷ []) "duckdb_validity_set_row_invalid"
        ("validity" ∷ "row" ∷ [])
    ∷ wrapper "ValiditySetRowValid" ("validity" ∷ "row" ∷ []) "duckdb_validity_set_row_valid"
        ("validity" ∷ "row" ∷ [])
    ∷ wrapper "VectorSize" ([]) "duckdb_vector_size" ([])
    ∷ wrapper "Free" ("ptr" ∷ []) "duckdb_free" ("ptr" ∷ [])
    ∷ wrapper "Malloc" ("size" ∷ []) "duckdb_malloc" ("size" ∷ [])
    ∷ []

unfoldable pub duck_prepared_wrappers_1 : List Wrapper
duck_prepared_wrappers_1 =
    wrapper "Prepare" ("conn" ∷ "query" ∷ "stmt" ∷ []) "duckdb_prepare"
      ("conn" ∷ "query" ∷ "stmt" ∷ [])
    ∷ wrapper "DestroyPrepare" ("stmt" ∷ []) "duckdb_destroy_prepare" ("stmt" ∷ [])
    ∷ wrapper "PrepareError" ("stmt" ∷ []) "duckdb_prepare_error" ("stmt" ∷ [])
    ∷ wrapper "Nparams" ("stmt" ∷ []) "duckdb_nparams" ("stmt" ∷ [])
    ∷ []

unfoldable pub duck_prepared_wrappers_2 : List Wrapper
duck_prepared_wrappers_2 =
    wrapper "ParamType" ("stmt" ∷ "index" ∷ []) "duckdb_param_type" ("stmt" ∷ "index" ∷ [])
    ∷ wrapper "ParamLogicalType" ("stmt" ∷ "index" ∷ []) "duckdb_param_logical_type"
        ("stmt" ∷ "index" ∷ [])
    ∷ []

unfoldable pub duck_prepared_wrappers_3 : List Wrapper
duck_prepared_wrappers_3 =
    wrapper "ClearBindings" ("stmt" ∷ []) "duckdb_clear_bindings" ("stmt" ∷ [])
    ∷ wrapper "ExecutePrepared" ("stmt" ∷ "result" ∷ []) "duckdb_execute_prepared"
        ("stmt" ∷ "result" ∷ [])
    ∷ wrapper "ExecutePreparedStreaming" ("stmt" ∷ "result" ∷ [])
        "duckdb_execute_prepared_streaming" ("stmt" ∷ "result" ∷ [])
    ∷ wrapper "PreparedStatementType" ("stmt" ∷ []) "duckdb_prepared_statement_type" ("stmt" ∷ [])
    ∷ wrapper "PreparedStatementColumnCount" ("stmt" ∷ []) "duckdb_prepared_statement_column_count"
        ("stmt" ∷ [])
    ∷ []

unfoldable pub duck_prepared_wrappers_4 : List Wrapper
duck_prepared_wrappers_4 =
    wrapper "PreparedStatementColumnType" ("stmt" ∷ "index" ∷ [])
      "duckdb_prepared_statement_column_type" ("stmt" ∷ "index" ∷ [])
    ∷ wrapper "PreparedStatementColumnLogicalType" ("stmt" ∷ "index" ∷ [])
        "duckdb_prepared_statement_column_logical_type" ("stmt" ∷ "index" ∷ [])
    ∷ wrapper "BindValue" ("stmt" ∷ "idx" ∷ "val" ∷ []) "duckdb_bind_value"
        ("stmt" ∷ "idx" ∷ "val" ∷ [])
    ∷ wrapper "BindBoolean" ("stmt" ∷ "idx" ∷ "val" ∷ []) "duckdb_bind_boolean"
        ("stmt" ∷ "idx" ∷ "val" ∷ [])
    ∷ wrapper "BindInt8" ("stmt" ∷ "idx" ∷ "val" ∷ []) "duckdb_bind_int8"
        ("stmt" ∷ "idx" ∷ "val" ∷ [])
    ∷ wrapper "BindInt16" ("stmt" ∷ "idx" ∷ "val" ∷ []) "duckdb_bind_int16"
        ("stmt" ∷ "idx" ∷ "val" ∷ [])
    ∷ wrapper "BindInt32" ("stmt" ∷ "idx" ∷ "val" ∷ []) "duckdb_bind_int32"
        ("stmt" ∷ "idx" ∷ "val" ∷ [])
    ∷ wrapper "BindInt64" ("stmt" ∷ "idx" ∷ "val" ∷ []) "duckdb_bind_int64"
        ("stmt" ∷ "idx" ∷ "val" ∷ [])
    ∷ wrapper "BindUint8" ("stmt" ∷ "idx" ∷ "val" ∷ []) "duckdb_bind_uint8"
        ("stmt" ∷ "idx" ∷ "val" ∷ [])
    ∷ wrapper "BindUint16" ("stmt" ∷ "idx" ∷ "val" ∷ []) "duckdb_bind_uint16"
        ("stmt" ∷ "idx" ∷ "val" ∷ [])
    ∷ wrapper "BindUint32" ("stmt" ∷ "idx" ∷ "val" ∷ []) "duckdb_bind_uint32"
        ("stmt" ∷ "idx" ∷ "val" ∷ [])
    ∷ wrapper "BindUint64" ("stmt" ∷ "idx" ∷ "val" ∷ []) "duckdb_bind_uint64"
        ("stmt" ∷ "idx" ∷ "val" ∷ [])
    ∷ wrapper "BindHugeint" ("stmt" ∷ "idx" ∷ "val" ∷ []) "duckdb_bind_hugeint"
        ("stmt" ∷ "idx" ∷ "val" ∷ [])
    ∷ wrapper "BindUhugeint" ("stmt" ∷ "idx" ∷ "val" ∷ []) "duckdb_bind_uhugeint"
        ("stmt" ∷ "idx" ∷ "val" ∷ [])
    ∷ wrapper "BindDecimal" ("stmt" ∷ "idx" ∷ "val" ∷ []) "duckdb_bind_decimal"
        ("stmt" ∷ "idx" ∷ "val" ∷ [])
    ∷ wrapper "BindFloat" ("stmt" ∷ "idx" ∷ "val" ∷ []) "duckdb_bind_float"
        ("stmt" ∷ "idx" ∷ "val" ∷ [])
    ∷ wrapper "BindDouble" ("stmt" ∷ "idx" ∷ "val" ∷ []) "duckdb_bind_double"
        ("stmt" ∷ "idx" ∷ "val" ∷ [])
    ∷ wrapper "BindDate" ("stmt" ∷ "idx" ∷ "val" ∷ []) "duckdb_bind_date"
        ("stmt" ∷ "idx" ∷ "val" ∷ [])
    ∷ wrapper "BindTime" ("stmt" ∷ "idx" ∷ "val" ∷ []) "duckdb_bind_time"
        ("stmt" ∷ "idx" ∷ "val" ∷ [])
    ∷ wrapper "BindTimestamp" ("stmt" ∷ "idx" ∷ "val" ∷ []) "duckdb_bind_timestamp"
        ("stmt" ∷ "idx" ∷ "val" ∷ [])
    ∷ wrapper "BindTimestampTZ" ("stmt" ∷ "idx" ∷ "val" ∷ []) "duckdb_bind_timestamp_tz"
        ("stmt" ∷ "idx" ∷ "val" ∷ [])
    ∷ wrapper "BindInterval" ("stmt" ∷ "idx" ∷ "val" ∷ []) "duckdb_bind_interval"
        ("stmt" ∷ "idx" ∷ "val" ∷ [])
    ∷ wrapper "BindVarchar" ("stmt" ∷ "idx" ∷ "val" ∷ []) "duckdb_bind_varchar"
        ("stmt" ∷ "idx" ∷ "val" ∷ [])
    ∷ wrapper "BindVarcharLength" ("stmt" ∷ "idx" ∷ "val" ∷ "length" ∷ [])
        "duckdb_bind_varchar_length" ("stmt" ∷ "idx" ∷ "val" ∷ "length" ∷ [])
    ∷ []

unfoldable pub duck_prepared_wrappers_5 : List Wrapper
duck_prepared_wrappers_5 =
    wrapper "BindNull" ("stmt" ∷ "idx" ∷ []) "duckdb_bind_null" ("stmt" ∷ "idx" ∷ []) ∷ []
