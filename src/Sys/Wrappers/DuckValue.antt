-- ===== src/Sys/Wrappers/DuckValue.antt =====
-- duckdb/duckdbsys/value.go: the wrappers as data, in their order.
use Prim.Native.String.{String}
use purego_gen.Prelude.{true, false, List, [], ◌∷◌}
use purego_gen.Sys.Wrappers.{Wrapper}

-- A wrapper that returns what C returns, if anything.
abbrev wrapper : String → List String → String → List String → Wrapper
wrapper name params callee arguments = record {
  name = name;
  params = params;
  callee = callee;
  arguments = arguments;
  owned = false;
}

-- A wrapper around ownedString.
abbrev owned_wrapper : String → List String → String → List String → Wrapper
owned_wrapper name params callee arguments = record {
  name = name;
  params = params;
  callee = callee;
  arguments = arguments;
  owned = true;
}

unfoldable pub duck_value_wrappers_1 : List Wrapper
duck_value_wrappers_1 =
    wrapper "ExtractStatements" ("conn" ∷ "query" ∷ "stmts" ∷ []) "duckdb_extract_statements"
      ("conn" ∷ "query" ∷ "stmts" ∷ [])
    ∷ wrapper "PrepareExtractedStatement" ("conn" ∷ "stmts" ∷ "index" ∷ "stmt" ∷ [])
        "duckdb_prepare_extracted_statement" ("conn" ∷ "stmts" ∷ "index" ∷ "stmt" ∷ [])
    ∷ wrapper "ExtractStatementsError" ("stmts" ∷ []) "duckdb_extract_statements_error"
        ("stmts" ∷ [])
    ∷ wrapper "DestroyExtracted" ("stmts" ∷ []) "duckdb_destroy_extracted" ("stmts" ∷ [])
    ∷ wrapper "PendingPrepared" ("stmt" ∷ "pending" ∷ []) "duckdb_pending_prepared"
        ("stmt" ∷ "pending" ∷ [])
    ∷ wrapper "PendingPreparedStreaming" ("stmt" ∷ "pending" ∷ [])
        "duckdb_pending_prepared_streaming" ("stmt" ∷ "pending" ∷ [])
    ∷ wrapper "DestroyPending" ("pending" ∷ []) "duckdb_destroy_pending" ("pending" ∷ [])
    ∷ wrapper "PendingError" ("pending" ∷ []) "duckdb_pending_error" ("pending" ∷ [])
    ∷ wrapper "PendingExecuteTask" ("pending" ∷ []) "duckdb_pending_execute_task" ("pending" ∷ [])
    ∷ wrapper "PendingExecuteCheckState" ("pending" ∷ []) "duckdb_pending_execute_check_state"
        ("pending" ∷ [])
    ∷ wrapper "ExecutePending" ("pending" ∷ "result" ∷ []) "duckdb_execute_pending"
        ("pending" ∷ "result" ∷ [])
    ∷ wrapper "PendingExecutionIsFinished" ("state" ∷ []) "duckdb_pending_execution_is_finished"
        ("state" ∷ [])
    ∷ wrapper "DestroyValue" ("val" ∷ []) "duckdb_destroy_value" ("val" ∷ [])
    ∷ wrapper "CreateVarchar" ("text" ∷ []) "duckdb_create_varchar" ("text" ∷ [])
    ∷ wrapper "CreateVarcharLength" ("text" ∷ "length" ∷ []) "duckdb_create_varchar_length"
        ("text" ∷ "length" ∷ [])
    ∷ wrapper "CreateBool" ("val" ∷ []) "duckdb_create_bool" ("val" ∷ [])
    ∷ wrapper "CreateInt8" ("val" ∷ []) "duckdb_create_int8" ("val" ∷ [])
    ∷ wrapper "CreateUint8" ("val" ∷ []) "duckdb_create_uint8" ("val" ∷ [])
    ∷ wrapper "CreateInt16" ("val" ∷ []) "duckdb_create_int16" ("val" ∷ [])
    ∷ wrapper "CreateUint16" ("val" ∷ []) "duckdb_create_uint16" ("val" ∷ [])
    ∷ wrapper "CreateInt32" ("val" ∷ []) "duckdb_create_int32" ("val" ∷ [])
    ∷ wrapper "CreateUint32" ("val" ∷ []) "duckdb_create_uint32" ("val" ∷ [])
    ∷ wrapper "CreateInt64" ("val" ∷ []) "duckdb_create_int64" ("val" ∷ [])
    ∷ wrapper "CreateUint64" ("val" ∷ []) "duckdb_create_uint64" ("val" ∷ [])
    ∷ wrapper "CreateHugeint" ("val" ∷ []) "duckdb_create_hugeint" ("val" ∷ [])
    ∷ wrapper "CreateUhugeint" ("val" ∷ []) "duckdb_create_uhugeint" ("val" ∷ [])
    ∷ wrapper "CreateDecimalValue" ("val" ∷ []) "duckdb_create_decimal" ("val" ∷ [])
    ∷ wrapper "CreateFloat" ("val" ∷ []) "duckdb_create_float" ("val" ∷ [])
    ∷ wrapper "CreateDouble" ("val" ∷ []) "duckdb_create_double" ("val" ∷ [])
    ∷ wrapper "CreateDateValue" ("val" ∷ []) "duckdb_create_date" ("val" ∷ [])
    ∷ wrapper "CreateTimeValue" ("val" ∷ []) "duckdb_create_time" ("val" ∷ [])
    ∷ wrapper "CreateTimeTZValue" ("val" ∷ []) "duckdb_create_time_tz_value" ("val" ∷ [])
    ∷ []

unfoldable pub duck_value_wrappers_2 : List Wrapper
duck_value_wrappers_2 =
    wrapper "CreateTimestampValue" ("val" ∷ []) "duckdb_create_timestamp" ("val" ∷ [])
    ∷ wrapper "CreateTimestampTZValue" ("val" ∷ []) "duckdb_create_timestamp_tz" ("val" ∷ [])
    ∷ wrapper "CreateTimestampSValue" ("val" ∷ []) "duckdb_create_timestamp_s" ("val" ∷ [])
    ∷ wrapper "CreateTimestampMSValue" ("val" ∷ []) "duckdb_create_timestamp_ms" ("val" ∷ [])
    ∷ wrapper "CreateTimestampNSValue" ("val" ∷ []) "duckdb_create_timestamp_ns" ("val" ∷ [])
    ∷ wrapper "CreateIntervalValue" ("val" ∷ []) "duckdb_create_interval" ("val" ∷ [])
    ∷ []

unfoldable pub duck_value_wrappers_3 : List Wrapper
duck_value_wrappers_3 =
    wrapper "CreateUUID" ("val" ∷ []) "duckdb_create_uuid" ("val" ∷ [])
    ∷ wrapper "CreateNullValue" ([]) "duckdb_create_null_value" ([])
    ∷ wrapper "CreateEnumValue" ("logicalType" ∷ "val" ∷ []) "duckdb_create_enum_value"
        ("logicalType" ∷ "val" ∷ [])
    ∷ wrapper "CreateStructValue" ("logicalType" ∷ "values" ∷ []) "duckdb_create_struct_value"
        ("logicalType" ∷ "values" ∷ [])
    ∷ wrapper "CreateListValue" ("logicalType" ∷ "values" ∷ "size" ∷ []) "duckdb_create_list_value"
        ("logicalType" ∷ "values" ∷ "size" ∷ [])
    ∷ wrapper "CreateArrayValue" ("logicalType" ∷ "values" ∷ "size" ∷ [])
        "duckdb_create_array_value" ("logicalType" ∷ "values" ∷ "size" ∷ [])
    ∷ wrapper "CreateMapValue" ("logicalType" ∷ "keys" ∷ "values" ∷ "size" ∷ [])
        "duckdb_create_map_value" ("logicalType" ∷ "keys" ∷ "values" ∷ "size" ∷ [])
    ∷ wrapper "CreateUnionValue" ("logicalType" ∷ "memberIndex" ∷ "val" ∷ [])
        "duckdb_create_union_value" ("logicalType" ∷ "memberIndex" ∷ "val" ∷ [])
    ∷ wrapper "GetBool" ("val" ∷ []) "duckdb_get_bool" ("val" ∷ [])
    ∷ wrapper "GetInt8" ("val" ∷ []) "duckdb_get_int8" ("val" ∷ [])
    ∷ wrapper "GetUint8" ("val" ∷ []) "duckdb_get_uint8" ("val" ∷ [])
    ∷ wrapper "GetInt16" ("val" ∷ []) "duckdb_get_int16" ("val" ∷ [])
    ∷ wrapper "GetUint16" ("val" ∷ []) "duckdb_get_uint16" ("val" ∷ [])
    ∷ wrapper "GetInt32" ("val" ∷ []) "duckdb_get_int32" ("val" ∷ [])
    ∷ wrapper "GetUint32" ("val" ∷ []) "duckdb_get_uint32" ("val" ∷ [])
    ∷ wrapper "GetInt64" ("val" ∷ []) "duckdb_get_int64" ("val" ∷ [])
    ∷ wrapper "GetUint64" ("val" ∷ []) "duckdb_get_uint64" ("val" ∷ [])
    ∷ wrapper "GetHugeint" ("val" ∷ []) "duckdb_get_hugeint" ("val" ∷ [])
    ∷ wrapper "GetUhugeint" ("val" ∷ []) "duckdb_get_uhugeint" ("val" ∷ [])
    ∷ wrapper "GetDecimal" ("val" ∷ []) "duckdb_get_decimal" ("val" ∷ [])
    ∷ wrapper "GetFloat" ("val" ∷ []) "duckdb_get_float" ("val" ∷ [])
    ∷ wrapper "GetDouble" ("val" ∷ []) "duckdb_get_double" ("val" ∷ [])
    ∷ wrapper "GetDate" ("val" ∷ []) "duckdb_get_date" ("val" ∷ [])
    ∷ wrapper "GetTime" ("val" ∷ []) "duckdb_get_time" ("val" ∷ [])
    ∷ wrapper "GetTimeTZ" ("val" ∷ []) "duckdb_get_time_tz" ("val" ∷ [])
    ∷ wrapper "GetTimestamp" ("val" ∷ []) "duckdb_get_timestamp" ("val" ∷ [])
    ∷ wrapper "GetTimestampTZ" ("val" ∷ []) "duckdb_get_timestamp_tz" ("val" ∷ [])
    ∷ wrapper "GetTimestampS" ("val" ∷ []) "duckdb_get_timestamp_s" ("val" ∷ [])
    ∷ wrapper "GetTimestampMS" ("val" ∷ []) "duckdb_get_timestamp_ms" ("val" ∷ [])
    ∷ wrapper "GetTimestampNS" ("val" ∷ []) "duckdb_get_timestamp_ns" ("val" ∷ [])
    ∷ wrapper "GetInterval" ("val" ∷ []) "duckdb_get_interval" ("val" ∷ [])
    ∷ wrapper "GetValueType" ("val" ∷ []) "duckdb_get_value_type" ("val" ∷ [])
    ∷ []

unfoldable pub duck_value_wrappers_4 : List Wrapper
duck_value_wrappers_4 =
    wrapper "GetBlobValue" ("val" ∷ []) "duckdb_get_blob" ("val" ∷ [])
    ∷ wrapper "GetUUID" ("val" ∷ []) "duckdb_get_uuid" ("val" ∷ [])
    ∷ owned_wrapper "GetVarchar" ("val" ∷ []) "duckdb_get_varchar" ("val" ∷ [])
    ∷ wrapper "GetMapSize" ("val" ∷ []) "duckdb_get_map_size" ("val" ∷ [])
    ∷ wrapper "GetMapKey" ("val" ∷ "index" ∷ []) "duckdb_get_map_key" ("val" ∷ "index" ∷ [])
    ∷ wrapper "GetMapValue" ("val" ∷ "index" ∷ []) "duckdb_get_map_value" ("val" ∷ "index" ∷ [])
    ∷ wrapper "IsNullValue" ("val" ∷ []) "duckdb_is_null_value" ("val" ∷ [])
    ∷ wrapper "GetListSize" ("val" ∷ []) "duckdb_get_list_size" ("val" ∷ [])
    ∷ wrapper "GetListChild" ("val" ∷ "index" ∷ []) "duckdb_get_list_child" ("val" ∷ "index" ∷ [])
    ∷ wrapper "GetEnumValue" ("val" ∷ []) "duckdb_get_enum_value" ("val" ∷ [])
    ∷ wrapper "GetStructChild" ("val" ∷ "index" ∷ []) "duckdb_get_struct_child"
        ("val" ∷ "index" ∷ [])
    ∷ owned_wrapper "ValueToString" ("val" ∷ []) "duckdb_value_to_string" ("val" ∷ [])
    ∷ []
