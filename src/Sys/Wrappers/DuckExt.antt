-- ===== src/Sys/Wrappers/DuckExt.antt =====
-- duckdb/duckdbsys/ext.go, duckdb/duckdbsys/type.go: the wrappers as data, in their order.
use Prim.Native.String.{String}
use purego_gen.Prelude.{true, false, List, [], ◌∷◌}
use purego_gen.Sys.Wrappers.{Wrapper}

-- A wrapper that returns what C returns, if anything.
abbrev wrapper : String → List String → String → List String → Wrapper
wrapper name params callee arguments = record {
  name = name;
  params = params;
  callee = callee;
  arguments = arguments;
  owned = false;
}

-- A wrapper around ownedString.
abbrev owned_wrapper : String → List String → String → List String → Wrapper
owned_wrapper name params callee arguments = record {
  name = name;
  params = params;
  callee = callee;
  arguments = arguments;
  owned = true;
}

unfoldable pub duck_ext_wrappers_1 : List Wrapper
duck_ext_wrappers_1 =
    wrapper "FromDate" ("date" ∷ []) "duckdb_from_date" ("date" ∷ [])
    ∷ wrapper "ToDate" ("date" ∷ []) "duckdb_to_date" ("date" ∷ [])
    ∷ wrapper "IsFiniteDate" ("date" ∷ []) "duckdb_is_finite_date" ("date" ∷ [])
    ∷ wrapper "FromTime" ("t" ∷ []) "duckdb_from_time" ("t" ∷ [])
    ∷ wrapper "ToTime" ("t" ∷ []) "duckdb_to_time" ("t" ∷ [])
    ∷ wrapper "CreateTimeTZ" ("micros" ∷ "offset" ∷ []) "duckdb_create_time_tz"
        ("micros" ∷ "offset" ∷ [])
    ∷ wrapper "FromTimeTZ" ("t" ∷ []) "duckdb_from_time_tz" ("t" ∷ [])
    ∷ wrapper "FromTimestamp" ("ts" ∷ []) "duckdb_from_timestamp" ("ts" ∷ [])
    ∷ wrapper "ToTimestamp" ("ts" ∷ []) "duckdb_to_timestamp" ("ts" ∷ [])
    ∷ wrapper "IsFiniteTimestamp" ("ts" ∷ []) "duckdb_is_finite_timestamp" ("ts" ∷ [])
    ∷ wrapper "HugeintToDouble" ("val" ∷ []) "duckdb_hugeint_to_double" ("val" ∷ [])
    ∷ wrapper "DoubleToHugeint" ("val" ∷ []) "duckdb_double_to_hugeint" ("val" ∷ [])
    ∷ wrapper "UhugeintToDouble" ("val" ∷ []) "duckdb_uhugeint_to_double" ("val" ∷ [])
    ∷ wrapper "DoubleToUhugeint" ("val" ∷ []) "duckdb_double_to_uhugeint" ("val" ∷ [])
    ∷ wrapper "DoubleToDecimal" ("val" ∷ "width" ∷ "scale" ∷ []) "duckdb_double_to_decimal"
        ("val" ∷ "width" ∷ "scale" ∷ [])
    ∷ wrapper "DecimalToDouble" ("val" ∷ []) "duckdb_decimal_to_double" ("val" ∷ [])
    ∷ wrapper "AppenderCreate" ("conn" ∷ "schema" ∷ "table" ∷ "appender" ∷ [])
        "duckdb_appender_create" ("conn" ∷ "schema" ∷ "table" ∷ "appender" ∷ [])
    ∷ wrapper "AppenderColumnCount" ("appender" ∷ []) "duckdb_appender_column_count"
        ("appender" ∷ [])
    ∷ wrapper "AppenderColumnType" ("appender" ∷ "colIndex" ∷ []) "duckdb_appender_column_type"
        ("appender" ∷ "colIndex" ∷ [])
    ∷ wrapper "AppenderError" ("appender" ∷ []) "duckdb_appender_error" ("appender" ∷ [])
    ∷ wrapper "AppenderFlush" ("appender" ∷ []) "duckdb_appender_flush" ("appender" ∷ [])
    ∷ wrapper "AppenderClose" ("appender" ∷ []) "duckdb_appender_close" ("appender" ∷ [])
    ∷ wrapper "AppenderDestroy" ("appender" ∷ []) "duckdb_appender_destroy" ("appender" ∷ [])
    ∷ wrapper "AppenderBeginRow" ("appender" ∷ []) "duckdb_appender_begin_row" ("appender" ∷ [])
    ∷ wrapper "AppenderEndRow" ("appender" ∷ []) "duckdb_appender_end_row" ("appender" ∷ [])
    ∷ wrapper "AppendDefault" ("appender" ∷ []) "duckdb_append_default" ("appender" ∷ [])
    ∷ wrapper "AppendBool" ("appender" ∷ "val" ∷ []) "duckdb_append_bool" ("appender" ∷ "val" ∷ [])
    ∷ wrapper "AppendInt8" ("appender" ∷ "val" ∷ []) "duckdb_append_int8" ("appender" ∷ "val" ∷ [])
    ∷ wrapper "AppendInt16" ("appender" ∷ "val" ∷ []) "duckdb_append_int16"
        ("appender" ∷ "val" ∷ [])
    ∷ wrapper "AppendInt32" ("appender" ∷ "val" ∷ []) "duckdb_append_int32"
        ("appender" ∷ "val" ∷ [])
    ∷ wrapper "AppendInt64" ("appender" ∷ "val" ∷ []) "duckdb_append_int64"
        ("appender" ∷ "val" ∷ [])
    ∷ wrapper "AppendHugeint" ("appender" ∷ "val" ∷ []) "duckdb_append_hugeint"
        ("appender" ∷ "val" ∷ [])
    ∷ []

unfoldable pub duck_ext_wrappers_2 : List Wrapper
duck_ext_wrappers_2 =
    wrapper "AppendUint8" ("appender" ∷ "val" ∷ []) "duckdb_append_uint8" ("appender" ∷ "val" ∷ [])
    ∷ wrapper "AppendUint16" ("appender" ∷ "val" ∷ []) "duckdb_append_uint16"
        ("appender" ∷ "val" ∷ [])
    ∷ wrapper "AppendUint32" ("appender" ∷ "val" ∷ []) "duckdb_append_uint32"
        ("appender" ∷ "val" ∷ [])
    ∷ wrapper "AppendUint64" ("appender" ∷ "val" ∷ []) "duckdb_append_uint64"
        ("appender" ∷ "val" ∷ [])
    ∷ wrapper "AppendUhugeint" ("appender" ∷ "val" ∷ []) "duckdb_append_uhugeint"
        ("appender" ∷ "val" ∷ [])
    ∷ wrapper "AppendFloat" ("appender" ∷ "val" ∷ []) "duckdb_append_float"
        ("appender" ∷ "val" ∷ [])
    ∷ wrapper "AppendDouble" ("appender" ∷ "val" ∷ []) "duckdb_append_double"
        ("appender" ∷ "val" ∷ [])
    ∷ wrapper "AppendDate" ("appender" ∷ "val" ∷ []) "duckdb_append_date" ("appender" ∷ "val" ∷ [])
    ∷ wrapper "AppendTime" ("appender" ∷ "val" ∷ []) "duckdb_append_time" ("appender" ∷ "val" ∷ [])
    ∷ wrapper "AppendTimestamp" ("appender" ∷ "val" ∷ []) "duckdb_append_timestamp"
        ("appender" ∷ "val" ∷ [])
    ∷ wrapper "AppendInterval" ("appender" ∷ "val" ∷ []) "duckdb_append_interval"
        ("appender" ∷ "val" ∷ [])
    ∷ wrapper "AppendVarchar" ("appender" ∷ "val" ∷ []) "duckdb_append_varchar"
        ("appender" ∷ "val" ∷ [])
    ∷ wrapper "AppendVarcharLength" ("appender" ∷ "val" ∷ "length" ∷ [])
        "duckdb_append_varchar_length" ("appender" ∷ "val" ∷ "length" ∷ [])
    ∷ []

unfoldable pub duck_ext_wrappers_3 : List Wrapper
duck_ext_wrappers_3 =
    wrapper "AppendNull" ("appender" ∷ []) "duckdb_append_null" ("appender" ∷ [])
    ∷ wrapper "AppendValue" ("appender" ∷ "val" ∷ []) "duckdb_append_value"
        ("appender" ∷ "val" ∷ [])
    ∷ wrapper "AppendDataChunk" ("appender" ∷ "chunk" ∷ []) "duckdb_append_data_chunk"
        ("appender" ∷ "chunk" ∷ [])
    ∷ wrapper "TableDescriptionCreate" ("conn" ∷ "schema" ∷ "table" ∷ "desc" ∷ [])
        "duckdb_table_description_create" ("conn" ∷ "schema" ∷ "table" ∷ "desc" ∷ [])
    ∷ wrapper "TableDescriptionDestroy" ("desc" ∷ []) "duckdb_table_description_destroy"
        ("desc" ∷ [])
    ∷ wrapper "TableDescriptionError" ("desc" ∷ []) "duckdb_table_description_error" ("desc" ∷ [])
    ∷ wrapper "TableDescriptionGetColumnCount" ("desc" ∷ [])
        "duckdb_table_description_get_column_count" ("desc" ∷ [])
    ∷ owned_wrapper "TableDescriptionGetColumnName" ("desc" ∷ "index" ∷ [])
        "duckdb_table_description_get_column_name" ("desc" ∷ "index" ∷ [])
    ∷ wrapper "TableDescriptionGetColumnType" ("desc" ∷ "index" ∷ [])
        "duckdb_table_description_get_column_type" ("desc" ∷ "index" ∷ [])
    ∷ wrapper "ColumnHasDefault" ("desc" ∷ "colIndex" ∷ "hasDefault" ∷ [])
        "duckdb_column_has_default" ("desc" ∷ "colIndex" ∷ "hasDefault" ∷ [])
    ∷ wrapper "GetProfilingInfo" ("conn" ∷ []) "duckdb_get_profiling_info" ("conn" ∷ [])
    ∷ wrapper "ProfilingInfoGetValue" ("info" ∷ "key" ∷ []) "duckdb_profiling_info_get_value"
        ("info" ∷ "key" ∷ [])
    ∷ wrapper "ProfilingInfoGetMetrics" ("info" ∷ []) "duckdb_profiling_info_get_metrics"
        ("info" ∷ [])
    ∷ wrapper "ProfilingInfoGetChildCount" ("info" ∷ []) "duckdb_profiling_info_get_child_count"
        ("info" ∷ [])
    ∷ wrapper "ProfilingInfoGetChild" ("info" ∷ "index" ∷ []) "duckdb_profiling_info_get_child"
        ("info" ∷ "index" ∷ [])
    ∷ wrapper "StreamFetchChunk" ("result" ∷ []) "duckdb_stream_fetch_chunk" ("result" ∷ [])
    ∷ wrapper "FetchChunk" ("result" ∷ []) "duckdb_fetch_chunk" ("result" ∷ [])
    ∷ wrapper "QueryProgress" ("conn" ∷ []) "duckdb_query_progress" ("conn" ∷ [])
    ∷ wrapper "GetTableNames" ("conn" ∷ "query" ∷ "parseOnly" ∷ []) "duckdb_get_table_names"
        ("conn" ∷ "query" ∷ "parseOnly" ∷ [])
    ∷ []

unfoldable pub duck_type_wrappers_1 : List Wrapper
duck_type_wrappers_1 =
    wrapper "CreateLogicalType" ("typeID" ∷ []) "duckdb_create_logical_type" ("typeID" ∷ [])
    ∷ owned_wrapper "LogicalTypeGetAlias" ("logicalType" ∷ []) "duckdb_logical_type_get_alias"
        ("logicalType" ∷ [])
    ∷ wrapper "LogicalTypeSetAlias" ("logicalType" ∷ "alias" ∷ []) "duckdb_logical_type_set_alias"
        ("logicalType" ∷ "alias" ∷ [])
    ∷ wrapper "CreateListType" ("childType" ∷ []) "duckdb_create_list_type" ("childType" ∷ [])
    ∷ wrapper "CreateArrayType" ("childType" ∷ "size" ∷ []) "duckdb_create_array_type"
        ("childType" ∷ "size" ∷ [])
    ∷ wrapper "CreateMapType" ("keyType" ∷ "valueType" ∷ []) "duckdb_create_map_type"
        ("keyType" ∷ "valueType" ∷ [])
    ∷ wrapper "CreateUnionType" ("memberTypes" ∷ "memberNames" ∷ "memberCount" ∷ [])
        "duckdb_create_union_type" ("memberTypes" ∷ "memberNames" ∷ "memberCount" ∷ [])
    ∷ wrapper "CreateStructType" ("memberTypes" ∷ "memberNames" ∷ "memberCount" ∷ [])
        "duckdb_create_struct_type" ("memberTypes" ∷ "memberNames" ∷ "memberCount" ∷ [])
    ∷ wrapper "CreateEnumType" ("memberNames" ∷ "memberCount" ∷ []) "duckdb_create_enum_type"
        ("memberNames" ∷ "memberCount" ∷ [])
    ∷ wrapper "CreateDecimalType" ("width" ∷ "scale" ∷ []) "duckdb_create_decimal_type"
        ("width" ∷ "scale" ∷ [])
    ∷ wrapper "GetTypeId" ("logicalType" ∷ []) "duckdb_get_type_id" ("logicalType" ∷ [])
    ∷ wrapper "DecimalWidth" ("logicalType" ∷ []) "duckdb_decimal_width" ("logicalType" ∷ [])
    ∷ wrapper "DecimalScale" ("logicalType" ∷ []) "duckdb_decimal_scale" ("logicalType" ∷ [])
    ∷ wrapper "DecimalInternalType" ("logicalType" ∷ []) "duckdb_decimal_internal_type"
        ("logicalType" ∷ [])
    ∷ wrapper "EnumInternalType" ("logicalType" ∷ []) "duckdb_enum_internal_type"
        ("logicalType" ∷ [])
    ∷ wrapper "EnumDictionarySize" ("logicalType" ∷ []) "duckdb_enum_dictionary_size"
        ("logicalType" ∷ [])
    ∷ owned_wrapper "EnumDictionaryValue" ("logicalType" ∷ "index" ∷ [])
        "duckdb_enum_dictionary_value" ("logicalType" ∷ "index" ∷ [])
    ∷ wrapper "ListTypeChildType" ("logicalType" ∷ []) "duckdb_list_type_child_type"
        ("logicalType" ∷ [])
    ∷ wrapper "ArrayTypeChildType" ("logicalType" ∷ []) "duckdb_array_type_child_type"
        ("logicalType" ∷ [])
    ∷ wrapper "ArrayTypeArraySize" ("logicalType" ∷ []) "duckdb_array_type_array_size"
        ("logicalType" ∷ [])
    ∷ wrapper "MapTypeKeyType" ("logicalType" ∷ []) "duckdb_map_type_key_type" ("logicalType" ∷ [])
    ∷ wrapper "MapTypeValueType" ("logicalType" ∷ []) "duckdb_map_type_value_type"
        ("logicalType" ∷ [])
    ∷ wrapper "StructTypeChildCount" ("logicalType" ∷ []) "duckdb_struct_type_child_count"
        ("logicalType" ∷ [])
    ∷ owned_wrapper "StructTypeChildName" ("logicalType" ∷ "index" ∷ [])
        "duckdb_struct_type_child_name" ("logicalType" ∷ "index" ∷ [])
    ∷ wrapper "StructTypeChildType" ("logicalType" ∷ "index" ∷ []) "duckdb_struct_type_child_type"
        ("logicalType" ∷ "index" ∷ [])
    ∷ wrapper "UnionTypeMemberCount" ("logicalType" ∷ []) "duckdb_union_type_member_count"
        ("logicalType" ∷ [])
    ∷ owned_wrapper "UnionTypeMemberName" ("logicalType" ∷ "index" ∷ [])
        "duckdb_union_type_member_name" ("logicalType" ∷ "index" ∷ [])
    ∷ wrapper "UnionTypeMemberType" ("logicalType" ∷ "index" ∷ []) "duckdb_union_type_member_type"
        ("logicalType" ∷ "index" ∷ [])
    ∷ wrapper "DestroyLogicalType" ("logicalType" ∷ []) "duckdb_destroy_logical_type"
        ("logicalType" ∷ [])
    ∷ []
