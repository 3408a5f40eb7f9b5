-- ===== src/Sys/Symbols/DuckMore.antt =====
-- duckdb/duckdbsys/generated.go: the C functions that duckdb_register_functions binds, in its order.
use Prim.Native.String.{String}
use purego_gen.Prelude.{List, [], ◌∷◌}

unfoldable pub duck_symbols_6 : List String
duck_symbols_6 =
    "duckdb_get_timestamp_ms" ∷ "duckdb_get_timestamp_ns" ∷ "duckdb_get_interval"
    ∷ "duckdb_get_value_type" ∷ "duckdb_get_blob" ∷ "duckdb_get_uuid" ∷ "duckdb_get_varchar"
    ∷ "duckdb_create_struct_value" ∷ "duckdb_create_list_value" ∷ "duckdb_create_array_value"
    ∷ "duckdb_create_map_value" ∷ "duckdb_create_union_value" ∷ "duckdb_get_map_size"
    ∷ "duckdb_get_map_key" ∷ "duckdb_get_map_value" ∷ "duckdb_is_null_value"
    ∷ "duckdb_create_null_value" ∷ "duckdb_get_list_size" ∷ "duckdb_get_list_child"
    ∷ "duckdb_create_enum_value" ∷ "duckdb_get_enum_value" ∷ "duckdb_get_struct_child"
    ∷ "duckdb_value_to_string" ∷ "duckdb_create_logical_type" ∷ "duckdb_logical_type_get_alias"
    ∷ "duckdb_logical_type_set_alias" ∷ "duckdb_create_list_type" ∷ "duckdb_create_array_type"
    ∷ "duckdb_create_map_type" ∷ "duckdb_create_union_type" ∷ []

unfoldable pub duck_symbols_7 : List String
duck_symbols_7 =
    "duckdb_create_struct_type" ∷ "duckdb_create_enum_type" ∷ "duckdb_create_decimal_type"
    ∷ "duckdb_get_type_id" ∷ "duckdb_decimal_width" ∷ "duckdb_decimal_scale"
    ∷ "duckdb_decimal_internal_type" ∷ "duckdb_enum_internal_type" ∷ "duckdb_enum_dictionary_size"
    ∷ "duckdb_enum_dictionary_value" ∷ "duckdb_list_type_child_type"
    ∷ "duckdb_array_type_child_type" ∷ "duckdb_array_type_array_size" ∷ "duckdb_map_type_key_type"
    ∷ "duckdb_map_type_value_type" ∷ "duckdb_struct_type_child_count"
    ∷ "duckdb_struct_type_child_name" ∷ "duckdb_struct_type_child_type"
    ∷ "duckdb_union_type_member_count" ∷ "duckdb_union_type_member_name"
    ∷ "duckdb_union_type_member_type" ∷ "duckdb_destroy_logical_type" ∷ "duckdb_create_data_chunk"
    ∷ "duckdb_destroy_data_chunk" ∷ "duckdb_data_chunk_reset" ∷ "duckdb_data_chunk_get_column_count"
    ∷ "duckdb_data_chunk_get_vector" ∷ "duckdb_data_chunk_get_size" ∷ "duckdb_data_chunk_set_size"
    ∷ "duckdb_vector_get_column_type" ∷ []

unfoldable pub duck_symbols_8 : List String
duck_symbols_8 =
    "duckdb_vector_get_data" ∷ "duckdb_vector_get_validity"
    ∷ "duckdb_vector_ensure_validity_writable" ∷ "duckdb_vector_assign_string_element"
    ∷ "duckdb_vector_assign_string_element_len" ∷ "duckdb_list_vector_get_child"
    ∷ "duckdb_list_vector_get_size" ∷ "duckdb_list_vector_set_size" ∷ "duckdb_list_vector_reserve"
    ∷ "duckdb_struct_vector_get_child" ∷ "duckdb_array_vector_get_child"
    ∷ "duckdb_validity_row_is_valid" ∷ "duckdb_validity_set_row_validity"
    ∷ "duckdb_validity_set_row_invalid" ∷ "duckdb_validity_set_row_valid"
    ∷ "duckdb_get_profiling_info" ∷ "duckdb_profiling_info_get_value"
    ∷ "duckdb_profiling_info_get_metrics" ∷ "duckdb_profiling_info_get_child_count"
    ∷ "duckdb_profiling_info_get_child" ∷ "duckdb_appender_create" ∷ "duckdb_appender_column_count"
    ∷ "duckdb_appender_column_type" ∷ "duckdb_appender_error" ∷ "duckdb_appender_flush"
    ∷ "duckdb_appender_close" ∷ "duckdb_appender_destroy" ∷ "duckdb_appender_begin_row"
    ∷ "duckdb_appender_end_row" ∷ "duckdb_append_default" ∷ []

unfoldable pub duck_symbols_9 : List String
duck_symbols_9 =
    "duckdb_append_bool" ∷ "duckdb_append_int8" ∷ "duckdb_append_int16" ∷ "duckdb_append_int32"
    ∷ "duckdb_append_int64" ∷ "duckdb_append_hugeint" ∷ "duckdb_append_uint8"
    ∷ "duckdb_append_uint16" ∷ "duckdb_append_uint32" ∷ "duckdb_append_uint64"
    ∷ "duckdb_append_uhugeint" ∷ "duckdb_append_float" ∷ "duckdb_append_double"
    ∷ "duckdb_append_date" ∷ "duckdb_append_time" ∷ "duckdb_append_timestamp"
    ∷ "duckdb_append_interval" ∷ "duckdb_append_varchar" ∷ "duckdb_append_varchar_length"
    ∷ "duckdb_append_blob" ∷ "duckdb_append_null" ∷ "duckdb_append_value"
    ∷ "duckdb_append_data_chunk" ∷ "duckdb_table_description_create"
    ∷ "duckdb_table_description_destroy" ∷ "duckdb_table_description_error"
    ∷ "duckdb_column_has_default" ∷ "duckdb_table_description_get_column_count"
    ∷ "duckdb_table_description_get_column_name" ∷ "duckdb_table_description_get_column_type" ∷ []

unfoldable pub duck_symbols_10 : List String
duck_symbols_10 = "duckdb_stream_fetch_chunk" ∷ "duckdb_fetch_chunk" ∷ []
