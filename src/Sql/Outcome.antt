-- ===== src/Sql/Outcome.antt =====
-- include/minidb/sql_executor.hpp and record_id.hpp: what a statement returns.
use minidb_cpp.Prelude.{ℕ, Bool, not, ◌&&◌, List, Option, ◌==◌, ◌-◌, ◌^◌}
use minidb_cpp.Schema.{Value}

pub record RecordId : Type 0 where
  pub page_id : ℕ
  pub slot_id : ℕ

abbrev pub invalid_page_id : ℕ
invalid_page_id = 2 ^ 32 - 1

abbrev pub metadata_page_id : ℕ
metadata_page_id = 0

abbrev pub invalid_slot_id : ℕ
invalid_slot_id = 2 ^ 16 - 1

unfoldable pub is_valid_record_id : RecordId → Bool
is_valid_record_id r =
    not (r.page_id == invalid_page_id)
    && not (r.page_id == metadata_page_id)
    && not (r.slot_id == invalid_slot_id)

pub data AccessPath : Type 0 where
  no_access heap_scan primary_key_lookup : AccessPath

pub record ExecutionStats : Type 0 where
  pub access_path : AccessPath
  pub rows_examined : ℕ
  pub rows_returned : ℕ
  pub index_lookups : ℕ

pub data CommandKind : Type 0 where
  create_table_command insert_command update_command delete_command : CommandKind
  begin_command commit_command rollback_command : CommandKind

pub record CommandResult : Type 0 where
  pub command : CommandKind
  pub affected_rows : ℕ
  pub inserted_record_id : Option RecordId
  pub stats : ExecutionStats

pub record SelectResult : Type 0 where
  pub columns : List (List ℕ)
  pub rows : List (List Value)
  pub record_ids : List RecordId
  pub stats : ExecutionStats

-- std::variant<CommandResult, SelectResult>
pub data QueryResult : Type 0 where
  command_result : CommandResult → QueryResult
  select_result : SelectResult → QueryResult
