-- ===== src/Dameng/Witnesses.antt =====
-- Tests and examples of the Dameng dialect.
use gorm.Batch.Samples.{user, columns, by_name}
use gorm.Batch.Statement.{to_upper}
use gorm.Batch.Save.{conflict_columns, conflict_column, statement_columns}
use gorm.Dameng.{
  quote_identifier, index_identifier, index_identifier_quoted, normalize_index_and_column,
  batch_save_sql, is_nil,
}
use gorm.Dameng.Types.{Declared, boolean, integer, data_type_of}
use gorm.Batch.Names.{trim_space}
use gorm.Batch.Save.{equal_fold}
use gorm.Prelude.Int.{pos}
use gorm.Prelude.{none, some, true, false}
use gorm.Model.{has_prefix}
use gorm.Dameng.Identifiers.{index_identifier-quote_identifier}
use gorm.Dameng.Merge.{is_ok, all_in, batch_save_sql-statement_columns}
use gorm.Model.{ok, field_by_name, primary_fields, quote}
use gorm.Prelude.{String, ◌≡◌, refl, not, ◌&&◌, List, [], ◌∷◌, length, nat_eq}

upper_index : index_identifier "idx_a" ≡ "IDX_A"
unfolding index_identifier to_upper
upper_index = refl

index_identifier-quote_identifier_example :
    (index_identifier (quote_identifier "a\"b") ≡ "a\"b")
    × (index_identifier_quoted (quote_identifier "a\"b") ≡ "a\"b")
    × (normalize_index_and_column (quote_identifier "a\"b") "c" ≡ (quote_identifier "a\"b", "c"))
index_identifier-quote_identifier_example = index_identifier-quote_identifier "a\"b" "c"

abbrev merged : List String
merged = "?" ∷ "?" ∷ "?" ∷ []

merge_text :
    batch_save_sql 9 "\"t\""
      ("\"k\"" ∷ "\"v\"" ∷ [])
      ("\"k\"" ∷ [])
      ("\"v\"" ∷ [])
      (("?" ∷ "?" ∷ []) ∷ [])
    ≡ ok
        "MERGE INTO \"t\" \"gorm_target\" USING (SELECT ? AS \"k\",? AS \"v\" FROM DUAL) \"gorm_source\" ON (\"gorm_target\".\"k\"=\"gorm_source\".\"k\") WHEN MATCHED THEN UPDATE SET \"v\"=\"gorm_source\".\"v\" WHEN NOT MATCHED THEN INSERT (\"k\",\"v\") VALUES (\"gorm_source\".\"k\",\"gorm_source\".\"v\")"
unfolding batch_save_sql
merge_text = refl

targeted : statement_columns user by_name columns ≡ ok ("`name`" ∷ [], "`age`" ∷ [])
unfolding statement_columns field_by_name primary_fields quote conflict_columns conflict_column
targeted = refl

batch_save_sql-statement_columns_example :
    is_ok (batch_save_sql 9 "`users`" columns ("`name`" ∷ []) ("`age`" ∷ []) (merged ∷ [])) ≡ (
      not (is_nil columns)
      && nat_eq (length merged) (length columns)
      && all_in columns ("`name`" ∷ []))
batch_save_sql-statement_columns_example =
    batch_save_sql-statement_columns user 9 "`users`" by_name columns ("`name`" ∷ []) ("`age`" ∷ [])
      merged targeted

abbrev active : Declared
active = record {
  kind = boolean;
  typ = "";
  size = pos 255;
  extra = "NOT NULL DEFAULT true";
  is_primary_key = false;
  auto_increment = none;
  default = some "true";
}

bit_of_active : data_type_of active ≡ some "BIT NOT NULL DEFAULT 1"
unfolding data_type_of equal_fold trim_space has_prefix
bit_of_active = refl

identity_of_id :
    data_type_of (record active { kind = integer; extra = ""; is_primary_key = true })
    ≡ some "BIGINT IDENTITY(1,1)"
unfolding data_type_of trim_space
identity_of_id = refl
