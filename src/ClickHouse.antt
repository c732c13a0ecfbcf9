-- ===== src/ClickHouse.antt =====
-- inference-api/src/metrics/clickhouse.service.ts
-- The database is a parameter: what it answers to a text of SQL, with `none` where the client
-- throws, and whether it takes a row. A row of `JSONEachRow` is a map from columns to texts.
use inference_stack.Prelude.{String, Bool, true, false, Option, none, some, List, [], ◌∷◌}
use inference_stack.Map.{Map}

abbrev pub Row : Type 0
Row = Map String String

-- `client` is set or `null`; `rows` has the inserted values with their tables, the latest first.
pub record ClickHouse (V : Type 0) : Type 0 where
  pub connected : Bool
  pub rows : List (String × List V)

abbrev pub or_no_rows : Option (List Row) → List Row
or_no_rows none = []
or_no_rows (some rows) = rows

module _ {V : Type 0} where
  unfoldable pub insert : Bool → String → List V → ClickHouse V → ClickHouse V
  insert accepts table [] ch = ch
  insert accepts table (v ∷ vs) ch = elim ch.connected [
    | false ↦ ch
    | true ↦ elim accepts [ false ↦ ch | true ↦ record ch { rows = (table, v ∷ vs) ∷ ch.rows } ]
  ]

  module _ (answer : String → Option (List Row)) where
    unfoldable pub query : String → ClickHouse V → List Row
    query sql ch = elim ch.connected [ false ↦ [] | true ↦ or_no_rows (answer sql) ]

    -- The end of `onModuleInit`, after the answer to its query. What `ensureSchema` throws is caught
    -- there.
    unfoldable pub check_client : ClickHouse V → ClickHouse V
    check_client ch = elim (answer "SELECT 1") [
      | none ↦ record ch { connected = false }
      | some rows ↦ ch
    ]

  -- `createClient`, before that query.
  unfoldable pub create_client : ClickHouse V → ClickHouse V
  create_client ch = record ch { connected = true }

  abbrev pub is_connected : ClickHouse V → Bool
  is_connected ch = ch.connected

-- The columns of the table that `ensureSchema` creates, with their types.
abbrev pub table_columns : Map String String
table_columns =
    ("timestamp", "DateTime64(3)")
    ∷ ("request_id", "String")
    ∷ ("model", "String")
    ∷ ("model_type", "String")
    ∷ ("worker_id", "String")
    ∷ ("prefill_time_ms", "Float64")
    ∷ ("decode_time_ms", "Float64")
    ∷ ("total_time_ms", "Float64")
    ∷ ("queue_wait_ms", "Float64")
    ∷ ("routing_time_ms", "Float64")
    ∷ ("e2e_time_ms", "Float64")
    ∷ ("time_to_first_token_ms", "Float64")
    ∷ ("prompt_tokens", "UInt32")
    ∷ ("completion_tokens", "UInt32")
    ∷ ("cached_tokens", "UInt32")
    ∷ ("decode_tps", "Float64")
    ∷ ("prefill_tps", "Float64")
    ∷ ("user_id", "String")
    ∷ ("priority", "String")
    ∷ ("is_stream", "Bool")
    ∷ ("finish_reason", "String")
    ∷ ("media_type", "String")
    ∷ ("media_size_bytes", "UInt64")
    ∷ ("is_error", "Bool")
    ∷ ("error_message", "String")
    ∷ []
