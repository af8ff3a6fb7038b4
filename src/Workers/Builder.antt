-- ===== src/Workers/Builder.antt =====
-- src/handlers/operator_handler/operators: the registry of task builders (operator_task_registry.rs) and
-- the builder of operators (builder.rs). A `TaskBuilder` and a `TableFuncSyntaxValidator` are records of
-- what their methods say; the operator that is started stands for the task that is spawned.
use chapterhouse_qe.Common.{
  Bool, true, Option, none, some, List, [], ◌∷◌, ◌++◌, any, find, if◌then◌else◌, Text, text_eq,
  codes, Outcome, ok, err, panic, ◌>>=◌,
}
use chapterhouse_qe.External.{External}
use chapterhouse_qe.Planner.Physical.Operators.{
  DataFormat, parquet, OperatorTask, table_func, table, filter, materialize_files, OperatorType,
  producer, exchange, task_name,
}
use chapterhouse_qe.Exchange.Operator.{ExchangeOperator}
use chapterhouse_qe.Exchange.Operator
use chapterhouse_qe.Workers.Instances.{OperatorInstanceConfig}

pub data OperatorTaskRegistryError : Type 0 where
  not_implemented : Text → OperatorTaskRegistryError
  materialize_file_task_builder_already_set : OperatorTaskRegistryError
  task_func_task_builder_already_added_for_function : Text → OperatorTaskRegistryError

module _ (X : External) where
  -- `build`, which starts the task of a configuration or says why it does not.
  pub record TaskBuilder : Type 0 where
    pub build : OperatorInstanceConfig X → Outcome Text (Unit {0})

  pub record TableFuncTaskDef : Type 0 where
    pub builder : TaskBuilder
    pub implements_func_name : Text

  pub record MaterializeFileTaskDef : Type 0 where
    pub builder : TaskBuilder
    pub data_formats : List DataFormat

  pub record OperatorTaskRegistry : Type 0 where
    pub table_func_tasks : List TableFuncTaskDef
    pub materialize_files_task : Option MaterializeFileTaskDef

  pub data Started : Type 0 where
    exchange_started : ExchangeOperator X → Started
    producer_started : OperatorInstanceConfig X → Started

abbrev pub format_eq : DataFormat → DataFormat → Bool
format_eq parquet parquet = true

-- `context`, of whose error the text is the outer one.
abbrev in_context : {A : Type 0} → Text → Outcome Text A → Outcome Text A
in_context text (ok a) = ok a
in_context text (err e) = err text
in_context text panic = panic

unfoldable pub format_text : DataFormat → Text
format_text parquet = codes "DataFormat::Parquet"

module _ {X : External} where
  unfoldable pub new : OperatorTaskRegistry X
  new = record { table_func_tasks = []; materialize_files_task = none }

  unfoldable pub add_materialize_files_builder :
      TaskBuilder X
      → List DataFormat
      → OperatorTaskRegistry X
      → Outcome OperatorTaskRegistryError (OperatorTaskRegistry X)
  add_materialize_files_builder builder data_formats reg = elim reg.materialize_files_task [
    | some def ↦ err materialize_file_task_builder_already_set
    | none ↦ ok (record reg {
      materialize_files_task = some (record { builder = builder; data_formats = data_formats });
    })
  ]

  unfoldable pub add_table_func_task_builder :
      TaskBuilder X
      → Text
      → OperatorTaskRegistry X
      → Outcome OperatorTaskRegistryError (OperatorTaskRegistry X)
  add_table_func_task_builder builder func_name reg =
      if any (λ task. text_eq task.implements_func_name func_name) reg.table_func_tasks
      then err (task_func_task_builder_already_added_for_function func_name)
      else ok (record reg {
        table_func_tasks =
            reg.table_func_tasks
            ++ (record { builder = builder; implements_func_name = func_name } ∷ []);
      })

  abbrev builder_of : Option (TableFuncTaskDef X) → Option (TaskBuilder X)
  builder_of none = none
  builder_of (some def) = some def.builder

  unfoldable pub find_table_func_task_builder_by_name :
      OperatorTaskRegistry X → Text → Option (TaskBuilder X)
  find_table_func_task_builder_by_name reg func_name =
      builder_of (find (λ item. text_eq item.implements_func_name func_name) reg.table_func_tasks)

  unfoldable pub find_task_builder :
      OperatorTaskRegistry X
      → OperatorTask X
      → Outcome OperatorTaskRegistryError (Option (TaskBuilder X))
  unfolding find_table_func_task_builder_by_name task_name
  find_task_builder reg (table_func alias func_name args max_rows) =
      ok (find_table_func_task_builder_by_name reg func_name)
  find_task_builder reg (table alias name max_rows) =
      err (not_implemented (codes "find task builder for OperatorTask type Table"))
  find_task_builder reg (filter expr) =
      err (not_implemented (codes "find task builder for OperatorTask type Filter"))
  find_task_builder reg (materialize_files data_format fields) = elim reg.materialize_files_task [
    | none ↦ ok none
    | some def ↦
        ok (if any (format_eq data_format) def.data_formats then some def.builder else none)
  ]

  -- `build_default_operator_task_registry`, over its two builders.
  unfoldable pub build_default_operator_task_registry :
      TaskBuilder X → TaskBuilder X → Outcome OperatorTaskRegistryError (OperatorTaskRegistry X)
  unfolding new add_table_func_task_builder add_materialize_files_builder
  build_default_operator_task_registry read_files materialize = do
    reg ← add_table_func_task_builder read_files (codes "read_files") new
    add_materialize_files_builder materialize (parquet ∷ []) reg

  abbrev build_with :
      OperatorInstanceConfig X
      → OperatorTask X
      → Outcome OperatorTaskRegistryError (Option (TaskBuilder X))
      → Outcome Text (Started X)
  build_with config task (ok (some builder)) = do
    started ← builder.build config
    ok (producer_started config)
  build_with config task (ok none) =
      err (codes "operator task builder not found: " ++ task_name task)
  build_with config task (err e) = err (codes "failed trying to find the task builder")
  build_with config task panic = panic

  unfoldable pub build_producer_operator :
      OperatorTaskRegistry X → OperatorInstanceConfig X → OperatorTask X → Outcome Text (Started X)
  unfolding find_task_builder task_name
  build_producer_operator reg config task = build_with config task (find_task_builder reg task)

  abbrev exchange_or_error :
      Outcome Operator.ExchangeOperatorError (ExchangeOperator X) → Outcome Text (Started X)
  exchange_or_error (ok ex_op) = ok (exchange_started ex_op)
  exchange_or_error (err e) = err (codes "invalid operator type: Producer")
  exchange_or_error panic = panic

  -- An error is its text, which is all that the operator handler uses of it.
  unfoldable pub build_operator :
      OperatorTaskRegistry X → OperatorInstanceConfig X → OperatorType X → Outcome Text (Started X)
  unfolding build_producer_operator format_text Operator.new
  build_operator reg config (producer (table_func alias func_name args max_rows) out ins) =
      in_context (codes "failed building producer operator for func_name: " ++ func_name)
        (build_producer_operator reg config (table_func alias func_name args max_rows))
  build_operator reg config (producer (table alias name max_rows) out ins) =
      err (codes "not implemented: table operator task")
  build_operator reg config (producer (filter expr) out ins) =
      err (codes "not implemented: filter operator task")
  build_operator reg config (producer (materialize_files data_format fields) out ins) =
      in_context
        (codes "failed building producer operator for data format: " ++ format_text data_format)
        (build_producer_operator reg config (materialize_files data_format fields))
  build_operator reg config (exchange task outs ins) =
      exchange_or_error (Operator.new (exchange task outs ins))
