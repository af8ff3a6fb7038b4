-- ===== src/Exchange/Operator/Resending.antt =====
-- src/handlers/operator_handler/operators: an exchange that gets a record a second time, as it does when
-- the reply to `SendRecordRequest` is lost and requests/retry.rs sends it again.
use chapterhouse_qe.Common.Map
use chapterhouse_qe.Common.{
  ℕ, ◌≡◌, refl, ==_refl, none, none, some, List, [], ◌∷◌, Text, ap, ◌∙◌, text_eq_refl, sort,
  insert_sorted, ok, panic, texts_eq,
}
use chapterhouse_qe.External.{External}
use chapterhouse_qe.Planner.Physical.Operators.{OperatorTask, exchange}
use chapterhouse_qe.Exchange.Pool.Queues.{
  ReservedRecord, RecordProcessingMetrics, empty_queue, push_back, find_queue, set_queue,
  reserve_record, drop_reservation,
}
use chapterhouse_qe.Exchange.Pool.{
  RecordPool, RecordRef, add_record, reserve, get_next_record, add_operator, mark_processed, finish,
  operator_completed_record_processing,
}
use chapterhouse_qe.Exchange.Pool
use chapterhouse_qe.Exchange.Pool.Broadcast.{run}
use chapterhouse_qe.Exchange.Pool.Calls.{step}
use chapterhouse_qe.Exchange.Operator.Draining.{serve, serve_pool, calls_of}
use chapterhouse_qe.Exchange.Operator.{
  ExchangeOperator, Request, send_record, next_record, completed_record, new,
  handle_get_next_record_request, route_msg, reply_next,
}

-- A reservation that has just been made.
abbrev in_hand : ℕ → ℕ → ℕ → List (ℕ × ReservedRecord)
in_hand r instance_id now =
    (
      r,
      record {
        record_id = r;
        operator_instance_id = instance_id;
        reserved_time = now;
        last_heartbeat_time = none;
      },
    )
    ∷ []

module _ {X : External} where
  -- A record that is sent twice, given out and noted as processed.
  abbrev pub twice :
      Text → ℕ → ℕ → X.RecordBatch → List (List Text) → (ℕ → ℕ) → List (Request X × ℕ)
  twice op instance_id r batch aliases clock =
      (send_record r batch aliases, clock 0)
      ∷ (send_record r batch aliases, clock 1)
      ∷ (next_record op (some instance_id), clock 2)
      ∷ (completed_record op r, clock 3)
      ∷ []

  -- The pool of one consumer, with a record or without, and what it has in its queue and in hand.
  abbrev pool_of :
      Text
      → List (ℕ × RecordRef X)
      → List ℕ
      → List (ℕ × ReservedRecord)
      → List (ℕ × RecordProcessingMetrics)
      → RecordPool X
  pool_of op records ids reserved metrics = record {
    records = records;
    operator_record_queues =
        (record {
          operator_id = op;
          records_to_process = ids;
          records_reserved_by_operator = reserved;
          record_processing_metrics = metrics;
        })
        ∷ [];
    operator_ids = op ∷ [];
    max_heartbeat_interval = 10;
  }

  abbrev plain : ℕ → X.RecordBatch → List (List Text) → RecordRef X
  plain r batch aliases = record {
    id = r;
    batch = batch;
    table_aliases = aliases;
    processed_by_operators = [];
  }

  added :
      (op : Text) (r : ℕ) (batch : X.RecordBatch) (aliases : List (List Text))
      → add_record (add_record (Pool.new (op ∷ []) 10) r batch aliases) r batch aliases
        ≡ pool_of op ((r, plain r batch aliases) ∷ []) (r ∷ r ∷ []) [] []
  unfolding Pool.new add_record empty_queue push_back sort insert_sorted Map.insert
  added op r batch aliases = rw (==_refl r) refl

  given :
      (op : Text) (r : ℕ) (batch : X.RecordBatch) (aliases : List (List Text)) (instance_id now : ℕ)
      → (get_next_record
          (pool_of op ((r, plain r batch aliases) ∷ []) (r ∷ r ∷ []) [] [])
          op
          instance_id
          now).0
        ≡ pool_of op
            ((r, plain r batch aliases) ∷ [])
            (r ∷ [])
            (in_hand r instance_id now)
            ((r, record { failure_count = 0 }) ∷ [])
  unfolding get_next_record reserve find_queue set_queue reserve_record Map.get Map.insert
  given op r batch aliases instance_id now =
      simp (text_eq_refl op, ==_refl r, get_next_record, find_queue, reserve, set_queue, Map.get)

  noted :
      (op : Text) (r : ℕ) (batch : X.RecordBatch) (aliases : List (List Text)) (instance_id now : ℕ)
      → (operator_completed_record_processing
          (pool_of op
            ((r, plain r batch aliases) ∷ [])
            (r ∷ [])
            (in_hand r instance_id now)
            ((r, record { failure_count = 0 }) ∷ []))
          op
          r).0
        ≡ pool_of op [] (r ∷ []) [] []
  unfolding operator_completed_record_processing finish mark_processed add_operator find_queue
      set_queue drop_reservation sort insert_sorted texts_eq Map.get Map.insert Map.remove
  noted op r batch aliases instance_id now =
      rw (text_eq_refl op, operator_completed_record_processing)
        (rw (==_refl r, finish)
          (rw (==_refl r, mark_processed)
            (rw (text_eq_refl op)
              (rw (==_refl r, Map.insert, drop_reservation) (rw (==_refl r) refl)))))

  lost :
      (op : Text) (r instance_id now : ℕ) (p : RecordPool X)
      → p ≡ pool_of op [] (r ∷ []) [] []
      → (get_next_record p op instance_id now).1 ≡ panic
  unfolding get_next_record reserve find_queue Map.get
  lost op r instance_id now p e =
      ap (λ p. (get_next_record p op instance_id now).1) e
      ∙ rw (text_eq_refl op, get_next_record) refl

  -- A new exchange with one consumer that gets a record twice, gives it out, and learns that it is
  -- processed panics at the consumer's next request: the record has left the pool, while its id is
  -- queued once more.
  pub resent-panics :
      (task : OperatorTask X) (op : Text) (ins : List Text) (s : ExchangeOperator X)
      (instance_id r : ℕ) (batch : X.RecordBatch) (aliases : List (List Text)) (clock : ℕ → ℕ)
      → new (exchange task (op ∷ []) ins) ≡ ok s
      → (route_msg
          (serve s (twice op instance_id r batch aliases clock))
          (next_record op (some instance_id))
          (clock 4)).1
        ≡ panic
  unfolding new route_msg handle_get_next_record_request run step
  resent-panics task op ins s instance_id r batch aliases clock h =
      let begun : s.record_pool ≡ Pool.new (op ∷ []) 10 = cc in
      let rs = twice op instance_id r batch aliases clock in
      let next : RecordPool X → RecordPool X =
        λ p. (get_next_record p op instance_id (clock 2)).0 in
      let done : RecordPool X → RecordPool X =
        λ p. (operator_completed_record_processing p op r).0 in
      let pool : (serve s rs).record_pool ≡ pool_of op [] (r ∷ []) [] [] =
        serve_pool s rs
        ∙ ap (λ p. run p (calls_of rs)) begun
        ∙ ap (λ p. done (next p)) (added op r batch aliases)
        ∙ ap done (given op r batch aliases instance_id (clock 2))
        ∙ noted op r batch aliases instance_id (clock 2) in
      ap (reply_next (serve s rs).received_all_data_from_producers)
        (lost op r instance_id (clock 4) (serve s rs).record_pool pool)
