-- ===== src/Examples/Pools.antt =====
-- src/handlers/operator_handler/operators/exchange_operator.rs: an exchange with two consumers.
use chapterhouse_qe.Common.{
  text_eq, sort, insert_sorted, text_le, texts_eq, ◌≡◌, ◌≢◌, refl, List, [], ◌∷◌, ◌++◌, Text, codes,
  ok, panic,
}
use chapterhouse_qe.Common.Map
use chapterhouse_qe.Exchange.Pool.{
  new, add_record, reserve, get_next_record, add_operator, mark_processed, finish,
  operator_completed_record_processing, update_reserved_record_heartbeat, maintain,
  requeue_reserved_records_with_stale_heartbeat, RecordPool,
}
use chapterhouse_qe.Exchange.Pool.Queues.{
  empty_queue, push_back, find_queue, set_queue, reserve_record, drop_reservation, heartbeat, beat,
  stale_ids, requeue_record, requeue_records, requeue_queue, requeue_queues,
}
use chapterhouse_qe.Exchange.Pool.Calls.{Call, adds, gets, completes, step, start, next, Reach-safe}
use chapterhouse_qe.Exchange.Pool.Completion.{Answers}
use chapterhouse_qe.Exchange.Pool.Contents.{waiting_records}
use chapterhouse_qe.Exchange.Pool.Broadcast.{run, delivered, sent_all, delivered-new}
use chapterhouse_qe.Examples.Demo.{demo}

abbrev consumers : List Text
consumers = codes "b" ∷ codes "a" ∷ []

abbrev begun : RecordPool demo
begun = new consumers 30

abbrev calls : List (Call demo)
calls =
    adds 7 4 ((codes "t" ∷ []) ∷ [])
    ∷ adds 8 1 []
    ∷ gets (codes "a") 1 5
    ∷ completes (codes "a") 7
    ∷ gets (codes "a") 2 6
    ∷ gets (codes "b") 3 6
    ∷ []

delivered_a : delivered (codes "a") begun calls ≡ (7, 4, (codes "t" ∷ []) ∷ []) ∷ (8, 1, []) ∷ []
unfolding run delivered sent_all step add_record new reserve get_next_record add_operator
    mark_processed finish operator_completed_record_processing update_reserved_record_heartbeat
    maintain requeue_reserved_records_with_stale_heartbeat empty_queue push_back find_queue
    set_queue reserve_record drop_reservation heartbeat beat stale_ids requeue_record
    requeue_records requeue_queue requeue_queues Map.get Map.insert Map.remove text_eq sort
    insert_sorted text_le texts_eq
delivered_a = refl

waiting_b : waiting_records (codes "b") (run begun calls) ≡ (8, 1, []) ∷ []
unfolding run delivered sent_all step add_record new reserve get_next_record add_operator
    mark_processed finish operator_completed_record_processing update_reserved_record_heartbeat
    maintain requeue_reserved_records_with_stale_heartbeat empty_queue push_back find_queue
    set_queue reserve_record drop_reservation heartbeat beat stale_ids requeue_record
    requeue_records requeue_queue requeue_queues Map.get Map.insert Map.remove text_eq sort
    insert_sorted text_le texts_eq
waiting_b = refl

delivered-new_example :
    delivered (codes "b") begun calls ++ waiting_records (codes "b") (run begun calls)
    ≡ sent_all calls
unfolding step add_record new Map.get Map.insert text_eq
delivered-new_example =
    delivered-new (codes "b") consumers 30 calls (refl, (refl, tt)) refl
      (refl, refl, (refl, refl, (tt, refl, (tt, refl, (tt, refl, (tt, refl, tt))))))

Reach-safe_example :
    ((get_next_record
        (step (step begun (adds 7 4 ((codes "t" ∷ []) ∷ []))) (gets (codes "a") 1 5))
        (codes "a")
        1
        9).1
      ≢ panic)
    × Answers
        (codes "a")
        (operator_completed_record_processing
          (step (step begun (adds 7 4 ((codes "t" ∷ []) ∷ []))) (gets (codes "a") 1 5))
          (codes "a")
          7).1
    × ((maintain (step (step begun (adds 7 4 ((codes "t" ∷ []) ∷ []))) (gets (codes "a") 1 5)) 9).1
        ≡ ok tt)
unfolding step add_record new Map.get Map.insert text_eq
Reach-safe_example =
    Reach-safe consumers 30 (refl, (refl, tt)) (codes "a") 1 7 9
      (next (gets (codes "a") 1 5) (next (adds 7 4 ((codes "t" ∷ []) ∷ [])) start refl) tt)
