-- ===== src/Workers/Totals.antt =====
-- What a worker's running instances count for.
use chapterhouse_qe.Common.{
  ℕ, ◌+◌, ◌^◌, ◌<◌, ◌≡◌, refl, sym, ap, ◌∙◌, Bool, true, false, some, List, [], ◌∷◌, ◌==◌,
  if◌then◌else◌, any, find, find-any, ok, arith, Bool-cases, inl, inr,
}
use chapterhouse_qe.External.{External}
use chapterhouse_qe.Workers.Compute.{wrap, add_single_operator_compute}
use chapterhouse_qe.Workers.Instances.{
  OperatorInstance, OperatorHandlerState, is_running, count_instance, count_instances,
  total_operator_compute, set_first, set_status, operator_instance_complete, complete, running,
  Status,
}

wrapped : (n : ℕ) → wrap n < 2 ^ 64
wrapped n = ground arith

wrap_sum : (a b c : ℕ) → wrap (wrap (a + b) + c) ≡ wrap (a + (b + c))
wrap_sum a b c = ground arith

wrap_right : (a b : ℕ) → wrap (a + wrap b) ≡ wrap (a + b)
wrap_right a b = ground arith

nothing : (n : ℕ) → 0 + n ≡ n
nothing n = ground arith

always : (b : Bool) (n : ℕ) → (if b then n else n) ≡ n
always true n = refl
always false n = refl

module _ {X : External} where
  abbrev runs : OperatorInstance X → Bool
  runs op = is_running op.status

  abbrev cpu_of : OperatorInstance X → ℕ
  cpu_of op = op.config.operator.compute.cpu_in_thousandths

  -- The cpu of the running instances together.
  abbrev pub running_cpu : List (OperatorInstance X) → ℕ
  running_cpu [] = 0
  running_cpu (op ∷ ops) =
      if is_running op.status
      then op.config.operator.compute.cpu_in_thousandths + running_cpu ops
      else running_cpu ops

  -- The memory of the last running instance, or the given one.
  abbrev pub last_running_memory : ℕ → List (OperatorInstance X) → ℕ
  last_running_memory m [] = m
  last_running_memory m (op ∷ ops) =
      if is_running op.status
      then last_running_memory op.config.operator.compute.memory_in_mib ops
      else last_running_memory m ops

  count_lem :
      (ops : List (OperatorInstance X)) (i m c : ℕ)
      → c < 2 ^ 64
      → count_instances (record { instances = i; memory_in_mib = m; cpu_in_thousandths = c }) ops
        ≡ record {
          instances = if any (λ op. is_running op.status) ops then 1 else i;
          memory_in_mib = last_running_memory m ops;
          cpu_in_thousandths = wrap (c + running_cpu ops);
        }
  unfolding count_instances count_instance add_single_operator_compute
  count_lem [] i m c h = rw (cpu c h) refl
    where
      cpu : (c : ℕ) → c < 2 ^ 64 → wrap (c + 0) ≡ c
      cpu c h = ground (arith, h)
  count_lem (op ∷ ops) i m c h = elim (Bool-cases (is_running op.status)) [
    | inl e ↦
        rw (e, count_instance)
          (rw
            (
              count_lem ops 1 op.config.operator.compute.memory_in_mib (wrap (c + cpu_of op))
                  (wrapped (c + cpu_of op)),
              always (any (λ op. is_running op.status) ops) 1,
              wrap_sum c (cpu_of op) (running_cpu ops),
            )
            refl)
    | inr e ↦ rw (e, count_instance) (count_lem ops i m c h)
  ]

  -- What a worker counts as in use: a single instance if any is running, the memory of the last one
  -- that is, and the cpu of all that are, modulo the word size.
  pub total_operator_compute_lem :
      (s : OperatorHandlerState X)
      → total_operator_compute s ≡ record {
        instances = if any (λ op. is_running op.status) s.operator_instances then 1 else 0;
        memory_in_mib = last_running_memory 0 s.operator_instances;
        cpu_in_thousandths = wrap (running_cpu s.operator_instances);
      }
  unfolding total_operator_compute
  total_operator_compute_lem s =
      rw
        (
          count_lem s.operator_instances 0 0 0 (ground arith),
          nothing (running_cpu s.operator_instances),
        )
        refl

  set_first_cpu :
      (op_in_id : ℕ) (status : Status) (ops : List (OperatorInstance X)) (op : OperatorInstance X)
      → is_running status ≡ false
      → find (λ op. op.config.id == op_in_id) ops ≡ some op
      → is_running op.status ≡ true
      → running_cpu ops
        ≡ op.config.operator.compute.cpu_in_thousandths
          + running_cpu (set_first op_in_id status ops)
  unfolding set_first
  set_first_cpu op_in_id status [] op off f r = absurd (cc)
  set_first_cpu op_in_id status (x ∷ ops) op off f r = elim (Bool-cases (x.config.id == op_in_id)) [
    | inl e ↦
        let same : x ≡ op = ground (arith, e, f) in
        let on : is_running x.status ≡ true = ap (λ y. is_running y.status) same ∙ r in
        rw (e, set_first, off, on) (ground (arith, ap cpu_of same))
    | inr e ↦
        let rest = set_first_cpu op_in_id status ops op off (ground (arith, e, f)) r in
        rw (e, set_first) (ground (arith, rest))
  ]

  -- When an instance that is running is reported complete, the call succeeds and what the worker counts
  -- as cpu in use drops by the cpu of that instance, modulo the word size.
  pub operator_instance_complete-releases :
      (s : OperatorHandlerState X) (op_in_id : ℕ) (op : OperatorInstance X)
      → find (λ op. op.config.id == op_in_id) s.operator_instances ≡ some op
      → op.status ≡ running
      → (s' : OperatorHandlerState X) × (operator_instance_complete s op_in_id ≡ ok s')
        × ((total_operator_compute s).cpu_in_thousandths
            ≡ wrap (
                op.config.operator.compute.cpu_in_thousandths
                + (total_operator_compute s').cpu_in_thousandths))
  unfolding operator_instance_complete set_status
  operator_instance_complete-releases s op_in_id op f r =
      let s' = record s { operator_instances = set_first op_in_id complete s.operator_instances } in
      let found = find-any (λ op. op.config.id == op_in_id) s.operator_instances op f in
      (
        s',
        rw (found) refl,
        rw
            (
              total_operator_compute_lem s,
              total_operator_compute_lem s',
              set_first_cpu op_in_id complete s.operator_instances op refl f (ap is_running r),
            )
            (sym (wrap_right (cpu_of op) (running_cpu s'.operator_instances))),
      )
