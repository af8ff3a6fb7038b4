-- ===== src/Workers/Compute.antt =====
-- src/handlers/operator_handler/operator_handler_state.rs, `TotalOperatorCompute`. The fields are
-- `usize` of 64 bits: `+=` wraps around.
use chapterhouse_qe.Common.{
  ℕ, ◌+◌, ◌-◌, ◌%◌, ◌^◌, ◌≤◌, ◌<◌, ◌≡◌, refl, Bool, true, false, ◌||◌, not, ltb, leb, ◌==◌,
  if◌then◌else◌, arith,
}
use chapterhouse_qe.Planner.Physical.Operators.{OperatorCompute}

pub record TotalOperatorCompute : Type 0 where
  pub instances : ℕ
  pub memory_in_mib : ℕ
  pub cpu_in_thousandths : ℕ

abbrev pub wrap : ℕ → ℕ
wrap n = n % 2 ^ 64

unfoldable pub any_greater_than : TotalOperatorCompute → TotalOperatorCompute → Bool
any_greater_than a c =
    if ltb c.instances a.instances
    then true
    else if ltb c.memory_in_mib a.memory_in_mib
    then true
    else if ltb c.cpu_in_thousandths a.cpu_in_thousandths
    then true
    else false

unfoldable pub add : TotalOperatorCompute → TotalOperatorCompute → TotalOperatorCompute
add a c = record {
  instances = wrap (a.instances + c.instances);
  memory_in_mib = wrap (a.memory_in_mib + c.memory_in_mib);
  cpu_in_thousandths = wrap (a.cpu_in_thousandths + c.cpu_in_thousandths);
}

-- `if a > b { a - b } else { 0 }`.
abbrev pub less : ℕ → ℕ → ℕ
less a b = if ltb b a then a - b else 0

unfoldable pub subtract : TotalOperatorCompute → TotalOperatorCompute → TotalOperatorCompute
subtract a c = record {
  instances = less a.instances c.instances;
  memory_in_mib = less a.memory_in_mib c.memory_in_mib;
  cpu_in_thousandths = less a.cpu_in_thousandths c.cpu_in_thousandths;
}

unfoldable pub subtract_single_operator_compute :
    TotalOperatorCompute → OperatorCompute → TotalOperatorCompute
subtract_single_operator_compute a c = record {
  instances = if not (a.instances == 0) then a.instances - 1 else 0;
  memory_in_mib = less a.memory_in_mib c.memory_in_mib;
  cpu_in_thousandths = less a.cpu_in_thousandths c.cpu_in_thousandths;
}

-- Two of the three fields are overwritten.
unfoldable pub add_single_operator_compute :
    TotalOperatorCompute → OperatorCompute → TotalOperatorCompute
add_single_operator_compute a c = record {
  instances = c.instances;
  memory_in_mib = c.memory_in_mib;
  cpu_in_thousandths = wrap (a.cpu_in_thousandths + c.cpu_in_thousandths);
}

unfoldable pub any_depleated : TotalOperatorCompute → Bool
any_depleated a = leb a.instances 0 || leb a.memory_in_mib 0 || leb a.cpu_in_thousandths 0

-- One compute is within another in all three fields.
abbrev pub IsWithin : TotalOperatorCompute → TotalOperatorCompute → Type 0
IsWithin a c =
    (a.instances ≤ c.instances)
    × (a.memory_in_mib ≤ c.memory_in_mib)
    × (a.cpu_in_thousandths ≤ c.cpu_in_thousandths)

pub any_greater_than-IsWithin :
    (a c : TotalOperatorCompute) → any_greater_than a c ≡ false → IsWithin a c
unfolding any_greater_than
any_greater_than-IsWithin a c h = (ground (arith, h), ground (arith, h), ground (arith, h))

back : (a c : ℕ) → c ≤ a → a < 2 ^ 64 → wrap (less a c + c) ≡ a
back a c h k = ground (arith, h, k)

-- A compute that fits into another one, subtracted from it and added back, gives the other one again,
-- if the fields of the other one are 64 bit numbers.
pub add-subtract :
    (a c : TotalOperatorCompute)
    → any_greater_than c a ≡ false
    → a.instances < 2 ^ 64
    → a.memory_in_mib < 2 ^ 64
    → a.cpu_in_thousandths < 2 ^ 64
    → add (subtract a c) c ≡ a
unfolding add subtract
add-subtract a c h wi wm wp =
    let fits = any_greater_than-IsWithin c a h in
    rw
      (
        back a.instances c.instances (fits.0) wi,
        back a.memory_in_mib c.memory_in_mib (fits.1) wm,
        back a.cpu_in_thousandths c.cpu_in_thousandths (fits.2) wp,
      )
      refl
