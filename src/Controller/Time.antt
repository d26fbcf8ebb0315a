-- ===== src/Controller/Time.antt =====
-- controller/src/controller.c: the arithmetic of the schedule.
use segling.Prelude.{ℕ, ◌+◌, ◌*◌, ◌<◌, ◌≡◌, inl, inr, Bool-cases, leb→le, if◌then◌else◌, arith}
use segling.Prelude.Int.{
  ℤ, pos, negsuc, pos_part, neg_part, ◌+ℤ◌, ◌-ℤ◌, ◌*ℤ◌, ◌≤ℤ◌, ◌<ℤ◌, ltb_ℤ, leb_ℤ, InI64, quot,
  int_laws, *ℤ_parts, eq_of_parts,
}
use segling.Controller.{Timespec, diff_us, abs_time_diff_us, next_start}

-- A time in nanoseconds.
unfoldable pub total_ns : Timespec → ℤ
total_ns t = t.tv_sec *ℤ pos 1000000000 +ℤ t.tv_nsec

-- The nanoseconds of a time that the kernel accepts.
abbrev pub IsNormal : Timespec → Type 0
IsNormal t = (pos 0 ≤ℤ t.tv_nsec) × (t.tv_nsec <ℤ pos 1000000000)

-- The multiplication by a number, on the parts of an integer.
times-parts :
    (z : ℤ) (k : ℕ)
    → pos_part (z *ℤ pos k) + neg_part z * k ≡ neg_part (z *ℤ pos k) + pos_part z * k
times-parts z k = omega (arith, *ℤ_parts z (pos k))

-- The next slot starts 15 ms later, and its time is normal again.
pub next_start_lem :
    (t : Timespec)
    → IsNormal t
    → IsNormal (next_start t) × (total_ns (next_start t) ≡ total_ns t +ℤ pos 15000000)
unfolding next_start total_ns
next_start_lem t h =
    let nsec = t.tv_nsec +ℤ pos 15000000 in
    let old = times-parts t.tv_sec 1000000000 in
    let new = times-parts (t.tv_sec +ℤ pos 1) 1000000000 in
    elim (Bool-cases (leb_ℤ (pos 1000000000) nsec)) [
      | inl carry ↦
          let over : pos 1000000000 ≤ℤ nsec = leb→le _ _ carry in
          rw carry ((omega int_laws, omega int_laws), eq_of_parts _ _ (omega int_laws))
      | inr fits ↦
          let under : nsec <ℤ pos 1000000000 = ground arith in
          rw fits ((omega int_laws, omega int_laws), eq_of_parts _ _ (omega int_laws))
    ]

-- The quotient by 1000 is off by less than one.
quot_error :
    (z : ℤ)
    → (1000 * pos_part (quot z (pos 1000)) + neg_part z
        < pos_part z + 1000 * neg_part (quot z (pos 1000)) + 1000)
      × (pos_part z + 1000 * neg_part (quot z (pos 1000))
          < 1000 * pos_part (quot z (pos 1000)) + neg_part z + 1000)
unfolding quot
quot_error (pos a) = ground arith
quot_error (negsuc a) = ground arith

-- The difference in microseconds is the one in nanoseconds, rounded by less than a microsecond.
pub diff_us_lem :
    (now due : Timespec)
    → (pos 1000 *ℤ diff_us now due <ℤ total_ns now -ℤ total_ns due +ℤ pos 1000)
      × (total_ns now -ℤ total_ns due <ℤ pos 1000 *ℤ diff_us now due +ℤ pos 1000)
unfolding diff_us total_ns
diff_us_lem now due = omega (
  int_laws,
  *ℤ_parts (pos 1000) (diff_us now due),
  times-parts (now.tv_sec -ℤ due.tv_sec) 1000000,
  times-parts now.tv_sec 1000000000,
  times-parts due.tv_sec 1000000000,
  quot_error (now.tv_nsec -ℤ due.tv_nsec),
)

abs_parts : (z : ℤ) → pos_part (if ltb_ℤ z (pos 0) then pos 0 -ℤ z else z) ≡ pos_part z + neg_part z
unfolding ◌-ℤ◌
abs_parts z = ground arith

-- Where the clock and the schedule are less than 2^63 microseconds apart, the jitter that is
-- compared with the limit is the distance of the two, in either direction, rounded by less than a
-- microsecond: 1000 times it differs from the nanoseconds between them by less than 1000.
pub abs_time_diff_us_lem :
    (now due : Timespec)
    → InI64 (diff_us now due)
    → let jitter = abs_time_diff_us now due in
      let apart = total_ns now -ℤ total_ns due in
      (1000 * jitter < pos_part apart + neg_part apart + 1000)
      × (pos_part apart + neg_part apart < 1000 * jitter + 1000)
unfolding abs_time_diff_us
abs_time_diff_us_lem now due fits =
    rw (abs_parts (diff_us now due))
      (omega (int_laws, diff_us_lem now due, *ℤ_parts (pos 1000) (diff_us now due)))
