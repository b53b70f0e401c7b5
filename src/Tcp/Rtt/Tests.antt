-- ===== src/Tcp/Rtt/Tests.antt =====
-- Runs of the measurement in modules/pico_tcp.c, and instances of the theorems.
use picotcp.Base.{ℕ, ◌≡◌, refl, [], ◌∷◌, List, arith}
use picotcp.Tcp.Rtt.{Rtt, Times, tcp_rtt, measure_all}
use picotcp.Tcp.Rtt.Bounds.{IsSettled, measured_bounds}

abbrev fresh : Rtt
fresh = record { avg_rtt = 0; rttvar = 0; rto = 70 }

abbrev times : ℕ → ℕ → Times
times now acked = record { now = now; echoed = 0; acked = acked }

abbrev three_times : List Times
three_times = times 1080 1000 ∷ times 2000 0 ∷ times 3160 3000 ∷ []

-- A round trip of 80 and one of 160 milliseconds.
three_measured : measure_all fresh three_times ≡ record { avg_rtt = 90; rttvar = 50; rto = 290 }
unfolding measure_all tcp_rtt
three_measured = refl

measured_bounds_example : IsSettled 80 160 (measure_all fresh three_times)
measured_bounds_example =
    measured_bounds 80 160 (omega arith) fresh (times 1080 1000)
      (times 2000 0 ∷ times 3160 3000 ∷ []) refl (λ e. omega (arith, e))
      (
        (λ n. (omega arith, omega arith)),
        ((λ n. absurd (n refl)), ((λ n. (omega arith, omega arith)), tt)),
      )
