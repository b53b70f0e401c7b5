-- ===== src/Tcp/Rtt/Bounds.antt =====
-- The bounds of the average round trip time and of the time-out in modules/pico_tcp.c.
use picotcp.Base.{
  ℕ, ◌+◌, ◌*◌, ◌/◌, ◌<◌, ◌≤◌, ◌≡◌, ◌≢◌, sym, subst, List, [], ◌∷◌, if_cases, ◌==◌, arith, u32,
}
use picotcp.Tcp.Rtt.{Rtt, assign, tcp_rtt, Times, round_trip, measure, measure_all}
use picotcp.Tcp.Rtt.Estimate.{absolute, estimate, IsSmall, tcp_rtt-estimate}

-- The average lies between the bounds, the variation is not over the upper one, and the time-out is
-- from 70 to 120000 milliseconds.
pub record IsSettled (lo hi : ℕ) (t : Rtt) : Type 0 where
  pub avg_low : lo ≤ t.avg_rtt
  pub avg_high : t.avg_rtt ≤ hi
  pub var_high : t.rttvar ≤ hi
  pub rto_low : 70 ≤ t.rto
  pub rto_high : t.rto ≤ 120000

abbrev pub IsWithin : ℕ → ℕ → Times → Type 0
IsWithin lo hi m = round_trip m ≢ 0 → (lo ≤ round_trip m) × (round_trip m ≤ hi)

abbrev pub AllWithin : ℕ → ℕ → List Times → Type 0
AllWithin lo hi [] = Unit {0}
AllWithin lo hi (m ∷ ms) = IsWithin lo hi m × AllWithin lo hi ms

module _ (lo hi : ℕ) where
  assign-IsSettled :
      (t : Rtt) (a v n : ℕ) → lo ≤ a → a ≤ hi → v ≤ hi → IsSettled lo hi (assign t a v n)
  assign-IsSettled t a v n p q r = record {
    avg_low = p;
    avg_high = q;
    var_high = r;
    rto_low = ground arith;
    rto_high = ground arith;
  }

  absolute_high : (a b : ℕ) → a ≤ hi → b ≤ hi → absolute a b ≤ hi
  absolute_high a b l m = ground (arith, l, m)

  estimate-IsSettled :
      (t : Rtt) (r : ℕ) → IsSettled lo hi t → lo ≤ r → r ≤ hi → IsSettled lo hi (estimate t r)
  estimate-IsSettled t r s l m =
      let d = absolute_high t.avg_rtt r s.avg_high m in
      if_cases (IsSettled lo hi) (t.avg_rtt == 0) _ _
        (λ e. assign-IsSettled t r (r / 2) (r + 4 * (r / 2)) l m (omega (arith, m)))
        (λ e.
          assign-IsSettled t ((7 * t.avg_rtt + r) / 8) ((3 * t.rttvar + absolute t.avg_rtt r) / 4)
            ((7 * t.avg_rtt + r) / 8 + 4 * ((3 * t.rttvar + absolute t.avg_rtt r) / 4))
            (omega (arith, s.avg_low, l)) (omega (arith, s.avg_high, m))
            (omega (arith, s.var_high, d)))

  module _ (h : hi < 65536) where
    measure-IsSettled :
        (t : Rtt) (m : Times) → IsWithin lo hi m → IsSettled lo hi t → IsSettled lo hi (measure t m)
    measure-IsSettled t m w s =
        if_cases (IsSettled lo hi) (round_trip m == 0) _ _ (λ e. s)
          (λ e.
            let n : round_trip m ≢ 0 = λ z. ground (arith, e, z) in
            let small : IsSmall t = record {
              avg = omega (arith, s.avg_high, h);
              var = omega (arith, s.var_high, h);
            } in
            subst (IsSettled lo hi)
              (sym (tcp_rtt-estimate t (round_trip m) small (omega (arith, (w n).1, h))))
              (estimate-IsSettled t (round_trip m) s (w n).0 (w n).1))

    measure_all-IsSettled :
        (ms : List Times) (t : Rtt)
        → AllWithin lo hi ms
        → IsSettled lo hi t
        → IsSettled lo hi (measure_all t ms)
    unfolding measure_all
    measure_all-IsSettled [] t w s = s
    measure_all-IsSettled (m ∷ ms) t (w, ws) s =
        measure_all-IsSettled ms (measure t m) ws (measure-IsSettled t m w s)

    first-IsSettled :
        (t : Rtt) (m : Times)
        → t.avg_rtt ≡ 0
        → round_trip m ≢ 0
        → IsWithin lo hi m
        → IsSettled lo hi (measure t m)
    unfolding tcp_rtt
    first-IsSettled t m z n w =
        if_cases (IsSettled lo hi) (round_trip m == 0) _ _ (λ e. absurd (n (ground (arith, e))))
          (λ e.
            if_cases (IsSettled lo hi) (t.avg_rtt == 0) _ _
              (λ f.
                assign-IsSettled t (round_trip m) (round_trip m / 2)
                  (u32 (round_trip m + u32 (round_trip m / 2 * 4))) (w n).0 (w n).1
                  (omega (arith, (w n).1)))
              (λ f. absurd (ground (arith, z, f))))

-- From the first measurement of a new socket on, when all that are measured lie between two bounds
-- below 65536, the average does too, the variation is not over the upper bound, and the time-out is
-- from 70 to 120000 milliseconds.
pub measured_bounds :
    (lo hi : ℕ)
    → hi < 65536
    → (t : Rtt) (m : Times) (ms : List Times) → t.avg_rtt ≡ 0
    → round_trip m ≢ 0
    → AllWithin lo hi (m ∷ ms)
    → IsSettled lo hi (measure_all t (m ∷ ms))
unfolding measure_all
measured_bounds lo hi h t m ms z n (w, ws) =
    measure_all-IsSettled lo hi h ms (measure t m) ws (first-IsSettled lo hi h t m z n w)
