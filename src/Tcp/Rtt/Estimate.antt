-- ===== src/Tcp/Rtt/Estimate.antt =====
-- The round trip times of modules/pico_tcp.c against the estimator of RFC 2988.
use picotcp.Base.{
  ℕ, ◌+◌, ◌-◌, ◌*◌, ◌/◌, ◌%◌, ◌<◌, ◌≤◌, ◌≡◌, refl, List, [], ◌∷◌, if◌then◌else◌, if_cases, leb,
  ◌==◌, ◌&&◌, arith, u32, sub32,
}
use picotcp.Tcp.Rtt.{Rtt, assign, distance, tcp_rtt, Times, round_trip}

abbrev pub absolute : ℕ → ℕ → ℕ
absolute a b = if leb b a then a - b else b - a

-- tcp_rtt in whole numbers without a bound.
abbrev pub estimate : Rtt → ℕ → Rtt
estimate t r =
    if t.avg_rtt == 0
    then assign t r (r / 2) (r + 4 * (r / 2))
    else (let v = (3 * t.rttvar + absolute t.avg_rtt r) / 4 in
        let a = (7 * t.avg_rtt + r) / 8 in assign t a v (a + 4 * v))

pub record IsSmall (t : Rtt) : Type 0 where
  pub avg : t.avg_rtt < 65536
  pub var : t.rttvar < 65536

pub round_trip-small : (m : Times) → round_trip m < 65536
round_trip-small m = ground arith

distance-absolute : (a b : ℕ) → a < 65536 → b < 65536 → distance a b ≡ absolute a b
distance-absolute a b l m = ground (arith, l, m)

absolute-small : (a b : ℕ) → a < 65536 → b < 65536 → absolute a b < 65536
absolute-small a b l m = ground (arith, l, m)

var_step : (v d : ℕ) → v < 65536 → d < 65536 → u32 (sub32 (u32 (v * 4)) v + d) / 4 ≡ (3 * v + d) / 4
var_step v d l m = omega (arith, l, m)

avg_step : (a r : ℕ) → a < 65536 → r < 65536 → u32 (sub32 (u32 (a * 8)) a + r) / 8 ≡ (7 * a + r) / 8
avg_step a r l m = omega (arith, l, m)

time_out : (a v : ℕ) → a < 65536 → v < 65536 → u32 (a + u32 (v * 4)) ≡ a + 4 * v
time_out a v l m = omega (arith, l, m)

pub tcp_rtt-estimate : (t : Rtt) (r : ℕ) → IsSmall t → r < 65536 → tcp_rtt t r ≡ estimate t r
unfolding tcp_rtt
tcp_rtt-estimate t r s l =
    let d = absolute t.avg_rtt r in
    let m = absolute-small t.avg_rtt r s.avg l in
    let v = (3 * t.rttvar + d) / 4 in
    let a = (7 * t.avg_rtt + r) / 8 in
    if_cases (λ (x : Rtt). x ≡ estimate t r) (t.avg_rtt == 0) _ _
      (λ e. rw (e, time_out r (r / 2) l (omega (arith, l))) refl)
      (λ e.
        rw
          (
            e,
            distance-absolute t.avg_rtt r s.avg l,
            var_step t.rttvar d s.var m,
            avg_step t.avg_rtt r s.avg l,
            time_out a v (omega (arith, s.avg, l)) (omega (arith, s.var, m)),
          )
          refl)

-- The estimator of RFC 2988, 2.2 and 2.3, for a clock of granularity `g`, with its time-out kept between
-- 70 and 120000 milliseconds.
abbrev pub larger : ℕ → ℕ → ℕ
larger a b = if leb a b then b else a

abbrev pub limited : ℕ → ℕ
limited n = if leb n 70 then 70 else if leb 120000 n then 120000 else n

abbrev pub rfc_2988 : ℕ → Rtt → ℕ → Rtt
rfc_2988 g t r =
    let v = if t.avg_rtt == 0 then r / 2 else (3 * t.rttvar + absolute t.avg_rtt r) / 4 in
    let a = if t.avg_rtt == 0 then r else (7 * t.avg_rtt + r) / 8 in
    record { avg_rtt = a; rttvar = v; rto = limited (a + larger g (4 * v)) }

-- The round trip of a segment, which is 0 for none: from its time stamp on, or from the time when the
-- last segment that it acknowledges was sent.
abbrev pub elapsed : ℕ → ℕ → ℕ
elapsed now sent = absolute now sent % 65536

abbrev pub trip : Times → ℕ
trip m =
    if m.echoed == 0 && m.acked == 0
    then 0
    else elapsed m.now (if m.echoed == 0 then m.acked else m.echoed)

abbrev pub rfc_step : ℕ → Rtt → Times → Rtt
rfc_step g t m = if trip m == 0 then t else rfc_2988 g t (trip m)

unfoldable pub estimate_all : ℕ → Rtt → List Times → Rtt
estimate_all g t [] = t
estimate_all g t (m ∷ ms) = estimate_all g (rfc_step g t m) ms

-- Four times the variation is never less than the granularity.
abbrev pub AllCoarse : ℕ → Rtt → List Times → Type 0
AllCoarse g t [] = Unit {0}
AllCoarse g t (m ∷ ms) = (g ≤ 4 * (rfc_step g t m).rttvar) × AllCoarse g (rfc_step g t m) ms
