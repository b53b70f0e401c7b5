-- ===== src/Tcp/Rtt.antt =====
-- The round trip times of modules/pico_tcp.c, and the time-out that is computed from them.
pub mod Estimate
pub mod Bounds
mod Tests
use picotcp.Base.{
  ℕ, ◌+◌, ◌-◌, ◌*◌, ◌/◌, Bool, List, [], ◌∷◌, if◌then◌else◌, ltb, leb, ◌==◌, u16, u32, sub32,
}

pub record Rtt : Type 0 where
  pub avg_rtt : ℕ
  pub rttvar : ℕ
  pub rto : ℕ

abbrev pub rto_min : ℕ
rto_min = 70

abbrev pub rto_max : ℕ
rto_max = 120000

abbrev pub rto_set : ℕ → Rtt → Rtt
rto_set n t =
    let n' = if ltb n rto_min then rto_min else n in
    record t { rto = if ltb rto_max n' then rto_max else n' }

abbrev pub time_diff : ℕ → ℕ → ℕ
time_diff a b = if leb b a then u16 (a - b) else u16 (b - a)

-- The absolute value of `(int32_t)a - (int32_t)b`, on 32 bits in two's complement.
abbrev pub distance : ℕ → ℕ → ℕ
distance a b = let var = sub32 a b in if leb 2147483648 var then sub32 0 var else var

-- The three assignments at the end of both branches of tcp_rtt.
abbrev pub assign : Rtt → ℕ → ℕ → ℕ → Rtt
assign t avg var n = rto_set n (record t { avg_rtt = avg; rttvar = var })

unfoldable pub tcp_rtt : Rtt → ℕ → Rtt
tcp_rtt t rtt =
    if t.avg_rtt == 0
    then assign t rtt (rtt / 2) (u32 (rtt + u32 (rtt / 2 * 4)))
    else (let var = u32 (sub32 (u32 (t.rttvar * 4)) t.rttvar + distance t.avg_rtt rtt) / 4 in
        let avg = u32 (sub32 (u32 (t.avg_rtt * 8)) t.avg_rtt + rtt) / 8 in
        assign t avg var (u32 (avg + u32 (var * 4))))

-- What tcp_ack knows of the time: the clock, the time stamp of the segment and that of the last
-- segment that is acknowledged, with 0 for none.
pub record Times : Type 0 where
  pub now : ℕ
  pub echoed : ℕ
  pub acked : ℕ

abbrev pub round_trip : Times → ℕ
round_trip m =
    if m.echoed == 0
    then if m.acked == 0 then 0 else time_diff m.now m.acked
    else time_diff m.now m.echoed

-- The part of tcp_ack that measures.
abbrev pub measure : Rtt → Times → Rtt
measure t m = if round_trip m == 0 then t else tcp_rtt t (round_trip m)

unfoldable pub measure_all : Rtt → List Times → Rtt
measure_all t [] = t
measure_all t (m ∷ ms) = measure_all (measure t m) ms
