-- ===== src/Tcp/Dispatch/Dropped.antt =====
-- Segments that pico_tcp_input of modules/pico_tcp.c neither hands to a handler nor answers.
use picotcp.Base.{
  if_cases, ℕ, ◌≡◌, ◌≢◌, ◌⊎◌, inl, inr, refl, sym, ap, ◌∙◌, subst, Bool, true, false, not, ◌||◌,
  none, some, arith, if◌then◌else◌, ◌==◌, bit_and, ltb,
}
use picotcp.Tcp.Dispatch.{
  TcpState, undef, closed, listen, syn_sent, syn_recv, established, close_wait, last_ack, fin_wait1,
  fin_wait2, closing, time_wait, Arrived, Socket, tcp_fsm, invalid_flags, payload_len, call_if,
  is_ack, is_finack, tcp_send_rst, takes_data, after_data, data_and_after, action_by_flags,
  reply_rst, dispatch, wakeup_pending, woken, tcp_input,
}

-- Resets with the flag ACK in every state but SYN_SENT and ESTABLISHED, and in TIME_WAIT all
-- segments with valid flags but without data and PSH, a repeated FIN among them.
abbrev pub Dropped : TcpState → Arrived → Type 0
Dropped st f =
    ((f.flags ≡ 20) × (st ≢ syn_sent) × (st ≢ established))
    ⊎ ((st ≡ time_wait)
        × (invalid_flags st f.flags ≡ false)
        × (payload_len f ≡ 0)
        × (bit_and f.flags 8 ≡ 0))

reset_invalid : (st : TcpState) → st ≢ syn_sent → st ≢ established → invalid_flags st 20 ≡ true
unfolding invalid_flags
reset_invalid undef n m = refl
reset_invalid closed n m = refl
reset_invalid listen n m = refl
reset_invalid syn_sent n m = absurd (n refl)
reset_invalid syn_recv n m = refl
reset_invalid established n m = absurd (m refl)
reset_invalid close_wait n m = refl
reset_invalid last_ack n m = refl
reset_invalid fin_wait1 n m = refl
reset_invalid fin_wait2 n m = refl
reset_invalid closing n m = refl
reset_invalid time_wait n m = refl

module _ {ℓ} {S : Type ℓ} (sock : Socket S) (f : Arrived) where
  reply_rst-reset : (s : S) → f.flags ≡ 20 → reply_rst sock f s ≡ s
  reply_rst-reset s e =
      if_cases (λ z. z ≡ s) (bit_and f.flags 4 == 0) _ _ (λ b. ground (arith, e, b)) (λ b. refl)

  call_if-none : (b : Bool) (s : S) → call_if sock f b none s ≡ s
  call_if-none true s = refl
  call_if-none false s = refl

  after_time_wait : (s : S) → after_data sock f (tcp_fsm time_wait) s ≡ s
  after_time_wait s =
      call_if-none (not (bit_and f.flags 4 == 0)) _
      ∙ (call_if-none (is_finack f.flags) _ ∙ call_if-none (f.flags == 1) s)

  no_data : (s : S) → payload_len f ≡ 0 → bit_and f.flags 8 ≡ 0 → takes_data sock f s ≡ false
  no_data s p b =
      if_cases (λ y. y ≡ false) (ltb 0 (payload_len f) || not (bit_and f.flags 8 == 0)) _ _
        (λ w. ground (arith, p, b, w)) (λ w. refl)

  quiet_data :
      (s : S) → takes_data sock f s ≡ false → data_and_after sock f (tcp_fsm time_wait) s ≡ (s, 0)
  quiet_data s t =
      subst
        (λ b.
          ◌≡◌ {A = S × ℕ}
            (
              after_data sock f (tcp_fsm time_wait) (call_if sock f b (some tcp_send_rst) s),
              if b then payload_len f else 0,
            )
            (s, 0))
        (sym t) (ap (λ z. (z, 0)) (after_time_wait s))

  time_wait_quiet :
      (s : S) → takes_data sock f s ≡ false → action_by_flags sock f (tcp_fsm time_wait) s ≡ (s, 0)
  unfolding action_by_flags
  time_wait_quiet s t =
      subst (λ y. data_and_after sock f (tcp_fsm time_wait) y ≡ (s, 0))
        (sym (call_if-none (is_ack f.flags) s)) (quiet_data s t)

  reset-dispatch :
      (s : S)
      → f.flags ≡ 20
      → invalid_flags (sock.tcp_state s) f.flags ≡ true
      → dispatch sock f (tcp_fsm (sock.tcp_state s)) s ≡ (s, 0)
  reset-dispatch s e v =
      if_cases (λ y. y ≡ (s, 0)) (invalid_flags (sock.tcp_state s) f.flags) _ _
        (λ w. ap (λ z. (z, 0)) (reply_rst-reset s e)) (λ w. ground (arith, v, w))

  time_wait-dispatch :
      (s : S)
      → invalid_flags (sock.tcp_state s) f.flags ≡ false
      → takes_data sock f s ≡ false
      → dispatch sock f (tcp_fsm time_wait) s ≡ (s, 0)
  time_wait-dispatch s v t =
      if_cases (λ y. y ≡ (s, 0)) (invalid_flags (sock.tcp_state s) f.flags) _ _
        (λ w. ground (arith, v, w))
        (λ w.
          if_cases (λ y. y ≡ (s, 0)) (f.flags == 2) _ _ (λ n. refl)
            (λ n.
              if_cases (λ y. y ≡ (s, 0)) (f.flags == 18) _ _ (λ m. refl)
                (λ m. time_wait_quiet s t)))

-- Resets with the flag ACK are dropped in every state but SYN_SENT and ESTABLISHED, and in
-- TIME_WAIT all segments with valid flags but without data and PSH, a repeated FIN among them: no
-- handler runs and nothing is answered; the timestamp is set, and events that are pending are
-- reported.
pub Dropped-tcp_input {ℓ} :
    {S : Type ℓ} (sock : Socket S) (f : Arrived) (s : S)
    → Dropped (sock.tcp_state (sock.stamp s)) f
    → tcp_input sock f s ≡ (wakeup_pending sock f (sock.stamp s), 0)
unfolding tcp_input
Dropped-tcp_input sock f s (inl (e, n, m)) = ap (woken sock f) (
    reset-dispatch sock f (sock.stamp s) e (
      subst (λ x. invalid_flags (sock.tcp_state (sock.stamp s)) x ≡ true) (sym e)
        (reset_invalid (sock.tcp_state (sock.stamp s)) n m)))
Dropped-tcp_input sock f s (inr (w, v, p, b)) = ap (woken sock f) (
    subst (λ st. dispatch sock f (tcp_fsm st) (sock.stamp s) ≡ (sock.stamp s, 0)) (sym w)
      (time_wait-dispatch sock f (sock.stamp s) v (no_data sock f (sock.stamp s) p b)))
