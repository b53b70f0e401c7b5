-- ===== src/Tcp/Dispatch/Handled.antt =====
-- Which segments pico_tcp_input of modules/pico_tcp.c hands to a handler, and which it drops.
use picotcp.Base.{
  if_cases, ℕ, ◌≡◌, ◌≢◌, ◌⊎◌, inl, inr, refl, sym, subst, Bool, true, false, not, ◌||◌, ◌&&◌,
  Option, none, some, List, [], ◌∷◌, arith, if◌then◌else◌, ◌==◌, bit_and, Bool-cases, ==_iff,
}
use picotcp.Tcp.Dispatch.{
  TcpState, undef, closed, listen, syn_sent, syn_recv, established, close_wait, last_ack, fin_wait1,
  fin_wait2, closing, time_wait, Handler, Arrived, Socket, Actions, tcp_fsm, valid_flags, is_listed,
  invalid_flags, is_listen, is_ack, is_finack, call_if, takes_data, after_data, data_and_after,
  action_by_flags, dispatch, wakeup_pending, tcp_input,
}

-- The socket with a record of the handlers that have run, the last one first.
abbrev pub traced {ℓ} : {S : Type ℓ} → Socket S → Socket (S × List Handler)
traced sock = record {
  tcp_state = λ x. sock.tcp_state x.0;
  is_closed = λ x. sock.is_closed x.0;
  ev_pending = λ x. sock.ev_pending x.0;
  run = λ h f x. (sock.run h f x.0, h ∷ x.1);
  stamp = λ x. (sock.stamp x.0, x.1);
  answer_rst = λ f x. (sock.answer_rst f x.0, x.1);
  wakeup = λ e x. (sock.wakeup e x.0, x.1);
}

abbrev is_set : Option Handler → Bool
is_set none = false
is_set (some h) = true

-- A row of the table has a handler for the flags.
abbrev has_handler : TcpState → ℕ → Bool
has_handler st flags =
    let a = tcp_fsm st in
    if flags == 2
    then is_set a.syn
    else if flags == 18
    then is_set a.synack
    else (is_ack flags && is_set a.ack)
      || ((not (is_listen st) && (not (bit_and flags 8 == 0) && is_set a.payload))
          || ((flags == 1 && is_set a.fin)
              || ((is_finack flags && is_set a.finack)
                  || (not (bit_and flags 4 == 0) && is_set a.rst))))

abbrev all_handled : TcpState → List ℕ → Bool
all_handled st [] = true
all_handled st (x ∷ xs) = has_handler st x && all_handled st xs

both-true : (a b : Bool) → a && b ≡ true → (a ≡ true) × (b ≡ true)
both-true true b e = (refl, e)
both-true false b e = ground (arith, e)

either-true : (a b : Bool) → a || b ≡ true → (a ≡ true) ⊎ (b ≡ true)
either-true true b e = inl refl
either-true false b e = inr e

all_handled-has_handler :
    (st : TcpState) (xs : List ℕ) (x : ℕ)
    → all_handled st xs ≡ true
    → is_listed x xs ≡ true
    → has_handler st x ≡ true
all_handled-has_handler st [] x h i = ground (arith, i)
all_handled-has_handler st (y ∷ ys) x h i =
    let (a, b) = both-true (has_handler st y) (all_handled st ys) h in
    elim (Bool-cases (y == x)) [
      | inl e ↦ subst (λ z. has_handler st z ≡ true) ((==_iff y x).0 e) a
      | inr e ↦ all_handled-has_handler st ys x b (ground (arith, i, e))
    ]

states_handled : (st : TcpState) → st ≢ time_wait → all_handled st (valid_flags st) ≡ true
states_handled undef n = refl
states_handled closed n = refl
states_handled listen n = refl
states_handled syn_sent n = refl
states_handled syn_recv n = refl
states_handled established n = refl
states_handled close_wait n = refl
states_handled last_ack n = refl
states_handled fin_wait1 n = refl
states_handled fin_wait2 n = refl
states_handled closing n = refl
states_handled time_wait n = absurd (n refl)

valid-has_handler :
    (st : TcpState) (flags : ℕ)
    → invalid_flags st flags ≡ false
    → st ≢ time_wait
    → has_handler st flags ≡ true
unfolding invalid_flags
valid-has_handler st flags e n =
    all_handled-has_handler st (valid_flags st) flags (states_handled st n) (ground (arith, e))

both_true : (a b : Bool) → a ≡ true → b ≡ true → a && b ≡ true
both_true true b p q = q
both_true false b p q = p

or-rest : (a b : Bool) → a || b ≡ true → a ≡ false → b ≡ true
or-rest true b e n = ground (arith, n)
or-rest false b e n = e

else_true :
    (p q a b r : Bool)
    → (if p then a else if q then b else r) ≡ true
    → p ≡ false
    → q ≡ false
    → r ≡ true
else_true p q a b r e n m = ground (arith, e, n, m)

then_true : (p a r : Bool) → (if p then a else r) ≡ true → p ≡ true → a ≡ true
then_true true a r e n = e
then_true false a r e n = ground (arith, n)

syn_set :
    (st : TcpState) (x : ℕ)
    → x == 2 ≡ true
    → has_handler st x ≡ true
    → is_set (tcp_fsm st).syn ≡ true
syn_set st x n h = then_true (x == 2) _ _ h n

synack_set :
    (st : TcpState) (x : ℕ)
    → x == 2 ≡ false
    → x == 18 ≡ true
    → has_handler st x ≡ true
    → is_set (tcp_fsm st).synack ≡ true
synack_set st x n m h = then_true (x == 18) _ _ (else_true (x == 2) false _ false _ h n refl) m

module _ {ℓ} {S : Type ℓ} (sock : Socket S) (f : Arrived) where
  abbrev HasRun : S × List Handler → Type 0
  HasRun x = x.1 ≢ []

  call_keeps :
      (b : Bool) (h : Option Handler) (x : S × List Handler)
      → HasRun x
      → HasRun (call_if (traced sock) f b h x)
  call_keeps true none x r = r
  call_keeps true (some h) x r = λ e. cc
  call_keeps false h x r = r

  call_runs :
      (b : Bool) (h : Option Handler) (x : S × List Handler)
      → b && is_set h ≡ true
      → HasRun (call_if (traced sock) f b h x)
  call_runs true none x e = ground (arith, e)
  call_runs true (some h) x e = λ e. cc
  call_runs false h x e = ground (arith, e)

  call_if-unset :
      (b : Bool) (h : Option Handler) (x : S × List Handler)
      → b && is_set h ≡ false
      → call_if (traced sock) f b h x ≡ x
  call_if-unset true none x e = refl
  call_if-unset true (some h) x e = ground (arith, e)
  call_if-unset false h x e = refl

  after_keeps :
      (a : Actions) (x : S × List Handler) → HasRun x → HasRun (after_data (traced sock) f a x)
  after_keeps a x r = call_keeps _ a.rst _ (call_keeps _ a.finack _ (call_keeps _ a.fin x r))

  after_runs :
      (a : Actions) (x : S × List Handler)
      → (f.flags == 1 && is_set a.fin)
          || ((is_finack f.flags && is_set a.finack)
              || (not (bit_and f.flags 4 == 0) && is_set a.rst))
        ≡ true
      → HasRun (after_data (traced sock) f a x)
  after_runs a x e =
      let fa = is_finack f.flags && is_set a.finack in
      let rs = not (bit_and f.flags 4 == 0) && is_set a.rst in
      elim (either-true (f.flags == 1 && is_set a.fin) (fa || rs) e) [
        | inl c ↦
            call_keeps (not (bit_and f.flags 4 == 0)) a.rst _
              (call_keeps (is_finack f.flags) a.finack _ (call_runs (f.flags == 1) a.fin x c))
        | inr d ↦ elim (either-true fa rs d) [
          | inl c ↦
              call_keeps (not (bit_and f.flags 4 == 0)) a.rst _
                (call_runs (is_finack f.flags) a.finack _ c)
          | inr c ↦ call_runs (not (bit_and f.flags 4 == 0)) a.rst _ c
        ]
      ]

  takes_data-push :
      (s : S)
      → bit_and f.flags 8 == 0 ≡ false
      → is_listen (sock.tcp_state s) ≡ false
      → sock.is_closed s ≡ false
      → takes_data sock f s ≡ true
  takes_data-push s b l c = ground (arith, b, l, c)

  data_runs :
      (a : Actions) (x : S × List Handler)
      → takes_data sock f x.0 && is_set a.payload ≡ true
      → HasRun (data_and_after (traced sock) f a x).0
  data_runs a x e = after_keeps a _ (call_runs _ a.payload x e)

  unacked-HasRun :
      (st : TcpState) (x : S × List Handler)
      → st ≡ sock.tcp_state x.0
      → sock.is_closed x.0 ≡ false
      → (not (is_listen st) && (not (bit_and f.flags 8 == 0) && is_set (tcp_fsm st).payload))
          || ((f.flags == 1 && is_set (tcp_fsm st).fin)
              || ((is_finack f.flags && is_set (tcp_fsm st).finack)
                  || (not (bit_and f.flags 4 == 0) && is_set (tcp_fsm st).rst)))
        ≡ true
      → HasRun (data_and_after (traced sock) f (tcp_fsm st) x).0
  unacked-HasRun st x e c h = elim (either-true _ _ h) [
    | inl q ↦
        let (l, r) = both-true (not (is_listen st)) _ q in
        let (b, i) = both-true (not (bit_and f.flags 8 == 0)) _ r in
        data_runs (tcp_fsm st) x (
          both_true (takes_data sock f x.0) _
            (takes_data-push x.0 (ground (arith, b)) (ground (arith, e, l)) c) i)
    | inr r ↦ after_runs (tcp_fsm st) _ r
  ]

  action_by_flags-HasRun :
      (st : TcpState) (x : S × List Handler)
      → st ≡ sock.tcp_state x.0
      → sock.is_closed x.0 ≡ false
      → f.flags == 2 ≡ false
      → f.flags == 18 ≡ false
      → has_handler st f.flags ≡ true
      → HasRun (action_by_flags (traced sock) f (tcp_fsm st) x).0
  unfolding action_by_flags
  action_by_flags-HasRun st x e c n m h =
      let a = tcp_fsm st in
      elim (Bool-cases (is_ack f.flags && is_set a.ack)) [
        | inl k ↦ after_keeps a _ (call_keeps _ a.payload _ (call_runs (is_ack f.flags) a.ack x k))
        | inr k ↦
            subst (λ y. HasRun (data_and_after (traced sock) f a y).0)
              (sym (call_if-unset (is_ack f.flags) a.ack x k))
              (unacked-HasRun st x e c
                (or-rest _ _ (else_true (f.flags == 2) (f.flags == 18) _ _ _ h n m) k))
      ]

  abbrev HasRunOf : (S × List Handler) × ℕ → Type 0
  HasRunOf y = HasRun y.0

  dispatch-HasRun :
      (st : TcpState) (x : S × List Handler)
      → st ≡ sock.tcp_state x.0
      → invalid_flags (sock.tcp_state x.0) f.flags ≡ false
      → sock.is_closed x.0 ≡ false
      → has_handler st f.flags ≡ true
      → HasRun (dispatch (traced sock) f (tcp_fsm st) x).0
  dispatch-HasRun st x e v c h =
      if_cases HasRunOf (invalid_flags (sock.tcp_state x.0) f.flags) _ _ (λ w. ground (arith, v, w))
        (λ w.
          if_cases HasRunOf (f.flags == 2) _ _
            (λ n. call_runs true (tcp_fsm st).syn x (syn_set st f.flags n h))
            (λ n.
              if_cases HasRunOf (f.flags == 18) _ _
                (λ m. call_runs true (tcp_fsm st).synack x (synack_set st f.flags n m h))
                (λ m. action_by_flags-HasRun st x e c n m h)))

  wakeup_keeps : (x : S × List Handler) → HasRun x → HasRun (wakeup_pending (traced sock) f x)
  wakeup_keeps x r = if_cases HasRun (sock.ev_pending x.0 == 0) _ _ (λ e. r) (λ e. r)

-- In every state but TIME_WAIT, a socket that is not closed runs a handler for each segment whose
-- flags are valid in its state: no such segment is dropped silently.
pub valid_flags_handled {ℓ} :
    {S : Type ℓ} (sock : Socket S) (f : Arrived) (s : S)
    → invalid_flags (sock.tcp_state (sock.stamp s)) f.flags ≡ false
    → sock.tcp_state (sock.stamp s) ≢ time_wait
    → sock.is_closed (sock.stamp s) ≡ false
    → (tcp_input (traced sock) f (s, [])).0.1 ≢ []
unfolding tcp_input
valid_flags_handled sock f s v n c =
    wakeup_keeps sock f _
      (dispatch-HasRun sock f _ (sock.stamp s, []) refl v c (valid-has_handler _ f.flags v n))
