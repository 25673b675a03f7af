-- ===== src/Whois/Lifecycle/Shutdown.antt =====
-- internal/whois/whois.go: how the gateway stops.
use go_rdap_server.Base.{
  ◌+◌, ◌≤◌, Option, GoString, ◌≡◌, refl, ap, inl, inr, ℕ, true, arith, ok, err, Bool-cases,
}
use go_rdap_server.Whois.Lifecycle.{
  Loop, idle, accepting, handing, hand, failed, returned, Gateway, listen, serve, watch, accept,
  select, shutdown,
}
use go_rdap_server.Whois.Lifecycle.Steps.{
  ◌⟶◌, listens, serves, watches, accepts, hands, fails, selects, shuts, cancels, Reach, start,
  later,
}

-- A connection that Accept gave and that is not handed over yet.
abbrev pub in_hand : Loop → ℕ
in_hand idle = 0
in_hand accepting = 0
in_hand handing = 1
in_hand failed = 0
in_hand (returned r) = 0

-- A closed listener stays closed, and so many connections are accepted.
abbrev pub IsFrozen : ℕ → Gateway → Type 0
IsFrozen n g = (g.closed ≡ true) × (g.connections + in_hand g.loop ≡ n)

turn-IsFrozen : {g h : Gateway} (n : ℕ) → g ⟶ h → IsFrozen n g → IsFrozen n h
unfolding listen serve watch accept hand select shutdown
turn-IsFrozen n (listens g at (err e) fresh rest) f = f
turn-IsFrozen n (listens g at (ok b) fresh rest) f = f
turn-IsFrozen n (serves g rest) f =
    let idle_count : g.connections + 0 ≡ n = omega (arith, f.1, ap in_hand rest) in
    elim (Bool-cases g.ln) [
      | inl set ↦ simp (set, serve) (f.0, idle_count)
      | inr unset ↦ simp (unset, serve) (f.0, idle_count)
    ]
turn-IsFrozen n (watches g rest) f = elim (Bool-cases g.cancelled) [
  | inl done ↦ simp (done, watch) (refl, f.1)
  | inr not_yet ↦ simp (not_yet, watch) f
]
turn-IsFrozen n (accepts g rest open_) f = cc (f.0, open_)
turn-IsFrozen n (hands g rest) f = (f.0, omega (arith, f.1, ap in_hand rest))
turn-IsFrozen n (fails g rest) f = (f.0, omega (arith, f.1, ap in_hand rest))
turn-IsFrozen n (selects g rest) f = elim (Bool-cases g.cancelled) [
  | inl done ↦ simp (done, select) (f.0, omega (arith, f.1, ap in_hand rest))
  | inr not_yet ↦ simp (not_yet, select) (f.0, omega (arith, f.1, ap in_hand rest))
]
turn-IsFrozen n (shuts g first) f = elim (Bool-cases g.ln) [
  | inl set ↦ simp (set, shutdown) (refl, f.1)
  | inr unset ↦ simp (unset, shutdown) f
]
turn-IsFrozen n (cancels g) f = f

-- Once the listener is closed no more connections are accepted, whatever turns follow: those that
-- are handled afterwards and were not before are the one that Accept had given, if it had.
pub closed-connections :
    (g h : Gateway)
    → g.closed ≡ true
    → Reach g h
    → (h.closed ≡ true) × (h.connections + in_hand h.loop ≡ g.connections + in_hand g.loop)
closed-connections g h shut (start x) = (shut, refl)
closed-connections g h shut (later x k y run turn) =
    turn-IsFrozen (g.connections + in_hand g.loop) turn (closed-connections g k shut run)

-- The turns that the loop has left once the context is cancelled and the listener closed.
abbrev pub rank : Loop → ℕ
rank idle = 3
rank accepting = 2
rank handing = 3
rank failed = 1
rank (returned r) = 0

-- How many of the turns of a run are those of Serve and its loop.
unfoldable pub loop_turn : {g h : Gateway} → g ⟶ h → ℕ
loop_turn (listens g at r fresh rest) = 0
loop_turn (serves g rest) = 1
loop_turn (watches g rest) = 0
loop_turn (accepts g rest open_) = 1
loop_turn (hands g rest) = 1
loop_turn (fails g rest) = 1
loop_turn (selects g rest) = 1
loop_turn (shuts g first) = 0
loop_turn (cancels g) = 0

unfoldable pub loop_turns : {g h : Gateway} → Reach g h → ℕ
unfolding loop_turn
loop_turns (start g) = 0
loop_turns (later g h k run turn) = loop_turns run + loop_turn turn

shutdown-loop : (g : Gateway) (first : Option GoString) → (shutdown first g).0.loop ≡ g.loop
unfolding shutdown
shutdown-loop g first = elim (Bool-cases g.ln) [
  | inl set ↦ simp (set, shutdown) refl
  | inr unset ↦ simp (unset, shutdown) refl
]

watch-loop : (g : Gateway) → (watch g).loop ≡ g.loop
unfolding watch
watch-loop g = elim (Bool-cases g.cancelled) [
  | inl done ↦ simp (done, watch) refl
  | inr not_yet ↦ simp (not_yet, watch) refl
]

-- A turn of the loop lowers the rank, and no other turn changes it.
turn-rank :
    {g h : Gateway} (turn : g ⟶ h)
    → g.cancelled ≡ true
    → g.closed ≡ true
    → rank h.loop + loop_turn turn ≤ rank g.loop
unfolding loop_turn listen serve accept hand select
turn-rank (listens g at (err e) fresh rest) done shut = omega arith
turn-rank (listens g at (ok b) fresh rest) done shut = omega arith
turn-rank (serves g rest) done shut = elim (Bool-cases g.ln) [
  | inl set ↦ simp (set, serve, rest) (omega arith)
  | inr unset ↦ simp (unset, serve, rest) (omega arith)
]
turn-rank (watches g rest) done shut = rw (watch-loop g) (omega arith)
turn-rank (accepts g rest open_) done shut = cc (shut, open_)
turn-rank (hands g rest) done shut = simp rest (omega arith)
turn-rank (fails g rest) done shut = simp rest (omega arith)
turn-rank (selects g rest) done shut = simp (done, select, rest) (omega arith)
turn-rank (shuts g first) done shut = rw (shutdown-loop g first) (omega arith)
turn-rank (cancels g) done shut = omega arith

turn-cancelled : {g h : Gateway} → g ⟶ h → g.cancelled ≡ true → h.cancelled ≡ true
unfolding listen serve watch accept hand select shutdown
turn-cancelled (listens g at (err e) fresh rest) done = done
turn-cancelled (listens g at (ok b) fresh rest) done = done
turn-cancelled (serves g rest) done = elim (Bool-cases g.ln) [
  | inl set ↦ simp (set, serve) done
  | inr unset ↦ simp (unset, serve) done
]
turn-cancelled (watches g rest) done = simp (done, watch) refl
turn-cancelled (accepts g rest open_) done = done
turn-cancelled (hands g rest) done = done
turn-cancelled (fails g rest) done = done
turn-cancelled (selects g rest) done = simp (done, select) refl
turn-cancelled (shuts g first) done = elim (Bool-cases g.ln) [
  | inl set ↦ simp (set, shutdown) done
  | inr unset ↦ simp (unset, shutdown) done
]
turn-cancelled (cancels g) done = refl

run-cancelled : {g h : Gateway} → Reach g h → g.cancelled ≡ true → h.cancelled ≡ true
run-cancelled (start g) done = done
run-cancelled (later g h k run turn) done = turn-cancelled turn (run-cancelled run done)

-- When the context is cancelled and the listener is closed, the turns of Serve in any run that
-- follows are at most as many as its loop has left: three before its begin or with a connection to
-- hand over, two from Accept, one behind an Accept that failed, none when it has returned.
pub loop_turns-rank :
    (g h : Gateway) (run : Reach g h)
    → g.cancelled ≡ true
    → g.closed ≡ true
    → rank h.loop + loop_turns run ≤ rank g.loop
unfolding loop_turns
loop_turns-rank g h (start x) done shut = omega arith
loop_turns-rank g h (later x k y run turn) done shut =
    let (closed, count) = closed-connections g k shut run in
    omega (arith, loop_turns-rank g k run done shut, turn-rank turn (run-cancelled run done) closed)
