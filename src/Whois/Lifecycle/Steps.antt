-- ===== src/Whois/Lifecycle/Steps.antt =====
-- internal/whois/whois.go: the runs of the gateway, whose loop, goroutine and callers take turns.
use go_rdap_server.Base.{◌≡◌, false, Option, Result, GoString}
use go_rdap_server.Whois.Lifecycle.{
  idle, accepting, handing, hand, failed, waiting, Gateway, listen, serve, watch, connection,
  accept_error, accept, select, shutdown, cancel,
}

-- One turn. Listen and Serve are called once, in this order. Accept on a closed listener fails, and
-- it may fail on an open one too.
infix 40 ◌⟶◌
pub data ◌⟶◌ : Gateway → Gateway → Type 0 where
  listens :
      (g : Gateway) (at : GoString) (r : Result GoString (Unit {0}))
      → g.bound ≡ false
      → g.loop ≡ idle
      → g ⟶ (listen at r g).0
  serves : (g : Gateway) → g.loop ≡ idle → g ⟶ serve g
  watches : (g : Gateway) → g.watcher ≡ waiting → g ⟶ watch g
  accepts : (g : Gateway) → g.loop ≡ accepting → g.closed ≡ false → g ⟶ accept connection g
  hands : (g : Gateway) → g.loop ≡ handing → g ⟶ hand g
  fails : (g : Gateway) → g.loop ≡ accepting → g ⟶ accept accept_error g
  selects : (g : Gateway) → g.loop ≡ failed → g ⟶ select g
  shuts : (g : Gateway) (first : Option GoString) → g ⟶ (shutdown first g).0
  cancels : (g : Gateway) → g ⟶ cancel g

pub data Reach : Gateway → Gateway → Type 0 where
  start : (g : Gateway) → Reach g g
  later : (g h k : Gateway) → Reach g h → h ⟶ k → Reach g k

-- The turns of Serve's loop and of its goroutine; the others are those of callers.
unfoldable pub IsOwn : {g h : Gateway} → g ⟶ h → Type 0
IsOwn (listens g at r fresh rest) = ⊥
IsOwn (serves g rest) = ⊥
IsOwn (watches g rest) = Unit
IsOwn (accepts g rest open_) = Unit
IsOwn (hands g rest) = Unit
IsOwn (fails g rest) = Unit
IsOwn (selects g rest) = Unit
IsOwn (shuts g first) = ⊥
IsOwn (cancels g) = ⊥

-- A run in which no caller does anything.
pub data OwnRun : Gateway → Gateway → Type 0 where
  alone : (g : Gateway) → OwnRun g g
  then : (g h k : Gateway) → OwnRun g h → (turn : h ⟶ k) → IsOwn turn → OwnRun g k
