-- ===== src/Whois/Lifecycle.antt =====
-- internal/whois/whois.go: Server, from Listen to Shutdown. Package net is a parameter: whether a
-- socket was bound, what Accept gives, and what the first Close of a listener returns. A listener
-- is one object that the server, the accept loop and the goroutine that waits for the context
-- share, so whether it is closed is a part of the state.
pub mod Steps
pub mod Invariant
pub mod Shutdown
pub mod Returns
use go_rdap_server.Base.{
  ℕ, suc, Bool, true, false, Option, none, some, ◌++◌, if◌then◌else◌, Result, ok, err, GoString,
  str,
}

-- Where the call of Serve is: not begun, in Accept, at `go s.handle(conn)`, behind an Accept that
-- failed, or done.
pub data Loop : Type 0 where
  idle : Loop
  accepting : Loop
  handing : Loop
  failed : Loop
  returned : Option GoString → Loop

-- The goroutine of Serve: not begun, at `<-ctx.Done()`, or done.
pub data Watcher : Type 0 where
  absent : Watcher
  waiting : Watcher
  finished : Watcher

-- `ln` says whether the field ln is set. `bound` and `closed` are of the listener itself, and
-- `connections` counts those that were given to `handle`.
pub record Gateway : Type 0 where
  pub ln : Bool
  pub bound : Bool
  pub closed : Bool
  pub cancelled : Bool
  pub loop : Loop
  pub watcher : Watcher
  pub connections : ℕ

-- What `New` gives, with the context that is not cancelled yet.
abbrev pub new_gateway : Gateway
new_gateway = record {
  ln = false;
  bound = false;
  closed = false;
  cancelled = false;
  loop = idle;
  watcher = absent;
  connections = 0;
}

-- net.Listen failed, or bound the socket.
unfoldable pub listen : GoString → Result GoString (Unit {0}) → Gateway → Gateway × Option GoString
listen addr (err e) g = (g, some (str "whois listen " ++ addr ++ str ": " ++ e))
listen addr (ok bound) g = (record g { ln = true; bound = true }, none)

-- Addr, for the address of a bound listener
unfoldable pub addr : GoString → Gateway → Option GoString
addr bound_addr g = if g.ln then some bound_addr else none

-- Serve up to its loop.
unfoldable pub serve : Gateway → Gateway
serve g = if g.ln then record g { loop = accepting; watcher = waiting } else record g {
  loop = returned (some (str "whois serve: listener not started; call Listen first"));
}

-- <-ctx.Done(); ln.Close()
unfoldable pub watch : Gateway → Gateway
watch g = if g.cancelled then record g { closed = true; watcher = finished } else g

pub data Accepted : Type 0 where
  connection : Accepted
  accept_error : Accepted

-- conn, err := ln.Accept()
unfoldable pub accept : Accepted → Gateway → Gateway
accept connection g = record g { loop = handing }
accept accept_error g = record g { loop = failed }

-- go s.handle(conn)
unfoldable pub hand : Gateway → Gateway
hand g = record g { loop = accepting; connections = suc g.connections }

-- The select behind an error.
unfoldable pub select : Gateway → Gateway
select g = if g.cancelled then record g { loop = returned none } else record g { loop = accepting }

-- Close of a listener that is closed already.
abbrev pub close_error : Bool → Option GoString → Option GoString
close_error true first = some (str "use of closed network connection")
close_error false first = first

-- Shutdown; `first` is what the first Close of the listener returns.
unfoldable pub shutdown : Option GoString → Gateway → Gateway × Option GoString
shutdown first g =
    if g.ln then (record g { ln = false; closed = true }, close_error g.closed first) else (g, none)

-- cancel()
abbrev pub cancel : Gateway → Gateway
cancel g = record g { cancelled = true }
