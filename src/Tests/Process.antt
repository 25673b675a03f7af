-- ===== src/Tests/Process.antt =====
-- The WHOIS gateway and the process, from their start to their end.
use go_rdap_server.Base.{
  refl, inl, inr, if◌then◌else◌, Option, List, ◌∷◌, Bool-cases, GoString, true, none, some, [], ◌≤◌,
  ◌+◌, ok, str,
}
use go_rdap_server.Whois.Lifecycle.{
  Gateway, new_gateway, listen, serve, accept, waiting, finished, failed, accepting,
}
use go_rdap_server.Whois.Lifecycle.Steps.{listens, serves, fails, cancels, Reach, start, later}
use go_rdap_server.Whois.Lifecycle.Invariant.{IsSound, Reach-IsSound}
use go_rdap_server.Whois.Lifecycle.Shutdown.{loop_turns-rank, loop_turns, rank}
use go_rdap_server.Whois.Lifecycle.Returns.{Ends, serve-returns}
use go_rdap_server.Program.{Env, run}
use go_rdap_server.Program.Shutdown.{IsBalanced, whois}
use go_rdap_server.Program.Balance.{run-IsBalanced}
use go_rdap_server.Rdap.Conformance.{seen}
use go_rdap_server.Rdap.Conformance.Laws.{seen_iff}
use go_rdap_server.Metrics.{Collector}
use go_rdap_server.Metrics.Registered.{Accepts}
use go_rdap_server.Tests.Data.{config}

-- A gateway that listens.
abbrev bound : Gateway
bound = record new_gateway { ln = true; bound = true }

-- One that serves, and one whose context is cancelled.
abbrev serving : Gateway
serving = record bound { loop = accepting; watcher = waiting }

abbrev cancelled : Gateway
cancelled = record serving { cancelled = true }

to_bound : Reach new_gateway bound
unfolding listen
to_bound =
    later new_gateway new_gateway bound (start new_gateway)
      (listens new_gateway (str ":43") (ok tt) refl refl)

to_cancelled : Reach new_gateway cancelled
unfolding serve
to_cancelled =
    later new_gateway serving cancelled
      (later new_gateway bound serving to_bound (serves bound refl)) (cancels serving)

Reach-IsSound_example : IsSound cancelled
Reach-IsSound_example = Reach-IsSound cancelled to_cancelled

serve-returns_example : Ends cancelled
serve-returns_example = serve-returns cancelled to_cancelled refl refl

abbrev closed : Gateway
closed = record cancelled { closed = true; watcher = finished }

abbrev broken : Gateway
broken = record closed { loop = failed }

to_broken : Reach closed broken
unfolding accept
to_broken = later closed closed broken (start closed) (fails closed refl)

loop_turns-rank_example : rank broken.loop + loop_turns to_broken ≤ rank closed.loop
loop_turns-rank_example = loop_turns-rank closed broken to_broken refl refl

-- A process with metrics and the WHOIS gateway, where the second shutdown of the gateway fails.
abbrev env : Env
env = record {
  Store = Unit;
  loaded = ok (record config {
    metrics = record { enabled = true; host = []; port = config.metrics.port };
    whois = record { enabled = true; port = config.whois.port };
  });
  opened = λ cfg. ok tt;
  listened = none;
  server_stopped = none;
  metrics_stopped = none;
  whois_stopped = some (str "use of closed network connection");
}

run-IsBalanced_example : IsBalanced whois (run env).0
unfolding run
run-IsBalanced_example = run-IsBalanced env whois refl

-- A registry that is the list of its names.
abbrev register : Collector → List GoString → Option (List GoString)
register c r = if seen c.name r then none else some (c.name ∷ r)

register-Accepts : Accepts register (λ r. r)
register-Accepts c r fresh = elim (Bool-cases (seen c.name r)) [
  | inl taken ↦ absurd (fresh ((seen_iff c.name r).0 taken))
  | inr free ↦ (c.name ∷ r, rw free refl, refl)
]
