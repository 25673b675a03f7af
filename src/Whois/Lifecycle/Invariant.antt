-- ===== src/Whois/Lifecycle/Invariant.antt =====
-- internal/whois/whois.go: what holds of the gateway at every moment.
use go_rdap_server.Base.{
  ◌≡◌, ◌≢◌, ap, Bool, refl, ◌⊎◌, inl, inr, true, false, Option, none, Result, ok, err, GoString,
  Bool-cases,
}
use go_rdap_server.Whois.Lifecycle.{
  Loop, handing, hand, idle, accepting, failed, returned, absent, waiting, finished, Gateway,
  new_gateway, listen, serve, watch, connection, accept_error, accept, select, shutdown, cancel,
}
use go_rdap_server.Whois.Lifecycle.Steps.{
  ◌⟶◌, listens, serves, watches, accepts, hands, fails, selects, shuts, cancels, Reach, start,
  later,
}

abbrev pub is_running : Loop → Bool
is_running idle = false
is_running accepting = true
is_running handing = true
is_running failed = true
is_running (returned r) = false

-- The call of Serve has begun its loop and has not returned.
abbrev pub IsServing : Gateway → Type 0
IsServing g = is_running g.loop ≡ true

-- Serve ends without an error only when the context is cancelled, and the goroutine ends only with
-- the listener closed; the listener is there while Serve runs, and it is closed when the server has
-- let go of it.
pub record IsSound (g : Gateway) : Type 0 where
  pub ended : g.loop ≡ returned none → g.cancelled ≡ true
  pub watched : g.watcher ≡ finished → (g.cancelled ≡ true) × (g.closed ≡ true)
  pub serving : IsServing g → g.watcher ≢ absent
  pub used : g.watcher ≢ absent → g.bound ≡ true
  pub owned : g.ln ≡ true → g.bound ≡ true
  pub shut : g.closed ≡ true → g.bound ≡ true
  pub kept : g.bound ≡ true → (g.ln ≡ true) ⊎ (g.closed ≡ true)

new_gateway-IsSound : IsSound new_gateway
new_gateway-IsSound = record {
  ended = λ h. cc h;
  watched = λ h. cc h;
  serving = λ h. cc h;
  used = λ h. absurd (h refl);
  owned = λ h. cc h;
  shut = λ h. cc h;
  kept = λ h. cc h;
}

listen-IsSound :
    (g : Gateway) (at : GoString) (r : Result GoString (Unit {0}))
    → g.bound ≡ false
    → g.loop ≡ idle
    → IsSound g
    → IsSound (listen at r g).0
unfolding listen
listen-IsSound g at (err e) fresh rest s = s
listen-IsSound g at (ok b) fresh rest s = record {
  ended = s.ended;
  watched = s.watched;
  serving = s.serving;
  used = λ h. refl;
  owned = λ h. refl;
  shut = λ h. refl;
  kept = λ h. inl refl;
}

serve-IsSound : (g : Gateway) → g.loop ≡ idle → IsSound g → IsSound (serve g)
unfolding serve
serve-IsSound g rest s = elim (Bool-cases g.ln) [
  | inl set ↦
      simp (set, serve)
        (record {
          ended = λ h. cc h;
          watched = λ h. cc h;
          serving = λ h e. cc e;
          used = λ h. s.owned set;
          owned = λ h. s.owned set;
          shut = s.shut;
          kept = λ h. inl refl;
        })
  | inr unset ↦
      simp (unset, serve)
        (record {
          ended = λ h. cc h;
          watched = s.watched;
          serving = λ h. cc h;
          used = s.used;
          owned = λ h. cc h;
          shut = s.shut;
          kept = λ h. elim (s.kept h) [ inl e ↦ cc (unset, e) | inr e ↦ inr e ];
        })
]

watch-IsSound : (g : Gateway) → g.watcher ≡ waiting → IsSound g → IsSound (watch g)
unfolding watch
watch-IsSound g rest s = elim (Bool-cases g.cancelled) [
  | inl done ↦
      simp (done, watch)
        (record {
          ended = λ h. refl;
          watched = λ h. (refl, refl);
          serving = λ h e. cc e;
          used = λ h. s.used (λ e. cc (rest, e));
          owned = s.owned;
          shut = λ h. s.used (λ e. cc (rest, e));
          kept = λ h. inr refl;
        })
  | inr not_yet ↦ simp (not_yet, watch) s
]

connection-IsSound : (g : Gateway) → g.loop ≡ accepting → IsSound g → IsSound (accept connection g)
unfolding accept
connection-IsSound g at_accept s = record {
  ended = λ h. cc h;
  watched = s.watched;
  serving = λ h. s.serving (ap is_running at_accept);
  used = s.used;
  owned = s.owned;
  shut = s.shut;
  kept = s.kept;
}

hand-IsSound : (g : Gateway) → g.loop ≡ handing → IsSound g → IsSound (hand g)
unfolding hand
hand-IsSound g at_hand s = record {
  ended = λ h. cc h;
  watched = s.watched;
  serving = λ h. s.serving (ap is_running at_hand);
  used = s.used;
  owned = s.owned;
  shut = s.shut;
  kept = s.kept;
}

accept_error-IsSound :
    (g : Gateway) → g.loop ≡ accepting → IsSound g → IsSound (accept accept_error g)
unfolding accept
accept_error-IsSound g at_accept s = record {
  ended = λ h. cc h;
  watched = s.watched;
  serving = λ h. s.serving (ap is_running at_accept);
  used = s.used;
  owned = s.owned;
  shut = s.shut;
  kept = s.kept;
}

select-IsSound : (g : Gateway) → g.loop ≡ failed → IsSound g → IsSound (select g)
unfolding select
select-IsSound g at_select s = elim (Bool-cases g.cancelled) [
  | inl done ↦
      simp (done, select)
        (record {
          ended = λ h. refl;
          watched = λ h. (refl, (s.watched h).1);
          serving = λ h. cc h;
          used = s.used;
          owned = s.owned;
          shut = s.shut;
          kept = s.kept;
        })
  | inr not_yet ↦
      simp (not_yet, select)
        (record {
          ended = λ h. cc h;
          watched = λ h. cc ((s.watched h).0, not_yet);
          serving = λ h. s.serving (ap is_running at_select);
          used = s.used;
          owned = s.owned;
          shut = s.shut;
          kept = s.kept;
        })
]

shutdown-IsSound :
    (g : Gateway) (first : Option GoString) → IsSound g → IsSound (shutdown first g).0
unfolding shutdown
shutdown-IsSound g first s = elim (Bool-cases g.ln) [
  | inl set ↦
      simp (set, shutdown)
        (record {
          ended = s.ended;
          watched = λ h. ((s.watched h).0, refl);
          serving = s.serving;
          used = s.used;
          owned = λ h. cc h;
          shut = λ h. s.owned set;
          kept = λ h. inr refl;
        })
  | inr unset ↦ simp (unset, shutdown) s
]

cancel-IsSound : (g : Gateway) → IsSound g → IsSound (cancel g)
cancel-IsSound g s = record {
  ended = λ h. refl;
  watched = λ h. (refl, (s.watched h).1);
  serving = s.serving;
  used = s.used;
  owned = s.owned;
  shut = s.shut;
  kept = s.kept;
}

-- Each turn keeps it.
pub turn-IsSound : {g h : Gateway} → g ⟶ h → IsSound g → IsSound h
turn-IsSound (listens g at r fresh rest) s = listen-IsSound g at r fresh rest s
turn-IsSound (serves g rest) s = serve-IsSound g rest s
turn-IsSound (watches g rest) s = watch-IsSound g rest s
turn-IsSound (accepts g rest open_) s = connection-IsSound g rest s
turn-IsSound (hands g rest) s = hand-IsSound g rest s
turn-IsSound (fails g rest) s = accept_error-IsSound g rest s
turn-IsSound (selects g rest) s = select-IsSound g rest s
turn-IsSound (shuts g first) s = shutdown-IsSound g first s
turn-IsSound (cancels g) s = cancel-IsSound g s

kept-IsSound : {g h : Gateway} → Reach g h → IsSound g → IsSound h
kept-IsSound (start g) s = s
kept-IsSound (later g h k run turn) s = turn-IsSound turn (kept-IsSound run s)

-- In every state that a new gateway can reach, whatever the order of the turns: Serve has returned
-- without an error only if the context is cancelled, the goroutine has ended only with the listener
-- closed, and a listener that was bound is still the server's or is closed.
pub Reach-IsSound : (g : Gateway) → Reach new_gateway g → IsSound g
Reach-IsSound g run = kept-IsSound run new_gateway-IsSound
