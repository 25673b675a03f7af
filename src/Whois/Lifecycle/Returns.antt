-- ===== src/Whois/Lifecycle/Returns.antt =====
-- internal/whois/whois.go: when Serve returns, and what Shutdown gives.
use go_rdap_server.Base.{
  ◌≡◌, ap, refl, sym, ◌∙◌, ◌⊎◌, inl, inr, true, false, Option, none, some, ok, err, GoString, str,
  Bool-cases,
}
use go_rdap_server.Whois.Lifecycle.{
  Loop, idle, failed, handing, hand, accepting, returned, Watcher, absent, waiting, finished,
  Gateway, new_gateway, listen, serve, watch, accept_error, accept, select, shutdown,
}
use go_rdap_server.Whois.Lifecycle.Steps.{
  ◌⟶◌, listens, serves, watches, accepts, fails, selects, shuts, cancels, Reach, start, later,
  hands, IsOwn, OwnRun, alone, then,
}
use go_rdap_server.Whois.Lifecycle.Invariant.{is_running, IsServing, Reach-IsSound}

join : {g k h : Gateway} → OwnRun g k → OwnRun k h → OwnRun g h
join first (alone k) = first
join first (then k m h run turn own) = then _ m h (join first run) turn own

-- One turn.
once : (g h : Gateway) (turn : g ⟶ h) → IsOwn turn → OwnRun g h
once g h turn own = then g g h (alone g) turn own

select-done :
    (g : Gateway)
    → g.cancelled ≡ true
    → ((select g).loop ≡ returned none) × ((select g).closed ≡ g.closed)
unfolding select
select-done g done = simp (done, select) (refl, refl)

watch-done :
    (g : Gateway)
    → g.cancelled ≡ true
    → ((watch g).closed ≡ true) × ((watch g).loop ≡ g.loop) × ((watch g).cancelled ≡ true)
unfolding watch
watch-done g done = simp (done, watch) (refl, refl, refl)

-- A state that the gateway gets to, with no turn of a caller, in which Serve has returned without
-- an error and the listener is closed.
abbrev pub Ends : Gateway → Type 0
Ends g = (h : Gateway) × (OwnRun g h × (h.loop ≡ returned none) × (h.closed ≡ true))

join-Ends : (g k : Gateway) → OwnRun g k → Ends k → Ends g
join-Ends g k first (h, (run, ended, shut)) = (h, (join first run, ended, shut))

failed-Ends : (g : Gateway) → g.loop ≡ failed → g.cancelled ≡ true → g.closed ≡ true → Ends g
unfolding IsOwn
failed-Ends g at_select done shut =
    let (ended, same) = select-done g done in
    (select g, (once g (select g) (selects g at_select) tt, ended, same ∙ shut))

accepting-Ends : (g : Gateway) → g.loop ≡ accepting → g.cancelled ≡ true → g.closed ≡ true → Ends g
unfolding accept IsOwn
accepting-Ends g at_accept done shut =
    let broken = accept accept_error g in
    join-Ends g broken (once g broken (fails g at_accept) tt) (failed-Ends broken refl done shut)

handing-Ends : (g : Gateway) → g.loop ≡ handing → g.cancelled ≡ true → g.closed ≡ true → Ends g
unfolding hand IsOwn
handing-Ends g at_hand done shut =
    join-Ends g (hand g) (once g (hand g) (hands g at_hand) tt)
      (accepting-Ends (hand g) refl done shut)

Loop-cases : (l : Loop) → is_running l ≡ true → (l ≡ accepting) ⊎ ((l ≡ handing) ⊎ (l ≡ failed))
Loop-cases idle h = cc h
Loop-cases accepting h = inl refl
Loop-cases handing h = inr (inl refl)
Loop-cases failed h = inr (inr refl)
Loop-cases (returned r) h = cc h

closed-Ends : (g : Gateway) → IsServing g → g.cancelled ≡ true → g.closed ≡ true → Ends g
closed-Ends g serving done shut = elim (Loop-cases g.loop serving) [
  | inl at_accept ↦ accepting-Ends g at_accept done shut
  | inr (inl at_hand) ↦ handing-Ends g at_hand done shut
  | inr (inr at_select) ↦ failed-Ends g at_select done shut
]

watched-Ends : (g : Gateway) → IsServing g → g.cancelled ≡ true → g.watcher ≡ waiting → Ends g
unfolding IsOwn
watched-Ends g serving done waits =
    let (shut, same, still) = watch-done g done in
    join-Ends g (watch g) (once g (watch g) (watches g waits) tt)
      (closed-Ends (watch g) (ap is_running same ∙ serving) still shut)

Watcher-cases : (w : Watcher) → (w ≡ absent) ⊎ ((w ≡ waiting) ⊎ (w ≡ finished))
Watcher-cases absent = inl refl
Watcher-cases waiting = inr (inl refl)
Watcher-cases finished = inr (inr refl)

-- A gateway that serves, once its context is cancelled, can end by turns of its loop and of its
-- goroutine only, no caller doing anything: it gets to a state in which the listener is closed and
-- Serve has returned without an error.
pub serve-returns : (g : Gateway) → Reach new_gateway g → IsServing g → g.cancelled ≡ true → Ends g
serve-returns g run serving done =
    let s = Reach-IsSound g run in
    elim (Watcher-cases g.watcher) [
      | inl none_yet ↦ absurd (s.serving serving none_yet)
      | inr (inl waits) ↦ watched-Ends g serving done waits
      | inr (inr over) ↦ closed-Ends g serving done ((s.watched over).1)
    ]

serve-cancelled : (g : Gateway) → (serve g).cancelled ≡ g.cancelled
unfolding serve
serve-cancelled g = elim (Bool-cases g.ln) [
  | inl set ↦ simp (set, serve) refl
  | inr unset ↦ simp (unset, serve) refl
]

watch-frame : (g : Gateway) → ((watch g).cancelled ≡ g.cancelled) × ((watch g).loop ≡ g.loop)
unfolding watch
watch-frame g = elim (Bool-cases g.cancelled) [
  | inl done ↦ simp (done, watch) (refl, refl)
  | inr not_yet ↦ simp (not_yet, watch) (refl, refl)
]

shutdown-frame :
    (g : Gateway) (first : Option GoString)
    → ((shutdown first g).0.cancelled ≡ g.cancelled) × ((shutdown first g).0.loop ≡ g.loop)
unfolding shutdown
shutdown-frame g first = elim (Bool-cases g.ln) [
  | inl set ↦ simp (set, shutdown) (refl, refl)
  | inr unset ↦ simp (unset, shutdown) (refl, refl)
]

select-goes_on :
    (g : Gateway)
    → (select g).cancelled ≡ false
    → (g.cancelled ≡ false) × ((select g).loop ≡ accepting)
unfolding select
select-goes_on g running = elim (Bool-cases g.cancelled) [
  | inl done ↦ cc (simp (done, select) at running)
  | inr not_yet ↦ (not_yet, simp (not_yet, select) refl)
]

turn-IsServing :
    {g h : Gateway}
    → g ⟶ h
    → h.cancelled ≡ false
    → (g.cancelled ≡ false) × (IsServing g → IsServing h)
unfolding listen serve watch accept hand select shutdown
turn-IsServing (listens g at (err e) fresh rest) running = (running, λ i. i)
turn-IsServing (listens g at (ok b) fresh rest) running = (running, λ i. i)
turn-IsServing (serves g rest) running =
    (sym (serve-cancelled g) ∙ running, λ i. cc (sym (ap is_running rest) ∙ i))
turn-IsServing (watches g rest) running =
    let (cancelled, loop) = watch-frame g in (sym cancelled ∙ running, λ i. ap is_running loop ∙ i)
turn-IsServing (accepts g rest open_) running = (running, λ i. refl)
turn-IsServing (hands g rest) running = (running, λ i. refl)
turn-IsServing (fails g rest) running = (running, λ i. refl)
turn-IsServing (selects g rest) running =
    let (before, again) = select-goes_on g running in (before, λ i. ap is_running again)
turn-IsServing (shuts g first) running =
    let (cancelled, loop) = shutdown-frame g first in
    (sym cancelled ∙ running, λ i. ap is_running loop ∙ i)
turn-IsServing (cancels g) running = cc running

-- Until the context is cancelled Serve goes on, whether or not Shutdown has closed the listener.
pub IsServing-kept : (g h : Gateway) → IsServing g → Reach g h → h.cancelled ≡ false → IsServing h
IsServing-kept g h serving (start x) running = serving
IsServing-kept g h serving (later x k y run turn) running =
    let (before, on) = turn-IsServing turn running in on (IsServing-kept g k serving run before)

-- When the goroutine has closed the listener and the server still has it, Shutdown gives the error
-- of a second Close, and a Shutdown after that gives none.
pub shutdown-twice :
    (g : Gateway) (first : Option GoString)
    → Reach new_gateway g
    → g.watcher ≡ finished
    → g.ln ≡ true
    → ((shutdown first g).1 ≡ some (str "use of closed network connection"))
      × ((shutdown first (shutdown first g).0).1 ≡ none)
unfolding shutdown
shutdown-twice g first run over set =
    let (stopped, shut) = (Reach-IsSound g run).watched over in
    simp (set, shut, shutdown) (refl, refl)
