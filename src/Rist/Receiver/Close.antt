-- ===== src/Rist/Receiver/Close.antt =====
-- Close is final.
use irl_universal_ingest.Prelude.{
  ℕ, ◌≡◌, ◌∙◌, refl, true, List, [], ◌∷◌, ◌++◌, Option, none, some, nat_eq, text_eq, pick, All,
  arith, Option-cases, Bool-cases, inl, inr, ltb,
}
use irl_universal_ingest.Go.Clock.{Time, since}
use irl_universal_ingest.Rist.Receiver.{
  Supervisor, System, Reaper, waiting, noticed, sleeping, Launch, kill, restart_receiver,
  notice_exit, finish_restart, close_receiver, is_current, min_forced_restart_gap,
}
use irl_universal_ingest.Rist.Receiver.Steps.{
  Event, starts, restarts, exits, proceeds, closes, remove, member, proceed, step, run,
}

-- Any event but a call of Start.
abbrev pub NoStart : Event → Type 0
NoStart (starts bin l) = ⊥
NoStart _ = Unit

-- Every live process has been sent the kill signal.
abbrev pub Doomed : System → Type 0
Doomed y = (pid : ℕ) → member pid y.alive ≡ true → member pid y.killed ≡ true

pub record IsClosed (n : ℕ) (w : Supervisor × System) : Type 0 where
  pub cancelled : w.0.cancelled ≡ true
  pub stopping : w.0.stopping ≡ true
  pub processes : w.1.processes ≡ n
  pub doomed : Doomed w.1

member-append_left : (k : ℕ) (xs ys : List ℕ) → member k xs ≡ true → member k (xs ++ ys) ≡ true
unfolding member
member-append_left k [] ys h = cc
member-append_left k (x ∷ xs) ys h = ground (arith, member-append_left k xs ys)

member-remove : (k n : ℕ) (xs : List ℕ) → member k (remove n xs) ≡ true → member k xs ≡ true
unfolding member remove
member-remove k n [] h = cc
member-remove k n (x ∷ xs) h = ground (arith, member-remove k n xs)

Doomed-kill : (cmd : Option ℕ) (y : System) → Doomed y → Doomed (kill cmd y)
unfolding member
Doomed-kill none y d = d
Doomed-kill (some p) y d = λ pid h. ground (arith, d pid h)

kill-processes : (cmd : Option ℕ) (y : System) → (kill cmd y).processes ≡ y.processes
kill-processes none y = refl
kill-processes (some p) y = refl

close-IsClosed : (s : Supervisor) (y : System) → IsClosed y.processes (close_receiver (s, y))
unfolding close_receiver
close-IsClosed s y =
    let all = record y { killed = y.alive ++ y.killed } in
    record {
      cancelled = refl;
      stopping = refl;
      processes = kill-processes s.cmd all;
      doomed = Doomed-kill s.cmd all (λ pid h. member-append_left pid y.alive y.killed h);
    }

restart-IsClosed :
    (n : ℕ) (now : Time) (l : Launch) (s : Supervisor) (y : System)
    → IsClosed n (s, y)
    → IsClosed n (restart_receiver now l (s, y))
unfolding restart_receiver
restart-IsClosed n now l s y c =
    elim (Bool-cases (ltb (since now s.last_forced_restart) min_forced_restart_gap)) [
      | inl soon ↦ rw (restart_receiver, soon) c
      | inr late ↦
          rw (restart_receiver, late, c.cancelled)
            (record {
              cancelled = refl;
              stopping = c.stopping;
              processes = kill-processes s.cmd y ∙ c.processes;
              doomed = Doomed-kill s.cmd y c.doomed;
            })
    ]

proceed-IsClosed :
    (n : ℕ) (l : Launch) (g : Reaper) (s : Supervisor) (y : System)
    → IsClosed n (s, y)
    → IsClosed n (proceed l g (s, y))
unfolding proceed notice_exit finish_restart
proceed-IsClosed n l (waiting pid) s y c = elim (Bool-cases (member pid y.alive)) [
  | inl e ↦
      rw (proceed, e)
        (record {
          cancelled = c.cancelled;
          stopping = c.stopping;
          processes = c.processes;
          doomed = c.doomed;
        })
  | inr e ↦ elim (Bool-cases (is_current pid s.cmd)) [
    | inl k ↦
        rw (proceed, notice_exit, e, k, c.stopping)
          (record {
            cancelled = c.cancelled;
            stopping = c.stopping;
            processes = c.processes;
            doomed = c.doomed;
          })
    | inr k ↦ rw (proceed, notice_exit, e, k) c
  ]
]
proceed-IsClosed n l (noticed bin) s y c =
    rw (proceed, c.cancelled)
      (record {
        cancelled = refl;
        stopping = c.stopping;
        processes = c.processes;
        doomed = c.doomed;
      })
proceed-IsClosed n l (sleeping delay bin) s y c =
    rw (proceed, finish_restart, c.cancelled)
      (record {
        cancelled = refl;
        stopping = c.stopping;
        processes = c.processes;
        doomed = c.doomed;
      })

step-IsClosed :
    (n : ℕ) (ev : Event) (w : Supervisor × System)
    → NoStart ev
    → IsClosed n w
    → IsClosed n (step ev w)
unfolding step
step-IsClosed n (starts bin l) w idle c = absurd idle
step-IsClosed n (restarts now l) (s, y) idle c = restart-IsClosed n now l s y c
step-IsClosed n (exits pid) (s, y) idle c = record {
  cancelled = c.cancelled;
  stopping = c.stopping;
  processes = c.processes;
  doomed = λ k h. c.doomed k (member-remove k pid y.alive h);
}
step-IsClosed n (proceeds k l) (s, y) idle c = elim (Option-cases (pick k y.reapers)) [
  | inl e ↦ rw (step, e) c
  | inr (g, e) ↦
      rw (step, e)
        (proceed-IsClosed n l g.0 s (record y { reapers = g.1 })
          (record {
            cancelled = c.cancelled;
            stopping = c.stopping;
            processes = c.processes;
            doomed = c.doomed;
          }))
]
step-IsClosed n closes (s, y) idle c =
    let v = close-IsClosed s y in
    record {
      cancelled = v.cancelled;
      stopping = v.stopping;
      processes = v.processes ∙ c.processes;
      doomed = v.doomed;
    }

run-IsClosed :
    (n : ℕ) (es : List Event) (w : Supervisor × System)
    → All NoStart es
    → IsClosed n w
    → IsClosed n (run es w)
unfolding run
run-IsClosed n [] w idle c = c
run-IsClosed n (ev ∷ es) w idle c =
    run-IsClosed n es (step ev w) idle.1 (step-IsClosed n ev w idle.0 c)

-- After Close, and until Start is called again, no ristreceiver is launched, whatever forced
-- restarts, exits and sleeping restarts are still to go on, and each one that is still alive has
-- been sent the kill signal.
pub close_receiver_final :
    (s : Supervisor) (y : System) (later : List Event)
    → All NoStart later
    → let (t, z) = run later (close_receiver (s, y)) in
      (z.processes ≡ y.processes)
      × ((pid : ℕ) → member pid z.alive ≡ true → member pid z.killed ≡ true)
close_receiver_final s y later idle =
    let c = run-IsClosed y.processes later (close_receiver (s, y)) idle (close-IsClosed s y) in
    (c.processes, c.doomed)
