-- ===== src/Relay/History.antt =====
-- The invariant of the live process over whole histories.
use irl_universal_ingest.Prelude.{
  ℕ, ◌+◌, ◌<◌, ◌≤◌, ◌^◌, ◌≡◌, refl, inl, inr, false, ◌||◌, not, List, [], ◌∷◌, Text, arith, pick,
  pick-All, Option-cases, Bool-cases, length, ◌==◌, nat_eq, sym, nat_beq_iff,
}
use irl_universal_ingest.Relay.{
  Relay, Host, Task, watching, scheduling, sleeping, Process, Launch, new, start_locked,
  start_session, stop_unlocked, stop_session, watch, schedule_restart, finish_restart, is_running,
}
use irl_universal_ingest.Relay.Steps.{
  Event, starts, stops, exits, proceeds, is_alive, proceed, step, run, begin, add_task, after_watch,
}
use irl_universal_ingest.Relay.Single.{
  Single, Only, TaskOk, IsSingle, Single-reap, Single-idle, Single-same, All-TaskOk-reap,
  not_running, start_locked-IsSingle, start_session-IsSingle, stop_session-IsSingle,
}

Only-dead : (pid : ℕ) (ps : List Process) → Only pid ps → is_alive pid ps ≡ false → ps ≡ []
unfolding is_alive
Only-dead pid [] o d = refl
Only-dead pid (p ∷ []) o d = absurd (ground arith)
Only-dead pid (p ∷ q ∷ ps) o d = absurd o

add_task-IsSingle :
    (t : Task) (r : Relay) (h : Host)
    → TaskOk r.session_id h.alive t
    → IsSingle (r, h)
    → IsSingle (r, add_task t h)
add_task-IsSingle t r h k v = record { single = v.single; tasks = (k, v.tasks) }

watch-IsSingle :
    (pid s : ℕ) (r : Relay) (h : Host)
    → TaskOk r.session_id h.alive (watching pid s)
    → is_alive pid h.alive ≡ false
    → IsSingle (r, h)
    → IsSingle (after_watch s h (watch s r))
unfolding watch
watch-IsSingle pid s r h k dead v = elim (Bool-cases (r.session_id == s)) [
  | inr stale ↦ rw (stale, watch) v
  | inl current ↦
      let same = sym ((nat_beq_iff r.session_id s).0 current) in
      let gone = Only-dead pid h.alive (k.1 same) dead in
      let idle : IsSingle (record r { running = false }, h) = record {
        single = Single-idle (record r { running = false }) h.alive gone;
        tasks = v.tasks;
      } in
      elim (Bool-cases r.stopped) [
        | inl stopped ↦ rw (current, stopped, watch) idle
        | inr going ↦
            rw (current, going, watch)
              (add_task-IsSingle (scheduling s r.last_input r.last_path)
                (record r { running = false }) h (k.0, λ _. gone) idle)
      ]
]

schedule-IsSingle :
    (s : ℕ) (input path : Text) (r : Relay) (h : Host)
    → TaskOk r.session_id h.alive (scheduling s input path)
    → IsSingle (r, h)
    → let (r', delay) = schedule_restart r in
      IsSingle (r', add_task (sleeping delay s input path) h)
unfolding schedule_restart
schedule-IsSingle s input path r h k v = record {
  single = Single-same r (schedule_restart r).0 h.alive refl refl v.single;
  tasks = (k, v.tasks);
}

finish-IsSingle :
    (launch : Launch) (s : ℕ) (input path : Text) (r : Relay) (h : Host)
    → r.session_id + 1 < 2 ^ 64
    → (s ≡ r.session_id → h.alive ≡ [])
    → IsSingle (r, h)
    → IsSingle (finish_restart launch s input path (r, h))
unfolding finish_restart
finish-IsSingle launch s input path r h small k v =
    elim (Bool-cases (r.stopped || not (r.session_id == s))) [
      | inl off ↦ rw (finish_restart, off) v
      | inr on ↦
          rw (finish_restart, on)
            (start_locked-IsSingle launch input path r h small (k (ground arith)) v.tasks)
    ]

proceed-IsSingle :
    (launch : Launch) (t : Task) (r : Relay) (h : Host)
    → r.session_id + 1 < 2 ^ 64
    → TaskOk r.session_id h.alive t
    → IsSingle (r, h)
    → IsSingle (proceed launch t (r, h))
unfolding proceed
proceed-IsSingle launch (watching pid s) r h small k v = elim (Bool-cases (is_alive pid h.alive)) [
  | inl lives ↦ rw (proceed, lives) (add_task-IsSingle (watching pid s) r h k v)
  | inr dead ↦ rw (proceed, dead) (watch-IsSingle pid s r h k dead v)
]
proceed-IsSingle launch (scheduling s input path) r h small k v =
    schedule-IsSingle s input path r h k v
proceed-IsSingle launch (sleeping delay s input path) r h small k v =
    finish-IsSingle launch s input path r h small k.1 v

pub step-IsSingle :
    (ev : Event) (r : Relay) (h : Host)
    → r.session_id + 1 < 2 ^ 64
    → IsSingle (r, h)
    → IsSingle (step ev (r, h))
unfolding step
step-IsSingle (starts launch input path) r h small v =
    start_session-IsSingle launch input path r h small v
step-IsSingle stops r h small v = stop_session-IsSingle r h v
step-IsSingle (exits pid) r h small v = record {
  single = Single-reap r pid h.alive v.single;
  tasks = All-TaskOk-reap r.session_id pid h.alive h.tasks v.tasks;
}
step-IsSingle (proceeds n launch) r h small v = elim (Option-cases (pick n h.tasks)) [
  | inl e ↦ rw (step, e) v
  | inr (c, e) ↦
      let (k, rest) = pick-All (TaskOk r.session_id h.alive) n h.tasks c.0 c.1 v.tasks e in
      rw (step, e)
        (proceed-IsSingle launch c.0 r (record h { tasks = c.1 }) small k
          (record { single = v.single; tasks = rest }))
]

pub proceed-session_id :
    (launch : Launch) (t : Task) (r : Relay) (h : Host)
    → r.session_id + 1 < 2 ^ 64
    → (proceed launch t (r, h)).0.session_id ≤ r.session_id + 1
unfolding proceed start_locked watch schedule_restart finish_restart
proceed-session_id launch (watching pid s) r h small = ground arith
proceed-session_id launch (scheduling s input path) r h small = ground arith
proceed-session_id launch (sleeping delay s input path) r h small = ground arith

-- A step starts at most one session.
pub step-session_id :
    (ev : Event) (r : Relay) (h : Host)
    → r.session_id + 1 < 2 ^ 64
    → (step ev (r, h)).0.session_id ≤ r.session_id + 1
unfolding step start_session stop_session stop_unlocked start_locked
step-session_id (starts launch input path) r h small = ground arith
step-session_id stops r h small = ground arith
step-session_id (exits pid) r h small = ground arith
step-session_id (proceeds n launch) r h small = elim (Option-cases (pick n h.tasks)) [
  | inl e ↦ rw (step, e) (omega arith)
  | inr (c, e) ↦ rw (step, e) (proceed-session_id launch c.0 r (record h { tasks = c.1 }) small)
]

pub run-IsSingle :
    (es : List Event) (w : Relay × Host)
    → w.0.session_id + length es < 2 ^ 64
    → IsSingle w
    → IsSingle (run es w)
unfolding run
run-IsSingle [] w small v = v
run-IsSingle (ev ∷ es) w small v =
    run-IsSingle es (step ev w) (omega (arith, step-session_id ev w.0 w.1 (omega arith)))
      (step-IsSingle ev w.0 w.1 (omega arith) v)

pub begin-IsSingle : (url : Text) → IsSingle (begin url)
unfolding new
begin-IsSingle url = record { single = tt; tasks = tt }

pub count-Single : (r : Relay) (ps : List Process) → Single r ps → length ps ≤ 1
count-Single r [] h = omega arith
count-Single r (p ∷ []) h = omega arith
count-Single r (p ∷ q ∷ ps) h = absurd h

-- After any history of fewer than 2 ^ 64 events, in which sessions are started and stopped,
-- processes exit and watchers and restarts go on in any order, at most one ffmpeg is alive, and
-- none if the relay says that it is not running.
pub single_process :
    (url : Text) (es : List Event)
    → length es < 2 ^ 64
    → let (r, h) = run es (begin url) in
      (length h.alive ≤ 1) × (is_running r ≡ false → h.alive ≡ [])
unfolding is_running new
single_process url es small =
    let v = run-IsSingle es (begin url) (omega arith) (begin-IsSingle url) in
    (
      count-Single (run es (begin url)).0 (run es (begin url)).1.alive v.single,
      λ off. not_running (run es (begin url)).0 (run es (begin url)).1.alive off v.single,
    )
