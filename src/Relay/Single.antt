-- ===== src/Relay/Single.antt =====
-- At most one ffmpeg is alive, and a goroutine of an older session never acts on a newer one.
use irl_universal_ingest.Prelude.{
  ℕ, ◌+◌, ◌<◌, ◌≤◌, ◌^◌, ◌≡◌, refl, inl, inr, true, false, ◌&&◌, not, List, [], ◌∷◌, none, some,
  Text, arith, All, All-map, Option-cases, Bool-cases, nat_eq,
}
use irl_universal_ingest.Relay.{
  Relay, Host, Task, watching, scheduling, sleeping, Process, Launch, reap, start_locked,
  start_session, stop_unlocked, stop_session, is_pipe, next_session, aimed, launched, new_process,
}

-- The live processes: none, or the one that cmd names, and then the relay knows that it runs.
abbrev pub Single : Relay → List Process → Type 0
Single r [] = Unit
Single r (p ∷ []) = (r.cmd ≡ some p.pid) × (r.running ≡ true)
Single r (p ∷ q ∷ ps) = ⊥

abbrev pub Only : ℕ → List Process → Type 0
Only pid [] = Unit
Only pid (p ∷ []) = p.pid ≡ pid
Only pid (p ∷ q ∷ ps) = ⊥

-- A goroutine of the current session watches the live process, or there is none.
abbrev pub TaskOk : ℕ → List Process → Task → Type 0
TaskOk n alive (watching pid s) = (s ≤ n) × (s ≡ n → Only pid alive)
TaskOk n alive (scheduling s input path) = (s ≤ n) × (s ≡ n → alive ≡ [])
TaskOk n alive (sleeping delay s input path) = (s ≤ n) × (s ≡ n → alive ≡ [])

pub record IsSingle (w : Relay × Host) : Type 0 where
  pub single : Single w.0 w.1.alive
  pub tasks : All (TaskOk w.0.session_id w.1.alive) w.1.tasks

pub Single-reap : (r : Relay) (pid : ℕ) (ps : List Process) → Single r ps → Single r (reap pid ps)
unfolding reap
Single-reap r pid [] h = tt
Single-reap r pid (p ∷ []) h = ground arith
Single-reap r pid (p ∷ q ∷ ps) h = absurd h

Only-reap : (k pid : ℕ) (ps : List Process) → Only k ps → Only k (reap pid ps)
unfolding reap
Only-reap k pid [] h = tt
Only-reap k pid (p ∷ []) h = ground arith
Only-reap k pid (p ∷ q ∷ ps) h = absurd h

pub reap-nil : (pid : ℕ) (ps : List Process) → ps ≡ [] → reap pid ps ≡ []
unfolding reap
reap-nil pid ps h = rw h

TaskOk-reap : (n pid : ℕ) (ps : List Process) (t : Task) → TaskOk n ps t → TaskOk n (reap pid ps) t
TaskOk-reap n pid ps (watching k s) h = (h.0, λ e. Only-reap k pid ps (h.1 e))
TaskOk-reap n pid ps (scheduling s i p) h = (h.0, λ e. reap-nil pid ps (h.1 e))
TaskOk-reap n pid ps (sleeping d s i p) h = (h.0, λ e. reap-nil pid ps (h.1 e))

-- Every goroutine of an older session is done with the processes.
TaskOk-older : (n m : ℕ) (ps qs : List Process) (t : Task) → n < m → TaskOk n ps t → TaskOk m qs t
TaskOk-older n m ps qs (watching k s) l h = (omega arith, λ e. absurd (omega arith))
TaskOk-older n m ps qs (scheduling s i p) l h = (omega arith, λ e. absurd (omega arith))
TaskOk-older n m ps qs (sleeping d s i p) l h = (omega arith, λ e. absurd (omega arith))

-- What cmd names is the only live process, so that stopping it leaves none.
stop_reaps :
    (r : Relay) (pid : ℕ) (ps : List Process) → r.cmd ≡ some pid → Single r ps → reap pid ps ≡ []
unfolding reap
stop_reaps r pid [] c h = refl
stop_reaps r pid (p ∷ []) c h = ground arith
stop_reaps r pid (p ∷ q ∷ ps) c h = absurd h

no_cmd : (r : Relay) (ps : List Process) → r.cmd ≡ none → Single r ps → ps ≡ []
no_cmd r [] c h = refl
no_cmd r (p ∷ []) c h = absurd (ground arith)
no_cmd r (p ∷ q ∷ ps) c h = absurd h

pub not_running : (r : Relay) (ps : List Process) → r.running ≡ false → Single r ps → ps ≡ []
not_running r [] c h = refl
not_running r (p ∷ []) c h = absurd (ground arith)
not_running r (p ∷ q ∷ ps) c h = absurd h

pub stop_unlocked-alive :
    (r : Relay) (h : Host) → Single r h.alive → (stop_unlocked (r, h)).1.alive ≡ []
unfolding stop_unlocked
stop_unlocked-alive r h s = elim (Option-cases r.cmd) [
  | inl e ↦ rw (e, stop_unlocked) (no_cmd r h.alive e s)
  | inr (pid, e) ↦ rw (e, stop_unlocked) (stop_reaps r pid h.alive e s)
]

pub Single-same :
    (r r' : Relay) (ps : List Process)
    → r'.cmd ≡ r.cmd
    → r'.running ≡ r.running
    → Single r ps
    → Single r' ps
Single-same r r' [] c e h = tt
Single-same r r' (p ∷ []) c e h = ground arith
Single-same r r' (p ∷ q ∷ ps) c e h = absurd h

pub Single-idle : (r : Relay) (ps : List Process) → ps ≡ [] → Single r ps
Single-idle r [] e = tt
Single-idle r (p ∷ ps) e = absurd (cc)

Only-idle : (pid : ℕ) (p : Process) (ps : List Process) → p.pid ≡ pid → ps ≡ [] → Only pid (p ∷ ps)
Only-idle pid p [] e h = e
Only-idle pid p (q ∷ ps) e h = absurd (cc)

Single-new :
    (r : Relay) (p : Process) (ps : List Process)
    → r.cmd ≡ some p.pid
    → r.running ≡ true
    → ps ≡ []
    → Single r (p ∷ ps)
Single-new r p [] c e h = (c, e)
Single-new r p (q ∷ ps) c e h = absurd (cc)

-- The session numbers do not wrap before 2 ^ 64 starts.
next_session_grows : (n : ℕ) → n + 1 < 2 ^ 64 → (n < next_session n) × (next_session n ≡ n + 1)
next_session_grows n h = omega arith

pub start_locked-IsSingle :
    (launch : Launch) (input path : Text) (r : Relay) (h : Host)
    → r.session_id + 1 < 2 ^ 64
    → h.alive ≡ []
    → All (TaskOk r.session_id h.alive) h.tasks
    → IsSingle (start_locked launch input path (r, h)).0
unfolding start_locked
start_locked-IsSingle launch input path r h small idle ts =
    elim (Bool-cases (is_pipe input && not launch.pipe_ok)) [
      | inl bad ↦
          rw (start_locked, bad)
            (record { single = Single-idle (aimed r) h.alive idle; tasks = ts })
      | inr good ↦ elim (Bool-cases (not launch.start_ok)) [
        | inl bad ↦
            rw (start_locked, good, bad)
              (record { single = Single-idle (aimed r) h.alive idle; tasks = ts })
        | inr fine ↦
            rw (start_locked, good, fine)
              (record {
                single =
                    Single-new (launched input h.processes r) (new_process input r h) h.alive refl
                      refl idle;
                tasks = (
                  (
                    omega arith,
                    λ _. Only-idle h.processes (new_process input r h) h.alive refl idle,
                  ),
                  All-map _ _
                      (λ t k.
                        TaskOk-older r.session_id (next_session r.session_id) h.alive
                          (new_process input r h ∷ h.alive) t
                          (next_session_grows r.session_id small).0 k)
                      h.tasks ts,
                );
              })
      ]
    ]

pub All-TaskOk-reap :
    (n pid : ℕ) (ps : List Process) (ts : List Task)
    → All (TaskOk n ps) ts
    → All (TaskOk n (reap pid ps)) ts
All-TaskOk-reap n pid ps = All-map (TaskOk n ps) (TaskOk n (reap pid ps)) (TaskOk-reap n pid ps)

stop_unlocked-tasks :
    (r : Relay) (h : Host)
    → All (TaskOk r.session_id h.alive) h.tasks
    → let w = stop_unlocked (r, h) in
      (w.0.session_id ≡ r.session_id) × All (TaskOk r.session_id w.1.alive) w.1.tasks
unfolding stop_unlocked
stop_unlocked-tasks r h ts = elim (Option-cases r.cmd) [
  | inl e ↦ rw (e, stop_unlocked) (refl, ts)
  | inr (pid, e) ↦ rw (e, stop_unlocked) (refl, All-TaskOk-reap r.session_id pid h.alive h.tasks ts)
]

pub stop_session-IsSingle :
    (r : Relay) (h : Host) → IsSingle (r, h) → IsSingle (stop_session (r, h))
unfolding stop_session
stop_session-IsSingle r h v =
    let r' = record r { stopped = true } in
    let s = Single-same r r' h.alive refl refl v.single in
    record {
      single =
          Single-idle (stop_unlocked (r', h)).0 (stop_unlocked (r', h)).1.alive
            (stop_unlocked-alive r' h s);
      tasks = (stop_unlocked-tasks r' h v.tasks).1;
    }

pub start_session-IsSingle :
    (launch : Launch) (input path : Text) (r : Relay) (h : Host)
    → r.session_id + 1 < 2 ^ 64
    → IsSingle (r, h)
    → IsSingle (start_session launch input path (r, h)).0
unfolding start_session
start_session-IsSingle launch input path r h small v = elim (Bool-cases r.running) [
  | inl on ↦
      rw (start_session, on)
        (start_locked-IsSingle launch input path _ _ small (stop_unlocked-alive r h v.single)
          (stop_unlocked-tasks r h v.tasks).1)
  | inr off ↦
      rw (start_session, off)
        (start_locked-IsSingle launch input path _ h small (not_running r h.alive off v.single)
          v.tasks)
]
