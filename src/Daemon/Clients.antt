-- ===== src/Daemon/Clients.antt =====
-- The counting of clients: the loop of `main` and `client_thread` of src/amf_helper.c, one step for each
-- change of the counter that the threads share.
use driver_uu_remote.Base.{
  ℕ, zero, suc, ◌+◌, ◌-◌, ◌≤◌, ◌<◌, ◌≡◌, refl, Bool, true, false, leb, if◌then◌else◌, if-cases,
  arith,
}

abbrev pub helper_max_clients : ℕ
helper_max_clients = 16

-- The loop waits in `accept`, or has added 1 to the counter, which was `old`.
pub data Acceptor : Type 0 where
  accepting : Acceptor
  counted : ℕ → Acceptor

-- `running` is the number of threads in `client_thread`.
pub record Clients : Type 0 where
  pub active_clients : ℕ
  pub running : ℕ
  pub acceptor : Acceptor

abbrev pub no_clients : Clients
no_clients = record { active_clients = 0; running = 0; acceptor = accepting }

-- After a client has come: `created` is whether `pthread_create` succeeds.
unfoldable pub admit : Bool → ℕ → Clients → Clients
admit created old c =
    let refused = record c { active_clients = c.active_clients - 1; acceptor = accepting } in
    let served = record c { running = c.running + 1; acceptor = accepting } in
    if leb helper_max_clients old then refused else if created then served else refused

-- What can happen next: a client comes, the loop goes on with it, or a thread ends.
pub data Step : Clients → Clients → Type 0 where
  arrive :
      (active running : ℕ)
      → Step
          (record { active_clients = active; running = running; acceptor = accepting })
          (record { active_clients = active + 1; running = running; acceptor = counted active })
  decide :
      (created : Bool) (active running old : ℕ)
      → Step
          (record { active_clients = active; running = running; acceptor = counted old })
          (admit created old
            (record { active_clients = active; running = running; acceptor = counted old }))
  leave :
      (active running : ℕ) (acceptor : Acceptor)
      → Step
          (record { active_clients = active; running = suc running; acceptor = acceptor })
          (record { active_clients = active - 1; running = running; acceptor = acceptor })

pub data Steps : Clients → Clients → Type 0 where
  here : (c : Clients) → Steps c c
  next : (a b c : Clients) → Step a b → Steps b c → Steps a c

-- One for the client that the loop has counted.
abbrev pub pending : Acceptor → ℕ
pending accepting = 0
pending (counted old) = 1

unfoldable pub Room : Clients → Acceptor → Type 0
Room c accepting = Unit {0}
Room c (counted old) = c.running ≤ old

-- The counter is the number of threads and of the client counted, and there are sixteen threads at most.
pub record IsCounted (c : Clients) : Type 0 where
  pub exact : c.active_clients ≡ c.running + pending c.acceptor
  pub bounded : c.running ≤ helper_max_clients
  pub seen : Room c c.acceptor

Step-IsCounted : {a b : Clients} → Step a b → IsCounted a → IsCounted b
unfolding admit Room
Step-IsCounted (arrive active running) i = record {
  exact = omega (arith, i.exact);
  bounded = i.bounded;
  seen = omega (arith, i.exact);
}
Step-IsCounted (decide created active running old) i =
    let refused : Clients = record {
      active_clients = active - 1;
      running = running;
      acceptor = accepting;
    } in
    let served : Clients = record {
      active_clients = active;
      running = running + 1;
      acceptor = accepting;
    } in
    let no : IsCounted refused = record {
      exact = omega (arith, i.exact);
      bounded = i.bounded;
      seen = tt;
    } in
    if-cases IsCounted (leb helper_max_clients old) refused (if created then served else refused)
      (λ full. no)
      (λ room.
        if-cases IsCounted created served refused
          (λ made. record {
            exact = omega (arith, i.exact);
            bounded = below room i.seen;
            seen = tt;
          })
          (λ failed. no))
  where
    below : leb 16 old ≡ false → running ≤ old → running + 1 ≤ 16
    below h k = ground arith
Step-IsCounted (leave active running accepting) i = record {
  exact = omega (arith, i.exact);
  bounded = omega (arith, i.bounded);
  seen = tt;
}
Step-IsCounted (leave active running (counted old)) i = record {
  exact = omega (arith, i.exact);
  bounded = omega (arith, i.bounded);
  seen = omega (arith, i.seen);
}

Steps-IsCounted : {a b : Clients} → Steps a b → IsCounted a → IsCounted b
Steps-IsCounted (here c) i = i
Steps-IsCounted (next a b c s ss) i = Steps-IsCounted ss (Step-IsCounted s i)

-- In whatever order clients come and threads end, the counter is the number of threads and of the
-- client just counted, and at most sixteen clients are served at once.
pub reachable-IsCounted : (c : Clients) → Steps no_clients c → IsCounted c
unfolding Room
reachable-IsCounted c s =
    Steps-IsCounted s (record { exact = refl; bounded = omega arith; seen = tt })

-- A way on to a state in which one more client is served than before it came.
pub record Served (c : Clients) : Type 0 where
  pub before : Clients
  pub reached : Steps c before
  pub counting : Clients
  pub comes : Step before counting
  pub after : Clients
  pub goes_on : Step counting after
  pub more : after.running ≡ before.running + 1

serve_now :
    (running : ℕ)
    → running < 16
    → Served (record { active_clients = running; running = running; acceptor = accepting })
unfolding admit
serve_now running room =
    let now : Clients = record {
      active_clients = running;
      running = running;
      acceptor = accepting;
    } in
    let coming : Clients = record {
      active_clients = running + 1;
      running = running;
      acceptor = counted running;
    } in
    let fits : leb 16 running ≡ false = ground arith in
    record {
      before = now;
      reached = here now;
      counting = coming;
      comes = arrive running running;
      after = admit true running coming;
      goes_on = decide true (running + 1) running running;
      more = rw fits refl;
    }

earlier-Served : {a b : Clients} → Step a b → Served b → Served a
earlier-Served {a} {b} s v = record {
  before = v.before;
  reached = next a b v.before s v.reached;
  counting = v.counting;
  comes = v.comes;
  after = v.after;
  goes_on = v.goes_on;
  more = v.more;
}

serve_accepting :
    (active running : ℕ)
    → IsCounted (record { active_clients = active; running = running; acceptor = accepting })
    → Served (record { active_clients = active; running = running; acceptor = accepting })
serve_accepting active zero i =
    let e : active ≡ zero = omega (arith, i.exact) in rw e (serve_now zero (omega arith))
serve_accepting active (suc running) i =
    let e : active - 1 ≡ running = omega (arith, i.exact) in
    earlier-Served (leave active running accepting)
      (rw e (serve_now running (omega (arith, i.bounded))))

serve :
    (acceptor : Acceptor) (active running : ℕ)
    → IsCounted (record { active_clients = active; running = running; acceptor = acceptor })
    → Served (record { active_clients = active; running = running; acceptor = acceptor })
serve accepting active running i = serve_accepting active running i
serve (counted old) active running i =
    let step = decide false active running old in
    let refused : Clients = record {
      active_clients = active - 1;
      running = running;
      acceptor = accepting;
    } in
    let same : admit false old
          (record { active_clients = active; running = running; acceptor = counted old })
        ≡ refused =
      unfold admit in
      if-cases (λ c. c ≡ refused) (leb helper_max_clients old) refused refused (λ full. refl)
        (λ room. refl) in
    earlier-Served step
      (rw same (serve_accepting (active - 1) running (rw same at (Step-IsCounted step i))))

-- From every state that can be reached there is a way on in which a further client is served:
-- neither refusals nor threads that cannot be created use up the sixteen places.
pub reachable-Served : (c : Clients) → Steps no_clients c → Served c
reachable-Served c s = serve c.acceptor c.active_clients c.running (reachable-IsCounted c s)
