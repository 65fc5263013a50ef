-- ===== src/Launcher/Process.antt =====
-- What the launcher holds of the new process while it runs, and what is left when it ends.
use driver_uu_remote.Base.{
  Bool, true, false, not, ◌&&◌, List, [], ◌∷◌, ◌≡◌, ◌⊎◌, ◌==◌, if◌then◌else◌,
}
use driver_uu_remote.Launcher.Run.{
  Answers, Event, create_process, virtual_alloc, write_memory, create_thread, close_loader,
  virtual_free, resume, close_thread, close_process, terminate,
}

pub data Process : Type 0 where
  absent suspended running ended : Process

-- The process, whether its two handles, the loader thread's handle and the memory in it are held, and
-- whether the hook's path has been written there.
pub record Held : Type 0 where
  pub process : Process
  pub process_open : Bool
  pub thread_open : Bool
  pub loader_open : Bool
  pub memory : Bool

abbrev pub nothing : Held
nothing = record {
  process = absent;
  process_open = false;
  thread_open = false;
  loader_open = false;
  memory = false;
}

-- `ResumeThread` and `TerminateProcess`, whose results the source ignores, are taken to succeed.
unfoldable pub after_event : Event → Held → Held
after_event (create_process _ _ _) h = record h {
  process = suspended;
  process_open = true;
  thread_open = true;
}
after_event virtual_alloc h = record h { memory = true }
after_event (write_memory _) h = h
after_event create_thread h = record h { loader_open = true }
after_event close_loader h = record h { loader_open = false }
after_event virtual_free h = record h { memory = false }
after_event resume h = record h { process = running }
after_event close_thread h = record h { thread_open = false }
after_event close_process h = record h { process_open = false }
after_event terminate h = record h { process = ended }

unfoldable pub replay : List Event → Held → Held
unfolding after_event
replay [] h = h
replay (e ∷ es) h = replay es (after_event e h)

-- Whether every step that loads the hook succeeds.
unfoldable pub hook_loaded : Answers → Bool
hook_loaded w =
    w.allocated
    && w.written
    && w.found
    && w.threaded
    && w.waited
    && w.asked
    && not (w.loader_result == 0)

-- Nothing of a process in the given state is held.
unfoldable pub left : Process → Held
left p = record nothing { process = p }

-- Either no process is started, or at the end nothing of it is held (neither of its handles, nor the
-- loader thread's, nor the memory allocated in it) and it is not left suspended: it runs on if the
-- hook has been loaded into it, and has been ended otherwise.
unfoldable pub IsSettled : Answers → List Event → Type 0
unfolding hook_loaded left replay
IsSettled w events =
    (events ≡ []) ⊎ (replay events nothing ≡ left (if hook_loaded w then running else ended))
