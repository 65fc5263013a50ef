-- ===== src/Launcher/Run.antt =====
-- `run` of src/server_launcher.c. The Windows calls are answered by a record, and what they have done
-- to the new process is the list of events.
use driver_uu_remote.Base.{
  ℕ, ◌+◌, ◌-◌, ◌%◌, ◌^◌, Bool, true, false, not, ◌||◌, List, [], ◌∷◌, ◌++◌, Option, none, some,
  length, ◌==◌, leb, if◌then◌else◌,
}
use driver_uu_remote.Launcher.Text.{
  skip_program_name, replace_filename, launch_command, real_server, compat_hook,
}

abbrev pub max_path : ℕ
max_path = 260

abbrev pub command_capacity : ℕ
command_capacity = 32768

-- What Windows answers: the launcher's own path and command line, then each call in turn. `waited` is
-- a wait that ends with WAIT_OBJECT_0.
pub record Answers : Type 0 where
  pub module_path : Option (List ℕ)
  pub command_line : List ℕ
  pub created : Bool
  pub allocated : Bool
  pub written : Bool
  pub found : Bool
  pub threaded : Bool
  pub waited : Bool
  pub asked : Bool
  pub loader_result : ℕ
  pub process_exit : Option ℕ

-- The calls that succeed and change what the launcher holds.
pub data Event : Type 0 where
  create_process : List ℕ → List ℕ → List ℕ → Event
  virtual_alloc : Event
  write_memory : List ℕ → Event
  create_thread close_loader virtual_free resume close_thread close_process terminate : Event

-- The label `injection_failed`: the two tests tell whether a loader thread and the memory are there.
unfoldable pub injection_failed : Bool → Bool → List Event
injection_failed thread memory =
    (if thread then close_loader ∷ [] else [])
    ++ (if memory then virtual_free ∷ [] else [])
    ++ (terminate ∷ close_thread ∷ close_process ∷ [])

-- The exit code of a launcher whose process ran to its end; without an answer it stays 1.
unfoldable pub exit_code : Option ℕ → ℕ
exit_code none = 1
exit_code (some code) = code

-- From the allocation in the new process on.
unfoldable pub inject : Answers → List ℕ → ℕ × List Event
unfolding injection_failed exit_code
inject w hook =
    if not w.allocated
    then (1, injection_failed false false)
    else if not w.written
    then (1, virtual_alloc ∷ injection_failed false true)
    else if not w.found
    then (1, virtual_alloc ∷ write_memory hook ∷ injection_failed false true)
    else if not w.threaded
    then (1, virtual_alloc ∷ write_memory hook ∷ injection_failed false true)
    else if not w.waited || not w.asked || (w.loader_result == 0)
    then (1, virtual_alloc ∷ write_memory hook ∷ create_thread ∷ injection_failed true true)
    else (
      exit_code w.process_exit,
      virtual_alloc
          ∷ write_memory hook
          ∷ create_thread
          ∷ close_loader
          ∷ virtual_free
          ∷ resume
          ∷ close_thread
          ∷ close_process
          ∷ [],
    )

-- From the check of the command line's length on.
unfoldable pub launch : Answers → List ℕ → List ℕ → List ℕ → ℕ × List Event
unfolding inject
launch w executable hook directory =
    let arguments = skip_program_name w.command_line in
    let injected = inject w hook in
    if leb command_capacity ((length executable + length arguments + 4) % 2 ^ 32)
    then (1, [])
    else if not w.created
    then (1, [])
    else (
      injected.0,
      create_process executable (launch_command executable arguments) directory ∷ injected.1,
    )

-- The three calls of `replace_filename`, which the first failure ends.
unfoldable pub launch_from : Answers → List ℕ → ℕ × List Event
unfolding launch
launch_from w path =
    paths (replace_filename path max_path real_server) (replace_filename path max_path compat_hook)
      (replace_filename path max_path [])
  where
    paths : Option (List ℕ) → Option (List ℕ) → Option (List ℕ) → ℕ × List Event
    paths (some executable) (some hook) (some directory) = launch w executable hook directory
    paths _ _ _ = (1, [])

unfoldable pub run : Answers → ℕ × List Event
unfolding launch_from
run w = resolved w.module_path
  where
    resolved : Option (List ℕ) → ℕ × List Event
    resolved none = (1, [])
    resolved (some path) = if leb (max_path - 1) (length path) then (1, []) else launch_from w path
