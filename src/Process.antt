-- ===== src/Process.antt =====
-- src/process.hpp: starting a program, alone or held back until the counters are attached.
pub mod Argv
pub mod Attach
use bbench.Base.{
  ℕ, zero, suc, ◌+◌, ◌-◌, Bool, true, false, List, [], ◌∷◌, ◌++◌, Option, none, some, length,
  if◌then◌else◌,
}
use bbench.Base.Int.{ℤ, pos, negsuc, is_negative, ◌==ℤ◌, to_i32}
use bbench.Base.Text.{CString}
use bbench.Perf.Sys.{
  Os, World, Entry, close, read, write, waitpid, pipe2, fork, spawn, execve, exit, syscall,
}

-- A `runtime_error` of the sources.
pub data Exn : Type 0 where
  spawn_failed pipe2_failed fork_failed clock_failed : Exn

-- How a piece of code ends: with a value, by an exception, or, in a child process, never: it runs
-- another program or exits. `hung` is the model's own: a loop goes on when its fuel is spent.
pub data Outcome {ℓ} (A : Type ℓ) : Type ℓ where
  ok : A → Outcome A
  thrown : Exn → Outcome A
  left hung : Outcome A

-- `argv.insert(position, item)`
unfoldable pub insert {ℓ} : {A : Type ℓ} → ℕ → A → List A → List A
insert zero a xs = a ∷ xs
insert (suc i) a [] = a ∷ []
insert (suc i) a (x ∷ xs) = x ∷ insert i a xs

-- `(argv.insert(argv.size() - 1, args), ...)`
unfoldable pub insert_args : List CString → List (Option CString) → List (Option CString)
insert_args [] argv = argv
insert_args (a ∷ args) argv = insert_args args (insert (length argv - 1) (some a) argv)

-- The argument vector: the path and a null pointer, then the arguments before the null pointer.
unfoldable pub argv_of : CString → List CString → List (Option CString)
argv_of t args = insert_args args (some t ∷ none ∷ [])

-- What `execve` and `spawn` read of the vector: the strings before the null pointer.
abbrev pub strings : List (Option CString) → List CString
strings [] = []
strings (none ∷ argv) = []
strings (some a ∷ argv) = a ∷ strings argv

module _ (os : Os) where
  -- `process<W>(t, args...)`
  unfoldable pub process : Bool → CString → List CString → World → Outcome ℤ × World
  process waits t args w =
      let (r, w1) = syscall os (spawn t (strings (argv_of t args))) w in
      let pid = os.child w.log in
      if r ==ℤ pos 0
      then (if waits then (ok pid, (syscall os (waitpid pid false) w1).1) else (ok pid, w1))
      else (thrown spawn_failed, w1)

  -- The child of `process_attach`: it waits for the byte, then runs the program.
  unfoldable pub attach_child : CString → ℤ → ℤ → World → World
  attach_child path from to w =
      let (_, w1) = syscall os (close to) w in
      let (_, w2) = syscall os (read from) w1 in
      let (_, w3) = syscall os (close from) w2 in
      let (_, w4) = syscall os (execve path (path ∷ [])) w3 in (syscall os (exit 127) w4).1

  -- The parent of `process_attach`, where `attach` works on a state of the caller's: it attaches,
  -- then releases the child.
  unfoldable pub attach_parent {ℓ} :
      {S : Type ℓ} → (ℤ → S → World → S × World) → ℤ → ℤ → ℤ → S → World → S × World
  attach_parent attach pid from to s w =
      let w1 : World = (syscall os (close from) w).1 in
      let (s', w2) = attach pid s w1 in
      let w3 : World = (syscall os (write to (b'g' ∷ [])) w2).1 in
      (s', (syscall os (close to) w3).1)

  -- Both ends are closed where `fork` fails.
  unfoldable pub close_both : ℤ → ℤ → World → World
  close_both from to w = let (_, w1) = syscall os (close from) w in (syscall os (close to) w1).1

  -- `process_attach(path, attach_fn)`
  unfoldable pub process_attach {ℓ} :
      {S : Type ℓ} → CString → (ℤ → S → World → S × World) → S → World → Outcome ℤ × S × World
  process_attach path attach s w =
      let (from, to) = os.pipe w.log in
      let (r, w1) = syscall os (pipe2 from to) w in
      let (pid, w2) = syscall os fork w1 in
      let (s', w3) = attach_parent attach pid from to s w2 in
      if is_negative r
      then (thrown pipe2_failed, s, w1)
      else if is_negative pid
      then (thrown fork_failed, s, close_both from to w2)
      else if pid ==ℤ pos 0
      then (left, s, attach_child path from to w2)
      else (ok pid, s', w3)
