-- ===== src/Cgroup/File/Released.antt =====
-- When a released container stays released.
use titus_isolate.Prelude.{
  ℕ, ◌≡◌, refl, ◌∙◌, String, Bool, true, false, ◌==◌, List, [], ◌∷◌, Option, none, some, get_elem?,
  modify, contains, remove, IsDistinct, All, All-append, All-modify, All-get_elem?, All-keep_if,
  string_eq, beq_refl, arith,
}
use titus_isolate.Prelude.Sets.{
  contains-add_new, add_new-IsDistinct, remove-IsDistinct, contains-remove_self,
}
use titus_isolate.Cgroup.File.{
  Write, Writer, starting, written, added, dead, is_alive, FileCgroupManager, new_manager, advance,
  start, run_thread, set_now, release_container, has_pending_work,
}
use titus_isolate.Cgroup.File.Steps.{
  Step, start_step, set_step, thread_step, release_step, pending_step, Run, stay, step,
  advance-threads,
}

-- A writer that is yet to write for a container, or to add it.
abbrev pub is_for : String → Writer → Bool
is_for c (starting w) = c == w.container_name
is_for c (written d) = c == d
is_for c added = false
is_for c dead = false

abbrev pub OtherThan : String → List Write → Type 0
OtherThan c = All (λ (w : Write). (c == w.container_name) ≡ false)

module _ {Files : Type 0} (write : Write → Files → Option Files) where
  abbrev pub isolated : FileCgroupManager write → List String
  isolated s = s.isolated_workload_ids

  -- No writer is at work for a container.
  abbrev pub NoWriter : String → FileCgroupManager write → Type 0
  NoWriter c s = All (λ (t : Writer). is_for c t ≡ false) s.threads

  -- A container that is not isolated, and that no writer will add.
  abbrev Apart : String → FileCgroupManager write → Type 0
  Apart c s = NoWriter c s × (contains (isolated s) c ≡ false)

  advance-is_for :
      (c : String) (t : Writer) (s : FileCgroupManager write)
      → is_for c t ≡ false
      → contains (isolated s) c ≡ false
      → (is_for c (advance write t s).0 ≡ false)
        × (contains (isolated (advance write t s).1) c ≡ false)
  unfolding advance
  advance-is_for c (starting w) s h k = (ground arith, ground arith)
  advance-is_for c (written d) s h k = (refl, contains-add_new (isolated s) d c ∙ ground arith)
  advance-is_for c added s h k = (refl, k)
  advance-is_for c dead s h k = (refl, k)

  run_thread-Apart :
      (c : String) (i : ℕ) (s : FileCgroupManager write)
      → Apart c s
      → Apart c (run_thread write i s)
  unfolding run_thread
  run_thread-Apart c i s (no_writer, apart) = go (get_elem? s.threads i) refl
    where
      go :
          (o : Option Writer)
          → get_elem? s.threads i ≡ o
          → Apart c (elim o [
            | none ↦ s
            | some t ↦
                let (next, after) = advance write t s in
                record after { threads = modify after.threads i (λ _. next) }
          ])
      go none e = (no_writer, apart)
      go (some t) e =
          let (other, still) =
            advance-is_for c t s
              (All-get_elem? (λ (t : Writer). is_for c t ≡ false) s.threads i no_writer e) apart in
          (
            rw (advance-threads write t s) (
                All-modify (λ (t : Writer). is_for c t ≡ false) s.threads i _ (λ _ _. other)
                  no_writer),
            still,
          )

  set_now-Apart :
      (c : String) (w : Write) (s : FileCgroupManager write)
      → (c == w.container_name) ≡ false
      → Apart c s
      → Apart c (set_now write w s)
  unfolding set_now
  set_now-Apart c w s other (no_writer, apart) =
      let first = advance write (starting w) s in
      let second = advance write first.0 first.1 in
      let (for1, apart1) = advance-is_for c (starting w) s other apart in
      let (for2, apart2) = advance-is_for c first.0 first.1 for1 apart1 in
      let (_, apart3) = advance-is_for c second.0 second.1 for2 apart2 in
      (
        rw
            (
              advance-threads write second.0 second.1,
              advance-threads write first.0 first.1,
              advance-threads write (starting w) s,
            )
            no_writer,
        apart3,
      )

  remove-false :
      (xs : List String) (d c : String) → contains xs c ≡ false → contains (remove xs d) c ≡ false
  remove-false [] d c h = refl
  remove-false (x ∷ xs) d c h = ground (arith, h, remove-false xs d c)

  Step-Apart :
      {ws : List Write} {s t : FileCgroupManager write} (c : String)
      → Step write ws s t
      → OtherThan c ws
      → Apart c s
      → Apart c t
  unfolding start release_container has_pending_work
  Step-Apart c (start_step w s) o (no_writer, apart) = (
    All-append (λ (t : Writer). is_for c t ≡ false) s.threads (starting w ∷ []) no_writer (o.0, tt),
    apart,
  )
  Step-Apart c (set_step w s) o a = set_now-Apart c w s o.0 a
  Step-Apart c (thread_step i s) o a = run_thread-Apart c i s a
  Step-Apart c (release_step d s) o (no_writer, apart) =
      (no_writer, remove-false (isolated s) d c apart)
  Step-Apart c (pending_step s) o (no_writer, apart) =
      (All-keep_if (λ (t : Writer). is_for c t ≡ false) is_alive s.threads no_writer, apart)

  Run-Apart :
      {wss : List (List Write)} {s t : FileCgroupManager write} (c : String)
      → Run write wss s t
      → All (OtherThan c) wss
      → Apart c s
      → Apart c t
  Run-Apart c (stay s) o a = a
  Run-Apart c (step e r) o a = Run-Apart c r o.1 (Step-Apart c e o.0 a)

  advance-IsDistinct :
      (t : Writer) (s : FileCgroupManager write)
      → IsDistinct (isolated s)
      → IsDistinct (isolated (advance write t s).1)
  unfolding advance
  advance-IsDistinct (starting w) s d = ground (arith, d)
  advance-IsDistinct (written c) s d = add_new-IsDistinct (isolated s) c d
  advance-IsDistinct added s d = d
  advance-IsDistinct dead s d = d

  run_thread-IsDistinct :
      (i : ℕ) (s : FileCgroupManager write)
      → IsDistinct (isolated s)
      → IsDistinct (isolated (run_thread write i s))
  unfolding run_thread
  run_thread-IsDistinct i s d = go (get_elem? s.threads i)
    where
      go :
          (o : Option Writer)
          → IsDistinct (
              isolated (elim o [
                | none ↦ s
                | some t ↦
                    let (next, after) = advance write t s in
                    record after { threads = modify after.threads i (λ _. next) }
              ]))
      go none = d
      go (some t) = advance-IsDistinct t s d

  Step-IsDistinct :
      {ws : List Write} {s t : FileCgroupManager write}
      → Step write ws s t
      → IsDistinct (isolated s)
      → IsDistinct (isolated t)
  unfolding start set_now release_container has_pending_work
  Step-IsDistinct (start_step w s) d = d
  Step-IsDistinct (set_step w s) d =
      let first = advance write (starting w) s in
      let second = advance write first.0 first.1 in
      advance-IsDistinct second.0 second.1
        (advance-IsDistinct first.0 first.1 (advance-IsDistinct (starting w) s d))
  Step-IsDistinct (thread_step i s) d = run_thread-IsDistinct i s d
  Step-IsDistinct (release_step c s) d = remove-IsDistinct (isolated s) c d
  Step-IsDistinct (pending_step s) d = d

  Run-IsDistinct :
      {wss : List (List Write)} {s t : FileCgroupManager write}
      → Run write wss s t
      → IsDistinct (isolated s)
      → IsDistinct (isolated t)
  Run-IsDistinct (stay s) d = d
  Run-IsDistinct (step e r) d = Run-IsDistinct r (Step-IsDistinct e d)

  -- In every run from a new manager: if no writer is at work for a container when it is released, it is
  -- not isolated from then on, until a write is asked for it again.
  pub release_container-stays :
      (files : Files) (before after : List (List Write)) (c : String)
      (s t : FileCgroupManager write)
      → Run write before (new_manager write files) s
      → NoWriter c s
      → Run write after (release_container write c s) t
      → All (OtherThan c) after
      → contains t.isolated_workload_ids c ≡ false
  unfolding release_container new_manager
  release_container-stays files before after c s t reached no_writer r others =
      let d = Run-IsDistinct reached tt in
      (Run-Apart c r others (no_writer, contains-remove_self (isolated s) c d)).1

  -- In every run from a new manager: a container that is released is not isolated; but the release
  -- cancels no writer, and if one had written for the container and not yet added it, the container is
  -- isolated again after that writer's next step.
  pub release_container-late :
      (files : Files) (before : List (List Write)) (c : String) (i : ℕ)
      (s : FileCgroupManager write)
      → Run write before (new_manager write files) s
      → get_elem? s.threads i ≡ some (written c)
      → let released = release_container write c s in
        (contains released.isolated_workload_ids c ≡ false)
        × (contains (run_thread write i released).isolated_workload_ids c ≡ true)
  unfolding run_thread advance release_container new_manager
  release_container-late files before c i s reached e = (
    contains-remove_self (isolated s) c (Run-IsDistinct reached tt),
    rw (run_thread, e) (contains-add_new (remove (isolated s) c) c c ∙ ground (arith, beq_refl c)),
  )
